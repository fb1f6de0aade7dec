-- ===== src/Automation/Allocator/Tests.antt =====
-- A request of one sleeve among two, within its caps.
use stocks.Base.{◌≡◌, refl, true, List, [], ◌∷◌, none, some}
use stocks.Base.Text.{eq_ignore_ascii_case}
use stocks.Base.Int.{pos, ◌+ℤ◌, ◌-ℤ◌}
use stocks.Float.Micros.{Micros, micros_f64, Micros-IsIeee}
use stocks.Automation.Allocator.{
  AllocationLimits, AllocationRequest, SleeveAllocation, evaluate_allocation, status_blockers, own,
  same_sleeve, cap_exceeded, sleeve_notional, symbol_total, portfolio_total, cap_usd,
}
use stocks.Automation.Allocator.Caps.{with_target, allowed_iff, evaluate_allocation-antitone}

abbrev limits : AllocationLimits Micros
limits = record {
  max_strategy_allocation_pct = some (pos 100_000);
  max_symbol_allocation_pct = none;
  max_portfolio_allocation_pct = some (pos 500_000);
}

abbrev sleeves : List (SleeveAllocation Micros)
sleeves =
    record {
      sleeve_id = some 1;
      symbol = "MU";
      sleeve_kind = "strategy";
      status = "active";
      allocated_notional_usd = pos 2_000_000_000;
      current_notional_usd = pos 1_000_000_000;
      realized_pnl = pos 0;
      unrealized_pnl = pos 0;
    }
    ∷ []

abbrev request : AllocationRequest Micros
request = record {
  sleeve_id = some 1;
  symbol = "mu";
  target_notional_usd = pos 3_000_000_000;
  portfolio_value_usd = pos 100_000_000_000;
}

allowed : (evaluate_allocation request sleeves limits).allowed ≡ true
unfolding status_blockers own same_sleeve cap_exceeded sleeve_notional symbol_total portfolio_total
    cap_usd eq_ignore_ascii_case ◌+ℤ◌ ◌-ℤ◌
allowed = (allowed_iff request sleeves limits).1 (refl, (refl, (refl, (refl, tt))))

evaluate_allocation-antitone_example :
    (evaluate_allocation (with_target request (pos 1_000_000)) sleeves limits).allowed ≡ true
evaluate_allocation-antitone_example =
    evaluate_allocation-antitone Micros-IsIeee request sleeves limits (pos 1_000_000) refl allowed
