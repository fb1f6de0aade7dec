-- ===== src/Automation/MarketReadiness/Tests.antt =====
-- A symbol with a fresh bar, and a window across midnight.
use stocks.Base.{◌≡◌, ◌↔◌, true, [], ◌∷◌, some}
use stocks.Base.Int.{pos}
use stocks.Float.Micros.{Micros, micros_f64}
use stocks.Automation.MarketReadiness.{
  HaltState, NoTradeWindow, MarketReadinessInput, evaluate_market_readiness,
}
use stocks.Automation.MarketReadiness.Fit.{IsFit, evaluate_market_readiness-ready_iff}

abbrev night : NoTradeWindow
night = record { label = "night"; start_utc = 79_200; end_utc = 21_600 }

abbrev input : MarketReadinessInput Micros
input = record {
  now = pos 200_000_000_000_000;
  now_time = 54_000;
  latest_bar_at = some (pos 100_000_000_000_000);
  latest_price = some (pos 101_000_000);
  previous_close = some (pos 100_000_000);
  max_age_days = pos 2;
  max_gap_pct = pos 20_000_000;
  session_open = true;
  session_label = "regular";
  halt_state = HaltState.not_halted;
  corporate_actions_adjusted = true;
  no_trade_windows_utc = night ∷ [];
}

evaluate_market_readiness-ready_iff_example :
    ((evaluate_market_readiness input).status ≡ "ready") ↔ IsFit input
evaluate_market_readiness-ready_iff_example = evaluate_market_readiness-ready_iff input
