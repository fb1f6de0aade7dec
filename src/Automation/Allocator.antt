-- ===== src/Automation/Allocator.antt =====
-- src/automation/allocator.rs: the allocation caps on the sleeves of all strategies.
-- The JSON snapshot of a decision, which repeats its inputs, is left out.
pub mod Caps
mod Tests
use stocks.Base.{
  ℕ, ◌≡◌, Bool, true, false, not, ◌&&◌, List, [], ◌∷◌, ◌++◌, map, Option, none, some, String,
  str_eq, ◌==◌, if◌then◌else◌, find, keep, flatten, is_empty, is_some,
}
use stocks.Base.Text.{eq_ignore_ascii_case}
use stocks.Float.{F64, nought, micro, sum}
use stocks.Reasons.{when, sort_dedup}

-- 128 bits, of which only equality is used.
abbrev pub Uuid : Type 0
Uuid = ℕ

pub record AllocationLimits (F : Type 0) : Type 0 where
  pub max_strategy_allocation_pct : Option F
  pub max_symbol_allocation_pct : Option F
  pub max_portfolio_allocation_pct : Option F

pub record AllocationRequest (F : Type 0) : Type 0 where
  pub sleeve_id : Option Uuid
  pub symbol : String
  pub target_notional_usd : F
  pub portfolio_value_usd : F

pub record SleeveAllocation (F : Type 0) : Type 0 where
  pub sleeve_id : Option Uuid
  pub symbol : String
  pub sleeve_kind : String
  pub status : String
  pub allocated_notional_usd : F
  pub current_notional_usd : F
  pub realized_pnl : F
  pub unrealized_pnl : F

pub record AllocationDecision : Type 0 where
  pub allowed : Bool
  pub blocked_reasons : List String

-- `left.is_some() && left == right`.
unfoldable pub same_sleeve : Option Uuid → Option Uuid → Bool
same_sleeve (some left) (some right) = left == right
same_sleeve _ _ = false

module _ {F : Type 0} ⦃d : F64 F⦄ where
  unfoldable pub sleeve_notional : SleeveAllocation F → F
  sleeve_notional sleeve =
      d.max (d.max sleeve.allocated_notional_usd sleeve.current_notional_usd) nought

  unfoldable pub cap_usd : Option F → F → Option F
  cap_usd none portfolio_value = none
  cap_usd (some pct) portfolio_value =
      some (d.max (d.mul (d.max pct nought) portfolio_value) nought)

  unfoldable pub cap_exceeded : F → F → Option F → Bool
  cap_exceeded proposed current none = false
  cap_exceeded proposed current (some cap) =
      d.lt (d.add cap micro) proposed && d.lt (d.add current micro) proposed

  -- The sleeve of the request, the first of its id.
  unfoldable pub own : AllocationRequest F → List (SleeveAllocation F) → Option (SleeveAllocation F)
  own request sleeves = find (λ sleeve. same_sleeve request.sleeve_id sleeve.sleeve_id) sleeves

  abbrev pub notional_of : Option (SleeveAllocation F) → F
  notional_of none = nought
  notional_of (some sleeve) = sleeve_notional sleeve

  unfoldable pub symbol_total : AllocationRequest F → List (SleeveAllocation F) → F
  symbol_total request sleeves = sum (
      map sleeve_notional
        (keep (λ sleeve. eq_ignore_ascii_case sleeve.symbol request.symbol) sleeves))

  unfoldable pub portfolio_total : List (SleeveAllocation F) → F
  portfolio_total sleeves = sum (map sleeve_notional sleeves)

  -- A total with the request's own sleeve replaced by its target.
  abbrev pub replaced : F → F → F → F
  replaced total current_self target = d.add (d.max (d.sub total current_self) nought) target

  -- The match on the status of the request's own sleeve.
  unfoldable pub status_blockers : Option (SleeveAllocation F) → F → Bool → List String
  status_blockers none target is_reduction = []
  status_blockers (some sleeve) target is_reduction =
      if str_eq sleeve.status "frozen" && not is_reduction
      then "sleeve_frozen" ∷ []
      else when (str_eq sleeve.status "closed" && d.lt micro target) "sleeve_closed"

  -- What is pushed to `blocked_reasons`, step by step, for the target `max(target_notional_usd, 0)`.
  abbrev pub pushed :
      AllocationRequest F → List (SleeveAllocation F) → AllocationLimits F → F → List (List String)
  pushed request sleeves limits target =
      let portfolio_value = d.max request.portfolio_value_usd nought in
      let current_self = notional_of (own request sleeves) in
      let in_symbol = symbol_total request sleeves in
      let in_portfolio = portfolio_total sleeves in
      let is_reduction = d.le target (d.add current_self micro) in
      status_blockers (own request sleeves) target is_reduction
      ∷ when
          (cap_exceeded target current_self
            (cap_usd limits.max_strategy_allocation_pct portfolio_value))
          "strategy_allocation_cap_exceeded"
      ∷ when
          (cap_exceeded (replaced in_symbol current_self target) in_symbol
            (cap_usd limits.max_symbol_allocation_pct portfolio_value))
          "symbol_allocation_cap_exceeded"
      ∷ when
          (cap_exceeded (replaced in_portfolio current_self target) in_portfolio
            (cap_usd limits.max_portfolio_allocation_pct portfolio_value))
          "portfolio_allocation_cap_exceeded"
      ∷ []

  unfoldable pub evaluate_allocation :
      AllocationRequest F → List (SleeveAllocation F) → AllocationLimits F → AllocationDecision
  evaluate_allocation request sleeves limits =
      let target = d.max request.target_notional_usd nought in
      let blocked_reasons = sort_dedup (flatten (pushed request sleeves limits target)) in
      record { allowed = is_empty blocked_reasons; blocked_reasons = blocked_reasons }
