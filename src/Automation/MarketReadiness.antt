-- ===== src/Automation/MarketReadiness.antt =====
-- src/automation/market_readiness.rs: is the market data of a symbol fit to act on.
-- A time of day is a number of nanoseconds since midnight. The JSON snapshot is left out.
pub mod Fit
mod Tests
use stocks.Base.{
  ℕ, Bool, true, false, not, ◌&&◌, ◌||◌, List, [], ◌∷◌, Option, none, some, String, if◌then◌else◌,
  find, flatten, is_empty, is_some, leb,
}
use stocks.Base.Int.{ℤ, pos, ltb_ℤ, max_ℤ}
use stocks.Float.{F64, nought}
use stocks.Time.{DateTime, Span, days, since}
use stocks.Reasons.{when, sort_dedup}

pub data HaltState : Type 0 where
  unknown not_halted halted : HaltState

abbrev pub is_halted : HaltState → Bool
is_halted HaltState.halted = true
is_halted _ = false

pub record NoTradeWindow : Type 0 where
  pub label : String
  pub start_utc : ℕ
  pub end_utc : ℕ

-- `now` with the time of day that chrono reads off it.
pub record MarketReadinessInput (F : Type 0) : Type 0 where
  pub now : DateTime
  pub now_time : ℕ
  pub latest_bar_at : Option DateTime
  pub latest_price : Option F
  pub previous_close : Option F
  pub max_age_days : ℤ
  pub max_gap_pct : F
  pub session_open : Bool
  pub session_label : String
  pub halt_state : HaltState
  pub corporate_actions_adjusted : Bool
  pub no_trade_windows_utc : List NoTradeWindow

pub record MarketReadinessDecision : Type 0 where
  pub status : String
  pub blocked_reasons : List String

unfoldable pub window_contains : NoTradeWindow → ℕ → Bool
window_contains window time =
    if leb window.start_utc window.end_utc
    then leb window.start_utc time && leb time window.end_utc
    else leb window.start_utc time || leb time window.end_utc

unfoldable pub bar_blockers : DateTime → Option DateTime → ℤ → List String
bar_blockers now none max_age_days = "market_bar_missing" ∷ []
bar_blockers now (some latest) max_age_days =
    when (ltb_ℤ (days (max_ℤ max_age_days (pos 1))) (since now latest)) "market_bar_stale"

abbrev pub status_of : Bool → String
status_of is_clear = if is_clear then "ready" else "blocked"

module _ {F : Type 0} ⦃d : F64 F⦄ where
  -- `filter(|price| *price > 0.0)`.
  unfoldable pub positive : Option F → Option F
  positive none = none
  positive (some price) = if d.lt nought price then some price else none

  unfoldable pub gap_pct : Option F → Option F → Option F
  gap_pct (some latest) (some previous) =
      some (d.mul (d.div (d.abs (d.sub latest previous)) previous) (d.lit 100 0))
  gap_pct _ _ = none

  unfoldable pub gap_exceeds : Option F → F → Bool
  gap_exceeds none limit = false
  gap_exceeds (some gap) limit = d.lt (d.max limit nought) gap

  abbrev pub pushed : MarketReadinessInput F → List (List String)
  pushed input =
      let latest_price = positive input.latest_price in
      let gap = gap_pct latest_price (positive input.previous_close) in
      let active_window =
        find (λ window. window_contains window input.now_time) input.no_trade_windows_utc in
      when (not (is_some latest_price)) "market_price_missing"
      ∷ bar_blockers input.now input.latest_bar_at input.max_age_days
      ∷ when (gap_exceeds gap input.max_gap_pct) "market_bar_gap_anomaly"
      ∷ when (not input.session_open) "market_session_closed"
      ∷ when (is_halted input.halt_state) "market_halt_or_suspension"
      ∷ when (not input.corporate_actions_adjusted) "corporate_action_state_unsupported"
      ∷ when (is_some active_window) "no_trade_window"
      ∷ []

  unfoldable pub evaluate_market_readiness : MarketReadinessInput F → MarketReadinessDecision
  evaluate_market_readiness input =
      let blocked_reasons = sort_dedup (flatten (pushed input)) in
      record { status = status_of (is_empty blocked_reasons); blocked_reasons = blocked_reasons }
