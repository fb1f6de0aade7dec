-- ===== src/Automation/Runner/Freshness.antt =====
-- src/automation/mod.rs: how the runner feeds the market readiness and the session into the policy
-- proof. `parse_time` stands for `NaiveTime::parse_from_str` (a text and its format), and `time_of`
-- for the time of day of an instant, both of chrono.
use stocks.Base.{
  ◌≡◌, ◌≢◌, sym, ◌∙◌, ap, String, Option, none, some, Bool, true, false, ◌||◌, List, [], ◌∷◌, ◌++◌,
  ℕ, if◌then◌else◌, str_eq, unwrap_or, is_empty,
}
use stocks.Base.Int.{ℤ, pos, max_ℤ, ltb_ℤ}
use stocks.Float.{F64, nought}
use stocks.Time.{DateTime, days, since}
use stocks.Automation.MarketReadiness.{
  HaltState, NoTradeWindow, MarketReadinessInput, evaluate_market_readiness, status_of,
}
use stocks.Automation.MarketReadiness.Fit.{IsFit, evaluate_market_readiness-ready_iff}
use stocks.Automation.Policy.{evaluate_proof_policy}
use stocks.Automation.Policy.Types.{DataFreshnessPolicyState, SessionPolicyState, ProofPolicyInput}
use stocks.Automation.Policy.Clear.{evaluate_proof_policy-IsClear_iff}
use stocks.Automation.Runner.Session.{session_policy_state, session_policy_state-IsOpenAt, IsOpenAt}
use stocks.MarketCalendar.{NaiveDates}
use stocks.Automation.Strategy.{config_i64, config_f64, and_then}
use stocks.Automation.Strategy.Types.{
  SerdeJson, SerdeFloat, TechnicalFeature, StrategyEvaluationInput,
}

-- `Value::as_bool`.
pub record SerdeBool (V : Type 0) : Type 0 where
  pub as_bool : V → Option Bool

abbrev pub halt_of : Option String → Bool → HaltState
halt_of none halted = if halted then HaltState.halted else HaltState.not_halted
halt_of (some word) halted =
    if str_eq word "halted" || str_eq word "suspended"
    then HaltState.halted
    else if str_eq word "unknown"
    then HaltState.unknown
    else if halted
    then HaltState.halted
    else HaltState.not_halted

module _ {V : Type 0} ⦃j : SerdeJson V⦄ ⦃b : SerdeBool V⦄ where
  unfoldable pub config_bool : V → String → Bool → Bool
  config_bool config key default = unwrap_or (and_then (j.get config key) b.as_bool) default

  unfoldable pub halt_state_from_config : V → HaltState
  unfolding config_bool
  halt_state_from_config config =
      halt_of (and_then (j.get config "halt_state") j.as_str) (config_bool config "halted" false)

abbrev pub or_else : Option ℕ → Option ℕ → Option ℕ
or_else none other = other
or_else (some n) other = some n

unfoldable pub parse_utc_time : (String → String → Option ℕ) → String → Option ℕ
parse_utc_time parse_time value = or_else (parse_time value "%H:%M:%S") (parse_time value "%H:%M")

abbrev pub window_of : String → Option ℕ → Option ℕ → List NoTradeWindow
window_of label (some start) (some end) =
    record { label = label; start_utc = start; end_utc = end } ∷ []
window_of label (some start) none = []
window_of label none end = []

module _ {V : Type 0} ⦃j : SerdeJson V⦄ (parse_time : String → String → Option ℕ) where
  abbrev pub time_at : V → String → Option ℕ
  time_at item key = and_then (and_then (j.get item key) j.as_str) (parse_utc_time parse_time)

  pub windows_of : List V → List NoTradeWindow
  windows_of [] = []
  windows_of (item ∷ items) =
      window_of (unwrap_or (and_then (j.get item "label") j.as_str) "configured")
        (time_at item "start_utc") (time_at item "end_utc")
      ++ windows_of items

  unfoldable pub no_trade_windows_utc : V → List NoTradeWindow
  unfolding windows_of
  no_trade_windows_utc config =
      windows_of (unwrap_or (and_then (j.get config "no_trade_windows_utc") j.as_array) [])

module _ {F : Type 0} where
  abbrev pub bar_at : Option (TechnicalFeature F) → Option DateTime
  bar_at none = none
  bar_at (some t) = some t.as_of

  abbrev pub close_at : Option (TechnicalFeature F) → Option F
  close_at none = none
  close_at (some t) = t.close

  abbrev pub previous_close_at : Option (TechnicalFeature F) → Option F
  previous_close_at none = none
  previous_close_at (some t) = t.previous_close

  abbrev pub freshness_label : Option (TechnicalFeature F) → Bool → String
  freshness_label none stale = "missing"
  freshness_label (some t) stale = if stale then "stale" else "fresh"

module _ {V : Type 0} ⦃j : SerdeJson V⦄ where
  abbrev pub age_limit : V → ℤ
  age_limit config = max_ℤ (config_i64 config "max_bar_age_days" (pos 5)) (pos 1)

abbrev pub is_stale : DateTime → ℤ → Option DateTime → Bool
is_stale now limit none = true
is_stale now limit (some latest) = ltb_ℤ (days limit) (since now latest)

module _ {V F : Type 0} ⦃d : F64 F⦄ ⦃j : SerdeJson V⦄ ⦃f : SerdeFloat V F⦄ ⦃b : SerdeBool V⦄
    (parse_time : String → String → Option ℕ) (time_of : DateTime → ℕ) where
  unfoldable pub readiness_input :
      StrategyEvaluationInput V F → SessionPolicyState → MarketReadinessInput F
  unfolding halt_state_from_config no_trade_windows_utc config_bool
  readiness_input input session = record {
    now = input.now;
    now_time = time_of input.now;
    latest_bar_at = bar_at input.features.technical;
    latest_price = close_at input.features.technical;
    previous_close = previous_close_at input.features.technical;
    max_age_days = age_limit input.config;
    max_gap_pct = d.max (config_f64 input.config "max_bar_gap_pct" (d.lit 20 0)) nought;
    session_open = session.is_open;
    session_label = session.label;
    halt_state = halt_state_from_config input.config;
    corporate_actions_adjusted = config_bool input.config "corporate_actions_adjusted" true;
    no_trade_windows_utc = no_trade_windows_utc parse_time input.config;
  }

  unfoldable pub data_freshness_policy_state :
      StrategyEvaluationInput V F → SessionPolicyState → DataFreshnessPolicyState
  unfolding readiness_input
  data_freshness_policy_state input session =
      let technical = input.features.technical in
      let stale = is_stale input.now (age_limit input.config) (bar_at technical) in
      let readiness = evaluate_market_readiness (readiness_input input session) in
      record {
        status = freshness_label technical stale;
        latest_bar_at = bar_at technical;
        max_age_days = age_limit input.config;
        stale = stale;
        market_readiness_status = readiness.status;
        market_readiness_blocked_reasons = readiness.blocked_reasons;
      }

module _ {F : Type 0} ⦃d : F64 F⦄ where
  ready_of_no_reasons :
      (input : MarketReadinessInput F)
      → (evaluate_market_readiness input).blocked_reasons ≡ []
      → (evaluate_market_readiness input).status ≡ "ready"
  unfolding evaluate_market_readiness
  ready_of_no_reasons input h = ap (λ rs. status_of (is_empty rs)) h

module _ {V F : Type 0} ⦃d : F64 F⦄ ⦃j : SerdeJson V⦄ ⦃f : SerdeFloat V F⦄ ⦃b : SerdeBool V⦄
    (parse_time : String → String → Option ℕ) (time_of : DateTime → ℕ) where
  -- For every policy input whose session is the one of the calendar at the instant of a strategy
  -- input, and whose data freshness is the one that the runner assembles from that input and session:
  -- if the proof is not "blocked", the instant lies in the regular hours of a session day, and the
  -- market data of the input is fit. It has a positive price, a bar that is not older than the
  -- configured limit, no gap above the configured one, no halt, adjusted corporate actions, and a
  -- time outside every configured no-trade window.
  pub evaluate_proof_policy-IsFit :
      (chrono : NaiveDates) (day_of second_of : DateTime → ℕ) (proof : ProofPolicyInput F)
      (input : StrategyEvaluationInput V F)
      → session_policy_state chrono (day_of input.now) (second_of input.now) ≡ some proof.session
      → proof.data_freshness ≡ data_freshness_policy_state parse_time time_of input proof.session
      → (evaluate_proof_policy proof).result ≢ "blocked"
      → IsOpenAt chrono (day_of input.now) (second_of input.now)
        × IsFit (readiness_input parse_time time_of input proof.session)
  unfolding data_freshness_policy_state readiness_input
  evaluate_proof_policy-IsFit chrono day_of second_of proof input s e h =
      let clear = (evaluate_proof_policy-IsClear_iff proof).0 h in
      let quiet =
        sym (ap (λ (s : DataFreshnessPolicyState). s.market_readiness_blocked_reasons) e)
        ∙ clear.market_ready in
      let readiness = readiness_input parse_time time_of input proof.session in
      (
        session_policy_state-IsOpenAt chrono (day_of input.now) (second_of input.now) proof.session
            s clear.session_open,
        (evaluate_market_readiness-ready_iff readiness).0 (ready_of_no_reasons readiness quiet),
      )
