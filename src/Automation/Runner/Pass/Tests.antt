-- ===== src/Automation/Runner/Pass/Tests.antt =====
-- A pass over one candidate, which is emitted on Thursday 2 July 2026 at 15:00 UTC.
use stocks.MarketCalendar.{
  holiday_dates, good_friday, observed_fixed, nth_weekday, last_weekday, is_nyse_holiday,
  is_us_equity_session, expected_latest_us_equity_session,
}
use stocks.Reasons.{sort, dedup, sort_dedup}
use stocks.Risk.{
  veto_when, warn_when, derive_portfolio, single_name_exceeded, premium_exceeded, below_cash_floor,
  scale_by, brake, brakes, cluster_exceeded, too_many_positions, evaluate,
}
use stocks.Automation.Stage.{
  rank, is_runnable, environment_rank, allows_environment_scope, try_from,
}
use stocks.Automation.Allocator.{
  same_sleeve, sleeve_notional, cap_usd, cap_exceeded, own, symbol_total, portfolio_total,
  status_blockers, evaluate_allocation,
}
use stocks.Automation.MarketReadiness.{
  window_contains, bar_blockers, positive, gap_pct, gap_exceeds, evaluate_market_readiness,
}
use stocks.Automation.Policy.{
  has_expired, stage_blockers, sleeve_blockers, permission_blockers, over_cap,
  evaluate_proof_policy,
}
use stocks.Automation.Runner.Session.{is_us_eastern_dst, session_policy_state}
use stocks.Automation.Runner.{
  portfolio_of, target_notional_usd, allocation, intent_of, risk_state, risk_policy_state,
  capital_policy_state, risk_and_capital_policy_state,
}
use stocks.Automation.Strategy.{
  is_bullish_direction, churns, config_i64, stance_list_contains, long_target, option_f64_close,
  latest_matches_target, config_f64, technical_blockers, common_blocked_reasons, technical_target,
  timed_target, thesis_target, target_intent, target_weight, validation_plan, blocked_decision,
  decide, evaluate_strategy,
}
use stocks.Base.{◌≡◌, refl, ap, false, true, List, [], ◌∷◌, none, some}
use stocks.Base.Lists.{length}
use stocks.Base.Int.{pos, ◌-ℤ◌, ◌+ℤ◌, abs}
use stocks.Base.Text.{is_blank}
use stocks.Float.Micros.{Micros, micros_f64}
use stocks.MarketCalendar.Tests.{gregorian, days_before_month, gregorian_day, years_begun}
use stocks.Automation.Policy.Types.{long, TargetSide, SessionPolicyState}
use stocks.Automation.Strategy.Tests.{
  Setting, settings, setting_json, setting_float, permission, chart, definition_in,
}
use stocks.Automation.Strategy.Types.{TechnicalFeature}
use stocks.Automation.Runner.Tests.{reads}
use stocks.Automation.Runner.Freshness.{
  SerdeBool, config_bool, halt_state_from_config, parse_utc_time, no_trade_windows_utc,
  readiness_input, data_freshness_policy_state,
}
use stocks.Automation.Runner.Pass.Types.{
  Chrono, AutomationStrategyCandidate, CandidateReads, DesiredPositionWrite, AutomationRunSummary,
  emitted,
}
use stocks.Automation.Runner.Pass.{
  empty, counted, begun, run_from, run_candidate, run_once, blocked_proof_write, outcome,
  proof_policy_input, run_from,
}
use stocks.Automation.Runner.Pass.Counts.{IsBalanced, run_once-IsBalanced}
use stocks.Automation.Runner.Pass.Safe.{IsCheckedIn, run_candidate-IsCheckedIn}

instance abbrev setting_bool : SerdeBool Setting
setting_bool = record { as_bool = λ v. none }

-- All instants of the example lie on that afternoon.
abbrev chrono : Chrono
chrono = record {
  dates = gregorian;
  parse_time = λ text format. none;
  time_of = λ now. 54_000;
  day_of = λ now. 739_799;
  second_of = λ now. 54_000;
}

abbrev candidate : AutomationStrategyCandidate Setting Micros
candidate = record {
  definition = definition_in "shadow";
  config = settings;
  permission = permission;
  latest_desired = none;
}

abbrev quoted : TechnicalFeature Micros
quoted = record chart { close = some (pos 101_000_000); previous_close = some (pos 100_000_000) }

abbrev candidate_reads : CandidateReads Micros
candidate_reads = record {
  features = record { symbol = "MU"; technical = some quoted; thesis = none };
  now = pos 1_000;
  control = record { kill_switch_enabled = false; kill_switch_reason = none };
  portfolio = reads;
  sleeve = record {
    status = "active";
    current_side = TargetSide.flat;
    allocated_notional_usd = none;
  };
  broker = record { status = "ok"; mismatch = false; latest_sync_at = none };
  reconciliation = record { duplicate = false; incident = false };
}

abbrev written : DesiredPositionWrite Micros
written = record {
  permission_id = 7;
  symbol = "MU";
  strategy_id = "technical_timing";
  strategy_version = "0.1.0";
  strategy_config_hash = "a1b2";
  environment_scope = "shadow";
  target_side = long;
  target_weight_pct = some (pos 1_000_000);
  rationale = "uptrend technical state with constructive entry stance.";
  reason_codes = "technical_long_constructive" ∷ [];
  validation = record {
    forward_only = true;
    horizon_days = pos 20;
    evaluation_due_at = pos 1_728_000_000_001_000;
    churn_event = false;
  };
  prior_target_side = none;
  proof = record { result = "warning"; blocked_reasons = [] };
}

emits : run_candidate chrono candidate candidate_reads ≡ emitted written
unfolding is_bullish_direction churns config_i64 stance_list_contains long_target option_f64_close
    latest_matches_target config_f64 technical_blockers common_blocked_reasons technical_target
    timed_target thesis_target target_intent target_weight validation_plan blocked_decision decide
    evaluate_strategy portfolio_of target_notional_usd allocation intent_of risk_state
    risk_policy_state capital_policy_state risk_and_capital_policy_state is_us_eastern_dst
    session_policy_state config_bool halt_state_from_config parse_utc_time no_trade_windows_utc
    readiness_input data_freshness_policy_state has_expired stage_blockers sleeve_blockers
    permission_blockers over_cap evaluate_proof_policy window_contains bar_blockers positive gap_pct
    gap_exceeds evaluate_market_readiness same_sleeve sleeve_notional cap_usd cap_exceeded own
    symbol_total portfolio_total status_blockers evaluate_allocation rank is_runnable
    environment_rank allows_environment_scope try_from veto_when warn_when derive_portfolio
    single_name_exceeded premium_exceeded below_cash_floor scale_by brake brakes cluster_exceeded
    too_many_positions evaluate sort dedup sort_dedup good_friday observed_fixed nth_weekday
    last_weekday is_nyse_holiday is_us_equity_session expected_latest_us_equity_session
    days_before_month gregorian_day years_begun blocked_proof_write outcome proof_policy_input
    run_candidate ◌-ℤ◌ holiday_dates is_blank abs ◌+ℤ◌
emits = refl

abbrev one_emitted : AutomationRunSummary
one_emitted = record {
  evaluated = 1;
  emitted = 1;
  reconciled = 1;
  reconciliation_incidents = 0;
  duplicate_reconciliations = 0;
  unchanged = 0;
  blocked = 0;
  no_features = 0;
}

abbrev candidates : List (AutomationStrategyCandidate Setting Micros × CandidateReads Micros)
candidates = (candidate, candidate_reads) ∷ []

one_step : run_once chrono candidates ≡ some one_emitted
unfolding run_once run_from
one_step =
    ap
      (λ o.
        run_from {V = Setting} {F = Micros} chrono []
          (counted candidate_reads.reconciliation o (begun candidate_reads.features empty)))
      emits

run_candidate-IsCheckedIn_example :
    (session : SessionPolicyState) × IsCheckedIn chrono candidate candidate_reads session
run_candidate-IsCheckedIn_example =
    run_candidate-IsCheckedIn chrono candidate candidate_reads written emits

run_once-IsBalanced_example : IsBalanced (length candidates) one_emitted
run_once-IsBalanced_example = run_once-IsBalanced chrono candidates one_emitted one_step
