-- ===== src/Automation/Runner/Pass.antt =====
-- src/automation/mod.rs: one pass of the strategy runner over its candidates.
pub mod Types
pub mod Counts
pub mod Safe
mod Tests
use stocks.Base.{
  ℕ, ◌+◌, Bool, true, false, List, [], ◌∷◌, Option, none, some, String, if◌then◌else◌, str_eq, suc,
}
use stocks.Float.{F64}
use stocks.Time.{DateTime}
use stocks.MarketCalendar.{NaiveDates}
use stocks.Automation.Policy.{evaluate_proof_policy}
use stocks.Automation.Policy.Types.{
  TargetSide, StrategyDecisionKind, StrategyDefinitionInput, TradePermissionInput, StrategyDecision,
  ValidationPlan, AutomationControlState, SleevePolicyState, BrokerPolicyState, SessionPolicyState,
  ProofPolicyInput, ProofPolicyDecision,
}
use stocks.Automation.Strategy.{evaluate_strategy}
use stocks.Automation.Strategy.Types.{
  SerdeJson, SerdeFloat, LatestDesiredPosition, StrategyFeatures, StrategyEvaluationInput,
  TechnicalFeature,
}
use stocks.Automation.Runner.{StoreReads, risk_and_capital_policy_state}
use stocks.Automation.Runner.Pass.Types.{
  Chrono, AutomationStrategyCandidate, CandidateReads, Reconciliation, DesiredPositionWrite,
  BlockedProofWrite, Outcome, refused, emitted, unchanged, blocked, failed, AutomationRunSummary,
}
use stocks.Automation.Runner.Session.{session_policy_state}
use stocks.Automation.Runner.Freshness.{SerdeBool, data_freshness_policy_state}

module _ {F : Type 0} where
  abbrev pub side_of : Option (LatestDesiredPosition F) → Option TargetSide
  side_of none = none
  side_of (some desired) = some desired.target_side

  abbrev pub emission : Option (DesiredPositionWrite F) → Outcome F
  emission none = failed
  emission (some write) = emitted write

module _ {V F : Type 0} where
  unfoldable pub blocked_proof_write :
      AutomationStrategyCandidate V F → ProofPolicyDecision → BlockedProofWrite
  blocked_proof_write candidate proof = record {
    permission_id = candidate.permission.permission_id;
    symbol = candidate.permission.symbol;
    strategy_id = candidate.definition.strategy_id;
    strategy_version = candidate.definition.strategy_version;
    strategy_config_hash = candidate.definition.config_hash;
    environment_scope = candidate.permission.environment_scope;
    proof = proof;
  }

  abbrev pub write_of :
      AutomationStrategyCandidate V F
      → StrategyDecision F
      → ProofPolicyDecision
      → TargetSide
      → DesiredPositionWrite F
  write_of candidate decision proof side = record {
    permission_id = candidate.permission.permission_id;
    symbol = candidate.permission.symbol;
    strategy_id = candidate.definition.strategy_id;
    strategy_version = candidate.definition.strategy_version;
    strategy_config_hash = candidate.definition.config_hash;
    environment_scope = candidate.permission.environment_scope;
    target_side = side;
    target_weight_pct = decision.target_weight_pct;
    rationale = decision.rationale;
    reason_codes = decision.reason_codes;
    validation = decision.validation;
    prior_target_side = side_of candidate.latest_desired;
    proof = proof;
  }

  -- `desired_write`, where none is its error.
  abbrev pub desired_write :
      AutomationStrategyCandidate V F
      → StrategyDecision F
      → ProofPolicyDecision
      → Option TargetSide
      → Option (DesiredPositionWrite F)
  desired_write candidate decision proof none = none
  desired_write candidate decision proof (some side) = some (write_of candidate decision proof side)

  abbrev pub outcome_of_kind :
      AutomationStrategyCandidate V F
      → StrategyDecision F
      → ProofPolicyDecision
      → StrategyDecisionKind
      → Outcome F
  outcome_of_kind candidate decision proof StrategyDecisionKind.emit_desired =
      emission (desired_write candidate decision proof decision.target_side)
  outcome_of_kind candidate decision proof StrategyDecisionKind.no_change = unchanged
  outcome_of_kind candidate decision proof StrategyDecisionKind.blocked = blocked

  unfoldable pub outcome :
      AutomationStrategyCandidate V F → StrategyDecision F → ProofPolicyDecision → Outcome F
  unfolding blocked_proof_write
  outcome candidate decision proof =
      if str_eq proof.result "blocked"
      then refused (blocked_proof_write candidate proof)
      else outcome_of_kind candidate decision proof decision.kind

  abbrev pub evaluation_input :
      AutomationStrategyCandidate V F → CandidateReads F → StrategyEvaluationInput V F
  evaluation_input candidate reads = record {
    definition = candidate.definition;
    config = candidate.config;
    permission = some candidate.permission;
    latest_desired = candidate.latest_desired;
    features = reads.features;
    now = reads.now;
  }

module _ {V F : Type 0} ⦃d : F64 F⦄ where
  abbrev pub proved :
      AutomationStrategyCandidate V F → StrategyDecision F → Option (ProofPolicyInput F) → Outcome F
  proved candidate decision none = failed
  proved candidate decision (some proof_input) =
      outcome candidate decision (evaluate_proof_policy proof_input)

module _ {V F : Type 0} ⦃d : F64 F⦄ ⦃j : SerdeJson V⦄ ⦃f : SerdeFloat V F⦄ ⦃b : SerdeBool V⦄
    (chrono : Chrono) where
  abbrev pub proof_input_of :
      AutomationStrategyCandidate V F
      → CandidateReads F
      → StrategyEvaluationInput V F
      → StrategyDecision F
      → SessionPolicyState
      → ProofPolicyInput F
  proof_input_of candidate reads input decision session = record {
    definition = candidate.definition;
    permission = some candidate.permission;
    decision = decision;
    control = reads.control;
    data_freshness = data_freshness_policy_state chrono.parse_time chrono.time_of input session;
    session = session;
    risk = (risk_and_capital_policy_state reads.portfolio candidate.permission decision).0;
    capital = (risk_and_capital_policy_state reads.portfolio candidate.permission decision).1;
    sleeve = reads.sleeve;
    broker = reads.broker;
    now = reads.now;
  }

  abbrev pub proof_input_in :
      AutomationStrategyCandidate V F
      → CandidateReads F
      → StrategyEvaluationInput V F
      → StrategyDecision F
      → Option SessionPolicyState
      → Option (ProofPolicyInput F)
  proof_input_in candidate reads input decision none = none
  proof_input_in candidate reads input decision (some session) =
      some (proof_input_of candidate reads input decision session)

  -- none where the calendar panics.
  unfoldable pub proof_policy_input :
      AutomationStrategyCandidate V F
      → CandidateReads F
      → StrategyEvaluationInput V F
      → StrategyDecision F
      → Option (ProofPolicyInput F)
  proof_policy_input candidate reads input decision =
      proof_input_in candidate reads input decision
        (session_policy_state chrono.dates (chrono.day_of reads.now) (chrono.second_of reads.now))

  -- The body of the loop of `run_once`.
  unfoldable pub run_candidate : AutomationStrategyCandidate V F → CandidateReads F → Outcome F
  unfolding outcome proof_policy_input
  run_candidate candidate reads =
      let input = evaluation_input candidate reads in
      let decision = evaluate_strategy input in
      proved candidate decision (proof_policy_input candidate reads input decision)

abbrev pub reconciled_in : Reconciliation → AutomationRunSummary → AutomationRunSummary
reconciled_in reconciliation summary =
    if reconciliation.duplicate
    then record summary { duplicate_reconciliations = suc summary.duplicate_reconciliations }
    else if reconciliation.incident
    then record summary { reconciliation_incidents = suc summary.reconciliation_incidents }
    else record summary { reconciled = suc summary.reconciled }

abbrev pub emitted_in : AutomationRunSummary → AutomationRunSummary
emitted_in summary = record summary { emitted = suc summary.emitted }

module _ {F : Type 0} where
  abbrev pub counted :
      Reconciliation → Outcome F → AutomationRunSummary → Option AutomationRunSummary
  counted reconciliation (refused write) summary =
      some (record summary { blocked = suc summary.blocked })
  counted reconciliation (emitted write) summary =
      some (emitted_in (reconciled_in reconciliation summary))
  counted reconciliation unchanged summary =
      some (record summary { unchanged = suc summary.unchanged })
  counted reconciliation blocked summary = some (record summary { blocked = suc summary.blocked })
  counted reconciliation failed summary = none

  abbrev pub without_features : Option (TechnicalFeature F) → ℕ → ℕ
  without_features none n = suc n
  without_features (some technical) n = n

  abbrev pub begun : StrategyFeatures F → AutomationRunSummary → AutomationRunSummary
  begun features summary = record summary {
    evaluated = suc summary.evaluated;
    no_features = without_features features.technical summary.no_features;
  }

abbrev pub empty : AutomationRunSummary
empty = record {
  evaluated = 0;
  emitted = 0;
  reconciled = 0;
  reconciliation_incidents = 0;
  duplicate_reconciliations = 0;
  unchanged = 0;
  blocked = 0;
  no_features = 0;
}

module _ {V F : Type 0} ⦃d : F64 F⦄ ⦃j : SerdeJson V⦄ ⦃f : SerdeFloat V F⦄ ⦃b : SerdeBool V⦄
    (chrono : Chrono) where
  unfoldable pub run_from :
      List (AutomationStrategyCandidate V F × CandidateReads F)
      → Option AutomationRunSummary
      → Option AutomationRunSummary
  unfolding run_candidate
  run_from candidates none = none
  run_from [] (some summary) = some summary
  run_from ((candidate, reads) ∷ candidates) (some summary) = run_from candidates (
      counted reads.reconciliation (run_candidate chrono candidate reads)
        (begun reads.features summary))

  -- `run_once` over the candidates and what each reads; none where the pass ends in an error.
  unfoldable pub run_once :
      List (AutomationStrategyCandidate V F × CandidateReads F) → Option AutomationRunSummary
  unfolding run_from
  run_once candidates = run_from candidates (some empty)
