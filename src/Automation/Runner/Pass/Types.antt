-- ===== src/Automation/Runner/Pass/Types.antt =====
-- The records of a pass of src/automation/mod.rs. What a step reads from the store is one record, and
-- so is what the crate `chrono` computes for it. The ids that the store hands back, the snapshots and
-- `target_notional_usd`, which is read out of one, are left out, and so are the errors of the store.
use stocks.Base.{ℕ, Bool, List, Option, String}
use stocks.Time.{DateTime}
use stocks.MarketCalendar.{NaiveDates}
use stocks.Automation.Policy.Types.{
  TargetSide, StrategyDefinitionInput, TradePermissionInput, ValidationPlan, AutomationControlState,
  SleevePolicyState, BrokerPolicyState, ProofPolicyDecision,
}
use stocks.Automation.Strategy.Types.{LatestDesiredPosition, StrategyFeatures}
use stocks.Automation.Runner.{StoreReads}

-- The calendar, `NaiveTime::parse_from_str`, and the time of day, the day and the second of the day
-- of an instant.
pub record Chrono : Type 0 where
  pub dates : NaiveDates
  pub parse_time : String → String → Option ℕ
  pub time_of : DateTime → ℕ
  pub day_of : DateTime → ℕ
  pub second_of : DateTime → ℕ

-- `config` is the field of that name of the definition.
pub record AutomationStrategyCandidate (V F : Type 0) : Type 0 where
  pub definition : StrategyDefinitionInput
  pub config : V
  pub permission : TradePermissionInput F
  pub latest_desired : Option (LatestDesiredPosition F)

-- The answer of `simulate_desired_reconciliation`.
pub record Reconciliation : Type 0 where
  pub duplicate : Bool
  pub incident : Bool

pub record CandidateReads (F : Type 0) : Type 0 where
  pub features : StrategyFeatures F
  pub now : DateTime
  pub control : AutomationControlState
  pub portfolio : StoreReads F
  pub sleeve : SleevePolicyState F
  pub broker : BrokerPolicyState
  pub reconciliation : Reconciliation

pub record DesiredPositionWrite (F : Type 0) : Type 0 where
  pub permission_id : ℕ
  pub symbol : String
  pub strategy_id : String
  pub strategy_version : String
  pub strategy_config_hash : String
  pub environment_scope : String
  pub target_side : TargetSide
  pub target_weight_pct : Option F
  pub rationale : String
  pub reason_codes : List String
  pub validation : ValidationPlan
  pub prior_target_side : Option TargetSide
  pub proof : ProofPolicyDecision

pub record BlockedProofWrite : Type 0 where
  pub permission_id : ℕ
  pub symbol : String
  pub strategy_id : String
  pub strategy_version : String
  pub strategy_config_hash : String
  pub environment_scope : String
  pub proof : ProofPolicyDecision

-- What a candidate leads to; `failed` is the error or the panic that ends the pass.
pub data Outcome (F : Type 0) : Type 0 where
  refused : BlockedProofWrite → Outcome F
  emitted : DesiredPositionWrite F → Outcome F
  unchanged blocked failed : Outcome F

pub record AutomationRunSummary : Type 0 where
  pub evaluated : ℕ
  pub emitted : ℕ
  pub reconciled : ℕ
  pub reconciliation_incidents : ℕ
  pub duplicate_reconciliations : ℕ
  pub unchanged : ℕ
  pub blocked : ℕ
  pub no_features : ℕ
