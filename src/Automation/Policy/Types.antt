-- ===== src/Automation/Policy/Types.antt =====
-- The records of src/automation/policy.rs, and those of src/automation/mod.rs that they hold. The JSON
-- values, which are only copied into the snapshots of the decision, are left out.
use stocks.Base.{ℕ, Bool, Option, List, String}
use stocks.Base.Int.{ℤ}
use stocks.Time.{DateTime}

pub data TargetSide : Type 0 where
  flat long short : TargetSide

pub data StrategyDecisionKind : Type 0 where
  emit_desired no_change blocked : StrategyDecisionKind

pub record ValidationPlan : Type 0 where
  pub forward_only : Bool
  pub horizon_days : ℤ
  pub evaluation_due_at : DateTime
  pub churn_event : Bool

pub record StrategyDecision (F : Type 0) : Type 0 where
  pub kind : StrategyDecisionKind
  pub target_side : Option TargetSide
  pub target_weight_pct : Option F
  pub rationale : String
  pub reason_codes : List String
  pub blocked_reasons : List String
  pub validation : ValidationPlan

pub record StrategyDefinitionInput : Type 0 where
  pub strategy_id : String
  pub strategy_version : String
  pub family : String
  pub display_name : String
  pub status : String
  pub config_hash : String

pub record TradePermissionInput (F : Type 0) : Type 0 where
  pub permission_id : ℕ
  pub symbol : String
  pub strategy_id : String
  pub strategy_version : String
  pub status : String
  pub instrument_scope : String
  pub environment_scope : String
  pub manual_freeze : Bool
  pub expires_at : Option DateTime
  pub max_allocation_pct : Option F
  pub max_notional_usd : Option F
  pub max_quantity : Option F

pub record AutomationControlState : Type 0 where
  pub kill_switch_enabled : Bool
  pub kill_switch_reason : Option String

pub record DataFreshnessPolicyState : Type 0 where
  pub status : String
  pub latest_bar_at : Option DateTime
  pub max_age_days : ℤ
  pub stale : Bool
  pub market_readiness_status : String
  pub market_readiness_blocked_reasons : List String

pub record SessionPolicyState : Type 0 where
  pub is_open : Bool
  pub label : String
  pub reason : Option String

pub record RiskPolicyState (F : Type 0) : Type 0 where
  pub veto : Bool
  pub reasons : List String
  pub warnings : List String
  pub size_mult : F

pub record CapitalPolicyState (F : Type 0) : Type 0 where
  pub target_weight_pct : Option F
  pub max_allocation_pct : Option F
  pub target_notional_usd : Option F
  pub max_notional_usd : Option F
  pub allocator_blocked_reasons : List String

pub record SleevePolicyState (F : Type 0) : Type 0 where
  pub status : String
  pub current_side : TargetSide
  pub allocated_notional_usd : Option F

pub record BrokerPolicyState : Type 0 where
  pub status : String
  pub mismatch : Bool
  pub latest_sync_at : Option DateTime

pub record ProofPolicyInput (F : Type 0) : Type 0 where
  pub definition : StrategyDefinitionInput
  pub permission : Option (TradePermissionInput F)
  pub decision : StrategyDecision F
  pub control : AutomationControlState
  pub data_freshness : DataFreshnessPolicyState
  pub session : SessionPolicyState
  pub risk : RiskPolicyState F
  pub capital : CapitalPolicyState F
  pub sleeve : SleevePolicyState F
  pub broker : BrokerPolicyState
  pub now : DateTime

pub record ProofPolicyDecision : Type 0 where
  pub result : String
  pub blocked_reasons : List String
