-- ===== src/Automation/Readiness/Types.antt =====
-- The records of src/automation/readiness.rs.
use stocks.Base.{Bool, Option, List, String}
use stocks.Base.Int.{ℤ}
use stocks.Time.{DateTime}
use stocks.Automation.Stage.{AutomationStage}

pub data ReadinessStatus : Type 0 where
  ready blocked : ReadinessStatus

pub record ReadinessMetrics (F : Type 0) : Type 0 where
  pub observations_total : ℤ
  pub outcomes_scored : ℤ
  pub directional_outcomes_scored : ℤ
  pub signal_quality_rate : Option F
  pub mean_forward_return_pct : Option F
  pub mean_max_drawdown_pct : Option F
  pub churn_rate : Option F
  pub proof_pass_rate : Option F
  pub incident_rate : Option F
  pub open_critical_incidents : ℤ
  pub paper_orders_total : ℤ
  pub paper_fill_quality_rate : Option F
  pub mean_slippage_bps : Option F
  pub baseline_excess_return_pct : Option F

pub record ReadinessThresholds (F : Type 0) : Type 0 where
  pub min_directional_outcomes : ℤ
  pub min_signal_quality_rate : F
  pub min_mean_forward_return_pct : F
  pub max_mean_drawdown_pct : F
  pub max_churn_rate : F
  pub min_proof_pass_rate : F
  pub max_incident_rate : F
  pub min_paper_orders_for_live : ℤ
  pub min_paper_fill_quality_rate : F
  pub max_mean_slippage_bps : F
  pub min_baseline_excess_return_pct : F

pub record PromotionApproval : Type 0 where
  pub from_stage : AutomationStage
  pub to_stage : AutomationStage
  pub status : String
  pub approved_at : DateTime
  pub expires_at : Option DateTime

pub record ReadinessInput (F : Type 0) : Type 0 where
  pub current_stage : AutomationStage
  pub metrics : ReadinessMetrics F
  pub approval : Option PromotionApproval
  pub thresholds : ReadinessThresholds F
  pub now : DateTime

pub record ReadinessDecision (F : Type 0) : Type 0 where
  pub current_stage : AutomationStage
  pub target_stage : Option AutomationStage
  pub status : ReadinessStatus
  pub readiness_score : F
  pub blockers : List String
  pub warnings : List String
  pub approval_required : Bool
  pub approval_valid : Bool
  pub freeze_live_permissions : Bool
