-- ===== src/Automation/Policy.antt =====
-- src/automation/policy.rs: the policy proof of one desired position, with the inputs that
-- src/automation/mod.rs declares for it. The JSON values, which are only copied into the snapshots
-- of the decision, are left out.
pub mod Types
pub mod Clear
mod Tests
use Prim.Native.String.{◌++◌ as append}
use stocks.Base.{
  ℕ, Bool, true, false, not, ◌&&◌, ◌||◌, List, [], ◌∷◌, map, Option, none, some, String, str_eq,
  if◌then◌else◌, flatten, is_empty,
}
use stocks.Base.Int.{ℤ, leb_ℤ}
use stocks.Base.Text.{is_blank}
use stocks.Float.{F64, micro}
use stocks.Time.{DateTime}
use stocks.Reasons.{when, sort_dedup}
use stocks.Automation.Stage.{AutomationStage, try_from, is_runnable, allows_environment_scope}
use stocks.Automation.Policy.Types.{
  TargetSide, StrategyDecisionKind, ValidationPlan, StrategyDecision, StrategyDefinitionInput,
  TradePermissionInput, AutomationControlState, DataFreshnessPolicyState, SessionPolicyState,
  RiskPolicyState, CapitalPolicyState, SleevePolicyState, BrokerPolicyState, ProofPolicyInput,
  ProofPolicyDecision, flat, long, short, emit_desired, no_change, blocked,
}

abbrev pub is_blocked_kind : StrategyDecisionKind → Bool
is_blocked_kind StrategyDecisionKind.blocked = true
is_blocked_kind _ = false

-- `is_some_and(|expires_at| expires_at <= now)`.
unfoldable pub has_expired : Option DateTime → DateTime → Bool
has_expired none now = false
has_expired (some expires_at) now = leb_ℤ expires_at now

-- The match on the stage that the definition's status names.
unfoldable pub stage_blockers : Option AutomationStage → String → List String
stage_blockers none scope = "strategy_stage_unknown" ∷ []
stage_blockers (some stage) scope =
    if not (is_runnable stage)
    then "strategy_stage_not_runnable" ∷ []
    else when (not (allows_environment_scope stage scope)) "environment_exceeds_strategy_stage"

unfoldable pub sleeve_blockers : String → List String
sleeve_blockers status =
    if str_eq status "frozen"
    then "sleeve_frozen" ∷ []
    else when (str_eq status "closed") "sleeve_closed"

abbrev pub risk_reason : String → String
risk_reason reason = append "risk_" reason

abbrev pub result_of : Bool → Bool → String
result_of is_clear is_quiet =
    if is_clear then (if is_quiet then "passed" else "warning") else "blocked"

module _ {F : Type 0} ⦃d : F64 F⦄ where
  abbrev pub permission_pushed :
      StrategyDefinitionInput → TradePermissionInput F → DateTime → List (List String)
  permission_pushed definition permission now =
      when (not (str_eq permission.status "approved")) "permission_not_approved"
      ∷ stage_blockers (try_from definition.status) permission.environment_scope
      ∷ when permission.manual_freeze "permission_frozen"
      ∷ when (has_expired permission.expires_at now) "permission_expired"
      ∷ when
          (not (str_eq permission.strategy_id definition.strategy_id)
            || not (str_eq permission.strategy_version definition.strategy_version))
          "permission_strategy_mismatch"
      ∷ []

  unfoldable pub permission_blockers :
      StrategyDefinitionInput → Option (TradePermissionInput F) → DateTime → List String
  permission_blockers definition none now = "permission_missing" ∷ []
  permission_blockers definition (some permission) now =
      flatten (permission_pushed definition permission now)

  unfoldable pub over_cap : Option F → Option F → Bool
  over_cap (some target) (some limit) = d.lt (d.add limit micro) target
  over_cap _ _ = false

  -- All that is pushed to `blocked_reasons`, step by step.
  abbrev pub pushed : ProofPolicyInput F → List (List String)
  pushed input =
      when input.control.kill_switch_enabled "automation_kill_switch"
      ∷ permission_blockers input.definition input.permission input.now
      ∷ when (is_blank input.definition.config_hash) "strategy_config_hash_missing"
      ∷ (if is_blocked_kind input.decision.kind then input.decision.blocked_reasons else [])
      ∷ when (input.data_freshness.stale || str_eq input.data_freshness.status "stale")
          "data_freshness_stale"
      ∷ when (str_eq input.data_freshness.status "missing") "data_freshness_missing"
      ∷ input.data_freshness.market_readiness_blocked_reasons
      ∷ when (not input.session.is_open) "session_closed"
      ∷ (if input.risk.veto then map risk_reason input.risk.reasons else [])
      ∷ when (over_cap input.capital.target_weight_pct input.capital.max_allocation_pct)
          "allocation_exceeds_permission_cap"
      ∷ when (over_cap input.capital.target_notional_usd input.capital.max_notional_usd)
          "allocation_exceeds_notional_cap"
      ∷ input.capital.allocator_blocked_reasons
      ∷ sleeve_blockers input.sleeve.status
      ∷ when (input.broker.mismatch || str_eq input.broker.status "mismatch")
          "broker_state_mismatch"
      ∷ []

  unfoldable pub evaluate_proof_policy : ProofPolicyInput F → ProofPolicyDecision
  evaluate_proof_policy input =
      let blocked_reasons = sort_dedup (flatten (pushed input)) in
      record {
        result = result_of (is_empty blocked_reasons) (is_empty input.risk.warnings);
        blocked_reasons = blocked_reasons;
      }
