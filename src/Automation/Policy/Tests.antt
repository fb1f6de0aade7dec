-- ===== src/Automation/Policy/Tests.antt =====
-- A shadow position with an approved permission: clear, and with a warning of the risk overlay.
use stocks.Base.{◌≡◌, ◌≢◌, ◌↔◌, true, false, List, [], ◌∷◌, none, some, String}
use stocks.Base.Int.{pos}
use stocks.Float.Micros.{Micros, micros_f64}
use stocks.Automation.Policy.{evaluate_proof_policy}
use stocks.Automation.Policy.Types.{
  TargetSide, StrategyDecisionKind, StrategyDefinitionInput, TradePermissionInput, ProofPolicyInput,
}
use stocks.Automation.Policy.Clear.{
  IsClear, evaluate_proof_policy-IsClear_iff, evaluate_proof_policy-passed_iff,
}

abbrev definition : StrategyDefinitionInput
definition = record {
  strategy_id = "trend";
  strategy_version = "1";
  family = "technical";
  display_name = "Trend";
  status = "shadow";
  config_hash = "a1b2";
}

abbrev permission : TradePermissionInput Micros
permission = record {
  permission_id = 7;
  symbol = "MU";
  strategy_id = "trend";
  strategy_version = "1";
  status = "approved";
  instrument_scope = "shares";
  environment_scope = "shadow";
  manual_freeze = false;
  expires_at = some (pos 9_000);
  max_allocation_pct = some (pos 5_000_000);
  max_notional_usd = none;
  max_quantity = none;
}

abbrev input_with : List String → ProofPolicyInput Micros
input_with warnings = record {
  definition = definition;
  permission = some permission;
  decision = record {
    kind = StrategyDecisionKind.emit_desired;
    target_side = some TargetSide.long;
    target_weight_pct = some (pos 4_000_000);
    rationale = "";
    reason_codes = [];
    blocked_reasons = [];
    validation = record {
      forward_only = true;
      horizon_days = pos 20;
      evaluation_due_at = pos 5_000;
      churn_event = false;
    };
  };
  control = record { kill_switch_enabled = false; kill_switch_reason = none };
  data_freshness = record {
    status = "fresh";
    latest_bar_at = some (pos 900);
    max_age_days = pos 3;
    stale = false;
    market_readiness_status = "ready";
    market_readiness_blocked_reasons = [];
  };
  session = record { is_open = true; label = "regular"; reason = none };
  risk = record { veto = false; reasons = []; warnings = warnings; size_mult = pos 1_000_000 };
  capital = record {
    target_weight_pct = some (pos 4_000_000);
    max_allocation_pct = some (pos 5_000_000);
    target_notional_usd = none;
    max_notional_usd = none;
    allocator_blocked_reasons = [];
  };
  sleeve = record {
    status = "active";
    current_side = TargetSide.flat;
    allocated_notional_usd = none;
  };
  broker = record { status = "ok"; mismatch = false; latest_sync_at = none };
  now = pos 1_000;
}

evaluate_proof_policy-IsClear_iff_example :
    ((evaluate_proof_policy (input_with [])).result ≢ "blocked") ↔ IsClear (input_with [])
evaluate_proof_policy-IsClear_iff_example = evaluate_proof_policy-IsClear_iff (input_with [])

evaluate_proof_policy-passed_iff_example :
    ((evaluate_proof_policy (input_with ("cluster" ∷ []))).result ≡ "passed")
    ↔ (IsClear (input_with ("cluster" ∷ [])) × (◌≡◌ {A = List String} ("cluster" ∷ []) []))
evaluate_proof_policy-passed_iff_example =
    evaluate_proof_policy-passed_iff (input_with ("cluster" ∷ []))
