-- ===== src/Automation/Strategy.antt =====
-- src/automation/mod.rs: what a strategy wants to hold, from its permission, the chart and the thesis.
-- `serde_json::Value` is a type with the accessors that are called. The snapshots are left out.
pub mod Types
pub mod Entry
pub mod Weight
pub mod Tests
use Prim.Native.String.{◌++◌ as append}
use stocks.Base.{
  ℕ, Bool, true, false, not, ◌&&◌, ◌||◌, List, [], ◌∷◌, ◌++◌, Option, none, some, String, str_eq,
  if◌then◌else◌, any, flatten, unwrap_or, is_empty,
}
use stocks.Base.Int.{ℤ, pos, ltb_ℤ, max_ℤ, ◌+ℤ◌}
use stocks.Base.Text.{eq_ignore_ascii_case}
use stocks.Float.{F64, nought, one, micro, clamp}
use stocks.Time.{DateTime, days, since}
use stocks.Reasons.{when}
use stocks.Automation.Allocator.{Uuid}
use stocks.Automation.Policy.{has_expired}
use stocks.Automation.Policy.Types.{
  TargetSide, flat, long, short, StrategyDecisionKind, ValidationPlan, StrategyDecision,
  StrategyDefinitionInput, TradePermissionInput,
}
use stocks.Automation.Simulator.Legs.{side_eq}
use stocks.Automation.Strategy.Types.{
  SerdeJson, SerdeFloat, LatestDesiredPosition, TechnicalFeature, ThesisFeature, StrategyFeatures,
  StrategyEvaluationInput, TargetIntent, Targeting, ok, err,
}

abbrev pub intent : TargetSide → String → String → Targeting
intent side rationale code =
    ok (record { side = side; rationale = rationale; reason_codes = code ∷ [] })

-- The literals are in lower case, so the lower case of a text is one of them just when the text is,
-- up to case.
unfoldable pub is_bullish_direction : String → Bool
is_bullish_direction direction =
    eq_ignore_ascii_case direction "bullish"
    || eq_ignore_ascii_case direction "long"
    || eq_ignore_ascii_case direction "up"
    || eq_ignore_ascii_case direction "positive"

abbrev pub is_bullish : Option String → Bool
is_bullish none = false
is_bullish (some direction) = is_bullish_direction direction

unfoldable pub churns : {F : Type 0} → Option (LatestDesiredPosition F) → TargetSide → Bool
churns none side = false
churns (some latest) side = not (side_eq latest.target_side side)

abbrev pub and_then : {A B : Type 0} → Option A → (A → Option B) → Option B
and_then none f = none
and_then (some a) f = f a

abbrev pub is_text : String → Option String → Bool
is_text value none = false
is_text value (some s) = str_eq s value

module _ {V : Type 0} ⦃j : SerdeJson V⦄ where
  unfoldable pub config_i64 : V → String → ℤ → ℤ
  config_i64 config key default = unwrap_or (and_then (j.get config key) j.as_i64) default

  abbrev pub has_text : String → Option (List V) → Bool
  has_text value none = false
  has_text value (some items) = any (λ item. is_text value (j.as_str item)) items

  unfoldable pub stance_list_contains : V → String → String → Bool
  stance_list_contains config key value = has_text value (and_then (j.get config key) j.as_array)

module _ {F : Type 0} where
  unfoldable pub long_target : Option (TradePermissionInput F) → String → String → Targeting
  long_target none code rationale = err ("permission_missing" ∷ [])
  long_target (some permission) code rationale =
      if str_eq permission.instrument_scope "equity_short_only"
      then err ("instrument_scope_blocks_long" ∷ [])
      else intent long rationale code

  abbrev pub allocation_of : Option (TradePermissionInput F) → Option F
  allocation_of none = none
  allocation_of (some permission) = permission.max_allocation_pct

module _ {F : Type 0} ⦃d : F64 F⦄ where
  unfoldable pub option_f64_close : Option F → Option F → Bool
  option_f64_close (some left) (some right) = d.le (d.abs (d.sub left right)) micro
  option_f64_close none none = true
  option_f64_close (some left) none = d.le (d.abs left) micro
  option_f64_close none (some left) = d.le (d.abs left) micro

  unfoldable pub latest_matches_target :
      Option (LatestDesiredPosition F) → TargetSide → Option F → Bool
  latest_matches_target none side weight = false
  latest_matches_target (some latest) side weight =
      side_eq latest.target_side side && option_f64_close latest.target_weight_pct weight

module _ {V F : Type 0} ⦃d : F64 F⦄ ⦃j : SerdeJson V⦄ ⦃f : SerdeFloat V F⦄ where
  unfoldable pub config_f64 : V → String → F → F
  config_f64 config key default = unwrap_or (and_then (j.get config key) f.as_f64) default

  -- The part of `common_blocked_reasons` on the permission.
  abbrev pub permission_pushed :
      StrategyEvaluationInput V F → TradePermissionInput F → List (List String)
  permission_pushed input permission =
      when
        (not (str_eq permission.strategy_id input.definition.strategy_id)
          || not (str_eq permission.strategy_version input.definition.strategy_version))
        "permission_strategy_mismatch"
      ∷ when (not (str_eq input.definition.status "shadow")) "strategy_not_shadow"
      ∷ when (not (str_eq permission.status "approved")) "permission_not_approved"
      ∷ when (not (str_eq permission.environment_scope "shadow")) "environment_not_shadow"
      ∷ when permission.manual_freeze "permission_frozen"
      ∷ when (has_expired permission.expires_at input.now) "permission_expired"
      ∷ []

  abbrev pub max_age_days : StrategyEvaluationInput V F → ℤ
  max_age_days input = max_ℤ (config_i64 input.config "max_bar_age_days" (pos 5)) (pos 1)

  -- The part on the chart.
  unfoldable pub technical_blockers :
      StrategyEvaluationInput V F → Option (TechnicalFeature F) → List String
  technical_blockers input none = "technical_missing" ∷ []
  technical_blockers input (some technical) =
      when (ltb_ℤ (days (max_age_days input)) (since input.now technical.as_of)) "technical_stale"
      ++ when (str_eq technical.state "unknown" || str_eq technical.entry_stance "wait_data")
          "technical_invalid_state"

  abbrev pub blocked_with :
      StrategyEvaluationInput V F → Option (TradePermissionInput F) → List String
  blocked_with input none = "permission_missing" ∷ []
  blocked_with input (some permission) =
      flatten (permission_pushed input permission)
      ++ technical_blockers input input.features.technical

  unfoldable pub common_blocked_reasons : StrategyEvaluationInput V F → List String
  common_blocked_reasons input = blocked_with input input.permission

  unfoldable pub technical_target :
      StrategyEvaluationInput V F → Option (TechnicalFeature F) → Targeting
  technical_target input none = err ("technical_missing" ∷ [])
  technical_target input (some technical) =
      if stance_list_contains input.config "long_entry_stances" technical.entry_stance
      then long_target input.permission (append "technical_long_" technical.entry_stance) (
          append (append (append technical.state " technical state with ") technical.entry_stance)
            " entry stance.")
      else intent flat (append technical.entry_stance " entry stance does not permit shadow entry.")
          (append "technical_flat_" technical.entry_stance)

  -- The end of `thesis_target`, where the thesis is actionable and bullish.
  unfoldable pub timed_target :
      StrategyEvaluationInput V F → Option (TechnicalFeature F) → Targeting
  timed_target input none = err ("technical_missing" ∷ [])
  timed_target input (some technical) =
      if stance_list_contains input.config "long_entry_stances" technical.entry_stance
      then long_target input.permission "thesis_actionable_bullish" (
          append (append "Bullish actionable thesis and " technical.entry_stance)
            " technical entry stance.")
      else intent flat
          (append
            (append "Bullish thesis is actionable, but technical entry stance is "
              technical.entry_stance)
            ".")
          "thesis_waiting_for_timing"

  unfoldable pub thesis_target : StrategyEvaluationInput V F → Option (ThesisFeature F) → Targeting
  thesis_target input none =
      intent flat "No active thesis is available for thesis-timing entry." "thesis_missing_flat"
  thesis_target input (some thesis) =
      if not (stance_list_contains input.config "actionable_thesis_states" thesis.state)
      then intent flat
          (append (append "Thesis state " thesis.state) " is not actionable for entry.")
          "thesis_not_actionable"
      else if not (is_bullish thesis.direction)
      then intent flat "Thesis direction is not bullish." "thesis_not_bullish"
      else timed_target input input.features.technical

  unfoldable pub target_intent : StrategyEvaluationInput V F → Targeting
  target_intent input =
      if str_eq input.definition.family "technical_timing"
      then technical_target input input.features.technical
      else if str_eq input.definition.family "thesis_timing"
      then thesis_target input input.features.thesis
      else err ("strategy_family_unsupported" ∷ [])

  unfoldable pub target_weight : StrategyEvaluationInput V F → F
  target_weight input = clamp nought one (
      unwrap_or (allocation_of input.permission)
        (config_f64 input.config "default_weight_pct" (d.lit 5 2)))

  unfoldable pub validation_plan : StrategyEvaluationInput V F → TargetSide → ValidationPlan
  validation_plan input side =
      let horizon_days =
        max_ℤ (config_i64 input.config "validation_horizon_days" (pos 20)) (pos 1) in
      record {
        forward_only = true;
        horizon_days = horizon_days;
        evaluation_due_at = input.now +ℤ days horizon_days;
        churn_event = churns input.latest_desired side;
      }

  unfoldable pub blocked_decision : StrategyEvaluationInput V F → List String → StrategyDecision F
  blocked_decision input blocked_reasons = record {
    kind = StrategyDecisionKind.blocked;
    target_side = none;
    target_weight_pct = none;
    rationale = "Strategy evaluation blocked before desired exposure changed.";
    reason_codes = [];
    blocked_reasons = blocked_reasons;
    validation = validation_plan input flat;
  }

  -- The weight and the end of `evaluate_strategy`.
  abbrev pub weight_of : StrategyEvaluationInput V F → TargetSide → Option F
  weight_of input side = if side_eq side flat then some nought else some (target_weight input)

  unfoldable pub decide : StrategyEvaluationInput V F → Targeting → StrategyDecision F
  decide input (err reasons) = blocked_decision input reasons
  decide input (ok target) = record {
    kind =
        if latest_matches_target input.latest_desired target.side (weight_of input target.side)
        then StrategyDecisionKind.no_change
        else StrategyDecisionKind.emit_desired;
    target_side = some target.side;
    target_weight_pct = weight_of input target.side;
    rationale = target.rationale;
    reason_codes = target.reason_codes;
    blocked_reasons = [];
    validation = validation_plan input target.side;
  }

  unfoldable pub evaluate_strategy : StrategyEvaluationInput V F → StrategyDecision F
  evaluate_strategy input =
      let blocked_reasons = common_blocked_reasons input in
      if is_empty blocked_reasons
      then decide input (target_intent input)
      else blocked_decision input blocked_reasons
