-- ===== src/Automation/Readiness.antt =====
-- src/automation/readiness.rs, second part: the readiness gate before each promotion.
-- A blocker list is the concatenation of what each step pushes, in the source's order.
pub mod Types
pub mod Gates
pub mod Ready
pub mod Freeze
pub mod Lifecycle
mod Tests
use Prim.Native.Nat.{max}
use stocks.Base.{
  ◌≡◌, Bool, true, false, ◌&&◌, ◌||◌, not, List, [], ◌∷◌, ◌++◌, Option, none, some, String, str_eq,
  if◌then◌else◌, any, flatten, length, is_empty, is_some,
}
use stocks.Base.Int.{ℤ, pos, ltb_ℤ, leb_ℤ}
use stocks.Float.{F64, nought, one, clamp, sum}
use stocks.Reasons.{when, sort_dedup}
use stocks.Time.{DateTime}
use stocks.Automation.Stage.{
  AutomationStage, frozen, retired, stage_eq, next_stage, is_live_capable,
}
use stocks.Automation.Readiness.Types.{
  ReadinessStatus, ReadinessMetrics, ReadinessThresholds, PromotionApproval, ReadinessInput,
  ReadinessDecision, ready, blocked,
}

abbrev pub expired : Option DateTime → DateTime → Bool
expired none now = false
expired (some at) now = leb_ℤ at now

abbrev pub target_is_live : Option AutomationStage → Bool
target_is_live none = false
target_is_live (some stage) = is_live_capable stage

-- The blockers on which a live-capable strategy loses its live permissions.
abbrev pub freezes : String → Bool
freezes b =
    str_eq b "incident_rate_high"
    || str_eq b "open_critical_incidents"
    || str_eq b "proof_pass_rate_below_threshold"

module _ {F : Type 0} ⦃d : F64 F⦄ where
  -- What `require_min` and `require_max` push.
  unfoldable pub require_min : Option F → F → String → List String
  require_min none threshold reason = reason ∷ []
  require_min (some value) threshold reason = when (d.lt (d.add value d.epsilon) threshold) reason

  unfoldable pub require_max : Option F → F → String → List String
  require_max none threshold reason = reason ∷ []
  require_max (some value) threshold reason = when (d.lt (d.add threshold d.epsilon) value) reason

  unfoldable pub drawdown_blockers : Option F → F → List String
  drawdown_blockers none limit = "mean_drawdown_missing" ∷ []
  drawdown_blockers (some drawdown) limit = when (d.lt drawdown limit) "mean_drawdown_too_deep"

  unfoldable pub slippage_blockers : Option F → F → List String
  slippage_blockers none limit = []
  slippage_blockers (some slippage) limit = when (d.lt limit slippage) "slippage_too_high"

  abbrev pub live_pushed : ReadinessMetrics F → ReadinessThresholds F → List (List String)
  live_pushed m t =
      when (ltb_ℤ m.paper_orders_total t.min_paper_orders_for_live) "insufficient_paper_orders"
      ∷ require_min m.paper_fill_quality_rate t.min_paper_fill_quality_rate
          "paper_fill_quality_below_threshold"
      ∷ slippage_blockers m.mean_slippage_bps t.max_mean_slippage_bps
      ∷ []

  unfoldable pub live_blockers : ReadinessMetrics F → ReadinessThresholds F → List String
  unfolding require_min slippage_blockers
  live_blockers m t = flatten (live_pushed m t)

  -- `approval_valid`, with the blockers that the match pushes.
  unfoldable pub check_approval :
      ReadinessInput F → Option AutomationStage → Option PromotionApproval → Bool × List String
  check_approval input none approval = (false, [])
  check_approval input (some target) none = (false, "approval_missing" ∷ [])
  check_approval input (some target) (some approval) =
      if not (stage_eq approval.from_stage input.current_stage)
        || not (stage_eq approval.to_stage target)
      then (false, "approval_stage_mismatch" ∷ [])
      else if not (str_eq approval.status "approved")
      then (false, "approval_not_active" ∷ [])
      else if expired approval.expires_at input.now
      then (false, "approval_expired" ∷ [])
      else (true, [])

  abbrev pub target : ReadinessInput F → Option AutomationStage
  target input = next_stage input.current_stage

  abbrev pub approval_of : ReadinessInput F → Bool × List String
  approval_of input = check_approval input (target input) input.approval

  -- What the checks of the record push.
  abbrev pub metric_pushed : ReadinessMetrics F → ReadinessThresholds F → List (List String)
  metric_pushed m t =
      when (ltb_ℤ m.directional_outcomes_scored t.min_directional_outcomes)
        "insufficient_scored_outcomes"
      ∷ require_min m.signal_quality_rate t.min_signal_quality_rate "signal_quality_below_threshold"
      ∷ require_min m.mean_forward_return_pct t.min_mean_forward_return_pct
          "mean_forward_return_below_threshold"
      ∷ require_min m.baseline_excess_return_pct t.min_baseline_excess_return_pct
          "baseline_underperformed"
      ∷ require_max m.churn_rate t.max_churn_rate "churn_rate_high"
      ∷ require_min m.proof_pass_rate t.min_proof_pass_rate "proof_pass_rate_below_threshold"
      ∷ require_max m.incident_rate t.max_incident_rate "incident_rate_high"
      ∷ when (ltb_ℤ (pos 0) m.open_critical_incidents) "open_critical_incidents"
      ∷ drawdown_blockers m.mean_max_drawdown_pct t.max_mean_drawdown_pct
      ∷ []

  -- All that is pushed to `blockers`, step by step.
  abbrev pub pushed : ReadinessInput F → List (List String)
  pushed input =
      let m = input.metrics in
      let t = input.thresholds in
      when (stage_eq input.current_stage frozen) "strategy_frozen"
      ∷ when (stage_eq input.current_stage retired) "strategy_retired"
      ∷ flatten (metric_pushed m t)
      ∷ (if target_is_live (target input) then live_blockers m t else [])
      ∷ (approval_of input).1
      ∷ []

  -- `ReadinessThresholds::default`.
  unfoldable pub default_thresholds : ReadinessThresholds F
  default_thresholds = record {
    min_directional_outcomes = pos 20;
    min_signal_quality_rate = d.lit 55 2;
    min_mean_forward_return_pct = nought;
    max_mean_drawdown_pct = d.neg (d.lit 8 0);
    max_churn_rate = d.lit 35 2;
    min_proof_pass_rate = d.lit 80 2;
    max_incident_rate = d.lit 5 2;
    min_paper_orders_for_live = pos 5;
    min_paper_fill_quality_rate = d.lit 80 2;
    max_mean_slippage_bps = d.lit 25 0;
    min_baseline_excess_return_pct = nought;
  }

  ratio_score : F → F → F
  ratio_score value threshold =
      if d.le threshold d.epsilon then one else clamp nought one (d.div value threshold)

  inverted_ratio_score : F → F → F
  inverted_ratio_score value threshold =
      if d.le threshold d.epsilon
      then (if d.le value threshold then one else nought)
      else clamp nought one (d.sub one (d.div value threshold))

  non_negative_score : F → F → F
  non_negative_score value threshold =
      if d.le threshold value
      then one
      else d.mul (clamp nought one (d.add one (d.div one (d.abs value)))) (d.lit 5 1)

  abbrev or_else : Option F → F → F
  or_else none x = x
  or_else (some v) x = v

  live_parts : ReadinessInput F → List F
  unfolding ratio_score
  live_parts input =
      let m = input.metrics in
      let t = input.thresholds in
      ratio_score (d.of_int m.paper_orders_total) (d.of_int t.min_paper_orders_for_live)
      ∷ ratio_score (or_else m.paper_fill_quality_rate nought) t.min_paper_fill_quality_rate
      ∷ []

  score_parts : ReadinessInput F → Bool → List F
  unfolding ratio_score inverted_ratio_score non_negative_score live_parts
  score_parts input approval_valid =
      let m = input.metrics in
      let t = input.thresholds in
      let missing = d.neg (d.lit 10 0) in
      (ratio_score (d.of_int m.directional_outcomes_scored) (d.of_int t.min_directional_outcomes)
        ∷ ratio_score (or_else m.signal_quality_rate nought) t.min_signal_quality_rate
        ∷ non_negative_score (or_else m.mean_forward_return_pct missing)
            t.min_mean_forward_return_pct
        ∷ non_negative_score (or_else m.baseline_excess_return_pct missing)
            t.min_baseline_excess_return_pct
        ∷ inverted_ratio_score (or_else m.churn_rate one) t.max_churn_rate
        ∷ ratio_score (or_else m.proof_pass_rate nought) t.min_proof_pass_rate
        ∷ inverted_ratio_score (or_else m.incident_rate one) t.max_incident_rate
        ∷ [])
      ++ ((if target_is_live (target input) then live_parts input else [])
          ++ ((if approval_valid then one else nought) ∷ []))

  unfoldable pub readiness_score : ReadinessInput F → Bool → F
  unfolding score_parts
  readiness_score input approval_valid =
      let parts = score_parts input approval_valid in
      clamp nought one (d.div (sum parts) (d.of_int (pos (max 1 (length parts)))))

  unfoldable pub evaluate_readiness : ReadinessInput F → ReadinessDecision F
  evaluate_readiness input =
      let approval_valid = (approval_of input).0 in
      let blockers = sort_dedup (flatten (pushed input)) in
      record {
        current_stage = input.current_stage;
        target_stage = target input;
        status =
            if is_empty blockers && approval_valid
            then ReadinessStatus.ready
            else ReadinessStatus.blocked;
        readiness_score = readiness_score input approval_valid;
        blockers = blockers;
        warnings = sort_dedup (when (not (is_some (target input))) "no_higher_stage");
        approval_required = is_some (target input);
        approval_valid = approval_valid;
        freeze_live_permissions = is_live_capable input.current_stage && any freezes blockers;
      }
