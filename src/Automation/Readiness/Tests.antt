-- ===== src/Automation/Readiness/Tests.antt =====
-- A strategy in paper trading with the default thresholds, ready for its first live stage.
use stocks.Base.{arith, ◌≡◌, refl, ◌↔◌, inl, inr, true, false, none, some}
use stocks.Base.Int.{pos, ◌+ℤ◌}
use stocks.Float.Micros.{Micros, micros_f64}
use stocks.Automation.Stage.{
  shadow, paper, canary_live, frozen, retired, next_stage, is_live_capable,
  allows_environment_scope, manual_stage_change,
}
use stocks.Automation.Readiness.{default_thresholds, evaluate_readiness}
use stocks.Automation.Readiness.Types.{
  ReadinessStatus, ReadinessMetrics, ReadinessInput, PromotionApproval,
}
use stocks.Automation.Readiness.Gates.{IsReady}
use stocks.Automation.Readiness.Ready.{evaluate_readiness-ready_iff}
use stocks.Automation.Readiness.Freeze.{IsUnsafe, evaluate_readiness-freeze_iff}
use stocks.Automation.Readiness.Lifecycle.{
  IsOut, Reach, here, next, manual, promote, Passed, Reach-live, Reach-IsOut,
}

abbrev metrics : ReadinessMetrics Micros
metrics = record {
  observations_total = pos 60;
  outcomes_scored = pos 40;
  directional_outcomes_scored = pos 30;
  signal_quality_rate = some (pos 600_000);
  mean_forward_return_pct = some (pos 1_200_000);
  mean_max_drawdown_pct = some (pos 0);
  churn_rate = some (pos 100_000);
  proof_pass_rate = some (pos 900_000);
  incident_rate = some (pos 10_000);
  open_critical_incidents = pos 0;
  paper_orders_total = pos 8;
  paper_fill_quality_rate = some (pos 950_000);
  mean_slippage_bps = none;
  baseline_excess_return_pct = some (pos 300_000);
}

abbrev approval : PromotionApproval
approval = record {
  from_stage = paper;
  to_stage = canary_live;
  status = "approved";
  approved_at = pos 0;
  expires_at = some (pos 2_000);
}

abbrev paper_input : ReadinessInput Micros
paper_input = record {
  current_stage = paper;
  metrics = metrics;
  approval = some approval;
  thresholds = default_thresholds;
  now = pos 1_000;
}

evaluate_readiness-ready_iff_example :
    ((evaluate_readiness paper_input).status ≡ ReadinessStatus.ready) ↔ IsReady paper_input
evaluate_readiness-ready_iff_example = evaluate_readiness-ready_iff paper_input

ready : (evaluate_readiness paper_input).status ≡ ReadinessStatus.ready
unfolding default_thresholds next_stage ◌+ℤ◌
ready = (evaluate_readiness-ready_iff paper_input).1 (record {
  to = canary_live;
  approval = approval;
  next = refl;
  given = refl;
  approved = record { from_here = refl; to_there = refl; active = refl; current = refl };
  proven = record {
    outcomes = ground arith;
    signal = refl;
    forward = refl;
    baseline = refl;
    churn = refl;
    proofs = refl;
    incidents = refl;
    critical = ground arith;
    drawdown = refl;
  };
  live = inr (record { orders = ground arith; fills = refl; slippage = tt });
})

evaluate_readiness-freeze_iff_example :
    ((evaluate_readiness paper_input).freeze_live_permissions ≡ true)
    ↔ ((is_live_capable paper ≡ true) × IsUnsafe metrics default_thresholds)
evaluate_readiness-freeze_iff_example = evaluate_readiness-freeze_iff paper_input

abbrev History : Type 0
History = Reach Micros paper canary_live

promoted : History
unfolding evaluate_readiness next_stage
promoted = next here (promote paper_input refl ready refl)

not_live : is_live_capable paper ≡ false
unfolding is_live_capable
not_live = refl

live : is_live_capable canary_live ≡ true
unfolding is_live_capable
live = refl

Reach-live_example : Passed Micros paper canary_live promoted
Reach-live_example = Reach-live Micros paper canary_live promoted not_live live

abbrev Retirement : Type 0
Retirement = Reach Micros frozen retired

to_retired : (manual_stage_change frozen retired).allowed ≡ true
unfolding manual_stage_change
to_retired = refl

was_retired : Retirement
was_retired = next here (manual to_retired)

Reach-IsOut_example : IsOut retired
Reach-IsOut_example = Reach-IsOut Micros frozen retired was_retired (inl refl)

first_next : next_stage shadow ≡ some paper
unfolding next_stage
first_next = refl

shadow_runs : allows_environment_scope shadow "shadow" ≡ true
unfolding allows_environment_scope
shadow_runs = refl
