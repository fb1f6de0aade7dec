-- ===== src/Automation/Readiness/Ready.antt =====
-- The readiness decision of src/automation/readiness.rs, positive and negative.
use stocks.Base.{
  ◌≡◌, refl, sym, ◌∙◌, ap, ◌↔◌, ◌⊎◌, inl, inr, Bool, true, false, [], Option, none, some, flatten,
  arith, flatten-eq-nil, is_empty, is_empty_iff, Bool-cases, and_true, if◌then◌else◌,
}
use mathlib.Core.Option.{some-injective}
use stocks.Float.{F64}
use stocks.Reasons.{sort_dedup}
use stocks.Reasons.Laws.{sort_dedup-eq-nil, when-eq-nil}
use stocks.Automation.Stage.{
  AutomationStage, next_stage, frozen, retired, stage_eq, is_live_capable,
}
use stocks.Automation.Readiness.{
  check_approval, approval_of, target, pushed, metric_pushed, target_is_live, live_blockers,
  evaluate_readiness,
}
use stocks.Automation.Readiness.Types.{ReadinessStatus, ReadinessInput}
use stocks.Automation.Readiness.Gates.{
  IsReady, IsPaperProven, check_approval-true, check_approval_of_IsApproved, live_blockers-eq-nil,
  metric_pushed-IsProven,
}

active_of_next :
    (s : AutomationStage) {to : AutomationStage}
    → next_stage s ≡ some to
    → (stage_eq s frozen ≡ false) × (stage_eq s retired ≡ false)
unfolding next_stage
active_of_next s h = ground arith

abbrev status_of : Bool → ReadinessStatus
status_of b = if b then ReadinessStatus.ready else ReadinessStatus.blocked

status_of-ready : (b : Bool) → status_of b ≡ ReadinessStatus.ready → b ≡ true
status_of-ready b h = ground arith

module _ {F : Type 0} ⦃d : F64 F⦄ where
  live_part :
      (input : ReadinessInput F) (to : AutomationStage) (o : Option AutomationStage)
      → o ≡ some to
      → ((if target_is_live o then live_blockers input.metrics input.thresholds else []) ≡ [])
        ↔ ((is_live_capable to ≡ false) ⊎ IsPaperProven input.metrics input.thresholds)
  live_part input to none e = absurd (cc)
  live_part input to (some s) e =
      let same : is_live_capable s ≡ is_live_capable to =
        ap is_live_capable (some-injective _ _ e) in
      elim (Bool-cases (is_live_capable s)) [
        | inl l ↦ rw l (
          λ h. inr ((live_blockers-eq-nil input.metrics input.thresholds).0 h),
          λ h. elim h [
            | inl f ↦ cc
            | inr p ↦ (live_blockers-eq-nil input.metrics input.thresholds).1 p
          ],
        )
        | inr l ↦ rw l (λ h. inl (sym same ∙ l), λ h. refl)
      ]

  ready-IsReady :
      (input : ReadinessInput F)
      → (evaluate_readiness input).status ≡ ReadinessStatus.ready
      → IsReady input
  unfolding evaluate_readiness
  ready-IsReady input h =
      let both =
        and_true (is_empty (sort_dedup (flatten (pushed input)))) (approval_of input).0
          (status_of-ready _ h) in
      let (to, a, n, g, approved) =
        check_approval-true input (target input) input.approval both.1 in
      let raw = (sort_dedup-eq-nil (flatten (pushed input))).0 ((is_empty_iff _).0 both.0) in
      let parts = (flatten-eq-nil (pushed input)).0 raw in
      let metrics = metric_pushed input.metrics input.thresholds in
      record {
        to = to;
        approval = a;
        next = n;
        given = g;
        approved = approved;
        proven =
            (metric_pushed-IsProven input.metrics input.thresholds).0
              ((flatten-eq-nil metrics).0 parts.1.1.0);
        live = (live_part input to (target input) n).0 parts.1.1.1.0;
      }

  IsReady-ready :
      (input : ReadinessInput F)
      → IsReady input
      → (evaluate_readiness input).status ≡ ReadinessStatus.ready
  unfolding evaluate_readiness
  IsReady-ready input r = rw ((is_empty_iff _).1 empty, ap (λ p. p.0) approved)
    where
      approved : approval_of input ≡ (true, [])
      approved =
          ap (λ o. check_approval input o input.approval) r.next
          ∙ ap (check_approval input (some r.to)) r.given
          ∙ check_approval_of_IsApproved input r.to r.approval r.approved

      empty : sort_dedup (flatten (pushed input)) ≡ []
      empty = (sort_dedup-eq-nil _).1 (
          (flatten-eq-nil (pushed input)).1 (
            (when-eq-nil _ _).1 (active_of_next input.current_stage r.next).0,
            (
              (when-eq-nil _ _).1 (active_of_next input.current_stage r.next).1,
              (
                (flatten-eq-nil (metric_pushed input.metrics input.thresholds)).1
                    ((metric_pushed-IsProven input.metrics input.thresholds).1 r.proven),
                (
                  (live_part input r.to (target input) r.next).1 r.live,
                  (ap (λ p. p.1) approved, tt),
                ),
              ),
            ),
          ))

  -- For every input, the readiness decision is "ready" exactly when there is a next stage, every
  -- metric passes its threshold (the paper-trading ones too, where the next stage is live), and an
  -- active, unexpired approval names just this step.
  pub evaluate_readiness-ready_iff :
      (input : ReadinessInput F)
      → ((evaluate_readiness input).status ≡ ReadinessStatus.ready) ↔ IsReady input
  evaluate_readiness-ready_iff input = (ready-IsReady input, IsReady-ready input)
