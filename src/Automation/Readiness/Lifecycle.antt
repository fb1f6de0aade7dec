-- ===== src/Automation/Readiness/Lifecycle.antt =====
-- The stage of a strategy over its life. Two callers write it, both in src/platform/store.rs:
-- `set_automation_strategy_stage_manual` where `manual_stage_change` allows, and
-- `promote_automation_strategy_after_readiness` where `evaluate_readiness` is ready.
use stocks.Base.{
  ℕ, ◌<◌, ◌≡◌, refl, sym, ◌∙◌, ap, ◌⊎◌, ◌≢◌, ◌↔◌, inl, inr, true, false, Option, some, arith,
  String,
}
use mathlib.Core.Bool.{false≢true}
use mathlib.Core.Option.{some-injective}
use stocks.Float.{F64}
use stocks.Automation.Stage.{
  AutomationStage, draft, paper, frozen, retired, rank, next_stage, is_live_capable, is_runnable,
  allows_environment_scope, manual_stage_change, change_by_rank,
}
use stocks.Automation.Readiness.{evaluate_readiness}
use stocks.Automation.Readiness.Types.{ReadinessStatus, ReadinessInput}
use stocks.Automation.Readiness.Gates.{IsReady, IsPaperProven}
use stocks.Automation.Readiness.Ready.{evaluate_readiness-ready_iff}

abbrev pub RankBelow : Option ℕ → Option ℕ → Type 0
RankBelow (some low) (some high) = low < high
RankBelow _ _ = ⊥

-- For every two stages, an operator may move a strategy without the readiness gate exactly when the
-- stages differ and the new one is frozen, retired, or of a lower rank than the old one. So never up.
manual_stage_change-allowed_iff :
    (from to : AutomationStage)
    → ((manual_stage_change from to).allowed ≡ true)
      ↔ ((from ≢ to) × ((to ≡ frozen) ⊎ (to ≡ retired) ⊎ RankBelow (rank to) (rank from)))
unfolding manual_stage_change change_by_rank rank
manual_stage_change-allowed_iff draft to = ground arith
manual_stage_change-allowed_iff _ to = ground arith

manual_live :
    (from to : AutomationStage)
    → (manual_stage_change from to).allowed ≡ true
    → is_live_capable to ≡ true
    → is_live_capable from ≡ true
unfolding manual_stage_change change_by_rank rank is_live_capable
manual_live draft to h l = ground arith
manual_live _ to h l = ground arith

promoted_live :
    (from to : AutomationStage)
    → next_stage from ≡ some to
    → is_live_capable to ≡ true
    → (from ≡ paper) ⊎ (is_live_capable from ≡ true)
unfolding next_stage is_live_capable
promoted_live draft to e l = ground arith
promoted_live _ to e l = ground arith

-- Out of the ladder: no such stage runs.
abbrev pub IsOut : AutomationStage → Type 0
IsOut s = (s ≡ frozen) ⊎ (s ≡ retired)

manual-IsOut :
    (from to : AutomationStage)
    → (manual_stage_change from to).allowed ≡ true
    → IsOut from
    → IsOut to
unfolding manual_stage_change change_by_rank rank
manual-IsOut draft to h o = ground arith
manual-IsOut _ to h o = ground arith

next_not-IsOut : (from to : AutomationStage) → next_stage from ≡ some to → ¬ IsOut from
unfolding next_stage
next_not-IsOut draft to e = ground arith
next_not-IsOut _ to e = ground arith

module _ (F : Type 0) ⦃d : F64 F⦄ where
  -- One change of the stage in the store.
  pub data Move (from to : AutomationStage) : Type 0 where
    manual : (manual_stage_change from to).allowed ≡ true → Move from to
    promote :
        (input : ReadinessInput F)
        → input.current_stage ≡ from
        → (evaluate_readiness input).status ≡ ReadinessStatus.ready
        → (evaluate_readiness input).target_stage ≡ some to
        → Move from to

  pub data Reach (s : AutomationStage) : AutomationStage → Type 0 where
    here : Reach s s
    next : {t u : AutomationStage} → Reach s t → Move t u → Reach s u

  -- The promotion out of `paper` passed the gate, with the paper-trading record.
  pub record PassedPaperGate (input : ReadinessInput F) : Type 0 where
    pub from_paper : input.current_stage ≡ paper
    pub ready : IsReady input
    pub proven : IsPaperProven input.metrics input.thresholds

  -- Some promotion of the history did so.
  abbrev pub Passed : (s t : AutomationStage) → Reach s t → Type 0
  Passed s t here = ⊥
  Passed s u (next {t = t} r (manual h)) = Passed s t r
  Passed s u (next {t = t} r (promote input c e n)) = PassedPaperGate input ⊎ Passed s t r

  target_lem :
      (input : ReadinessInput F)
      → (evaluate_readiness input).target_stage ≡ next_stage input.current_stage
  unfolding evaluate_readiness
  target_lem input = refl

  paper_gate :
      (input : ReadinessInput F) (to : AutomationStage)
      → input.current_stage ≡ paper
      → (evaluate_readiness input).status ≡ ReadinessStatus.ready
      → (evaluate_readiness input).target_stage ≡ some to
      → is_live_capable to ≡ true
      → PassedPaperGate input
  paper_gate input to p e n l = record { from_paper = p; ready = ready; proven = proven ready.live }
    where
      ready : IsReady input
      ready = (evaluate_readiness-ready_iff input).0 e

      same : ready.to ≡ to
      same = some-injective _ _ (sym ready.next ∙ sym (target_lem input) ∙ n)

      proven :
          (is_live_capable ready.to ≡ false) ⊎ IsPaperProven input.metrics input.thresholds
          → IsPaperProven input.metrics input.thresholds
      proven (inl f) = absurd (false≢true (sym f ∙ ap is_live_capable same ∙ l))
      proven (inr q) = q

  -- In every history that starts at a stage which is not live and ends at a live one, some promotion
  -- out of `paper` passed the readiness gate with its paper-trading conditions.
  pub Reach-live :
      (s t : AutomationStage) (r : Reach s t)
      → is_live_capable s ≡ false
      → is_live_capable t ≡ true
      → Passed s t r
  Reach-live s t here f l = absurd (false≢true (sym f ∙ l))
  Reach-live s u (next {t = t} r (manual h)) f l = Reach-live s t r f (manual_live t u h l)
  Reach-live s u (next {t = t} r (promote input c e n)) f l =
      elim (promoted_live input.current_stage u (sym (target_lem input) ∙ n) l) [
        | inl p ↦ inl (paper_gate input u p e n l)
        | inr k ↦ inr (Reach-live s t r f (sym (ap is_live_capable c) ∙ k))
      ]

  -- From frozen or retired a strategy only ever reaches frozen or retired.
  pub Reach-IsOut : (s t : AutomationStage) → Reach s t → IsOut s → IsOut t
  Reach-IsOut s t here o = o
  Reach-IsOut s u (next {t = t} r (manual h)) o = manual-IsOut t u h (Reach-IsOut s t r o)
  Reach-IsOut s u (next {t = t} r (promote input c e n)) o = absurd (
      next_not-IsOut t u (sym (ap next_stage c) ∙ sym (target_lem input) ∙ n) (Reach-IsOut s t r o))

-- For every scope, a promotion takes no environment away: what a stage allows the next one allows.
allows_environment_scope-next :
    (s to : AutomationStage) (scope : String)
    → next_stage s ≡ some to
    → allows_environment_scope s scope ≡ true
    → allows_environment_scope to scope ≡ true
unfolding next_stage allows_environment_scope rank is_runnable
allows_environment_scope-next draft to scope e h = ground arith
allows_environment_scope-next _ to scope e h = ground arith
