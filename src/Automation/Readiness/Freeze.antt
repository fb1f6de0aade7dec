-- ===== src/Automation/Readiness/Freeze.antt =====
-- When the readiness gate of src/automation/readiness.rs takes live permissions away.
use stocks.Base.{
  ◌≡◌, refl, ◌∙◌, ◌↔◌, ◌⊎◌, inl, inr, Bool, true, false, ◌||◌, [], Option, none, some, String,
  arith, any, any-flatten, flatten, or_iff, and_true, if◌then◌else◌,
}
use stocks.Base.Int.{ℤ, pos, ltb_ℤ, ◌≤ℤ◌}
use stocks.Float.{F64}
use stocks.Reasons.{when, sort_dedup}
use stocks.Reasons.Laws.{any-sort_dedup}
use stocks.Automation.Stage.{AutomationStage, is_live_capable}
use stocks.Automation.Readiness.{
  require_min, require_max, drawdown_blockers, slippage_blockers, live_blockers, check_approval,
  target, pushed, metric_pushed, live_pushed, target_is_live, freezes, evaluate_readiness,
}
use stocks.Automation.Readiness.Types.{
  ReadinessMetrics, ReadinessThresholds, ReadinessInput, PromotionApproval,
}
use stocks.Automation.Readiness.Gates.{AtLeast, AtMost}

any-when_other : (b : Bool) (r : String) → freezes r ≡ false → any freezes (when b r) ≡ false
any-when_other b r h = ground arith

critical_freezes :
    (n : ℤ)
    → (any freezes (when (ltb_ℤ (pos 0) n) "open_critical_incidents") ≡ true) ↔ (¬ (n ≤ℤ pos 0))
critical_freezes n = ground arith

module _ {F : Type 0} ⦃d : F64 F⦄ where
  any-require_min_other :
      (o : Option F) (t : F) (r : String)
      → freezes r ≡ false
      → any freezes (require_min o t r) ≡ false
  unfolding require_min
  any-require_min_other none t r h = ground arith
  any-require_min_other (some v) t r h = any-when_other _ r h

  any-require_max_other :
      (o : Option F) (t : F) (r : String)
      → freezes r ≡ false
      → any freezes (require_max o t r) ≡ false
  unfolding require_max
  any-require_max_other none t r h = ground arith
  any-require_max_other (some v) t r h = any-when_other _ r h

  any-drawdown_blockers : (o : Option F) (t : F) → any freezes (drawdown_blockers o t) ≡ false
  unfolding drawdown_blockers
  any-drawdown_blockers none t = refl
  any-drawdown_blockers (some v) t = any-when_other _ "mean_drawdown_too_deep" refl

  any-slippage_blockers : (o : Option F) (t : F) → any freezes (slippage_blockers o t) ≡ false
  unfolding slippage_blockers
  any-slippage_blockers none t = refl
  any-slippage_blockers (some v) t = any-when_other _ "slippage_too_high" refl

  any-live_blockers :
      (m : ReadinessMetrics F) (t : ReadinessThresholds F) → any freezes (live_blockers m t) ≡ false
  unfolding live_blockers
  any-live_blockers m t =
      any-flatten freezes (live_pushed m t)
      ∙ rw (
        any-when_other _ "insufficient_paper_orders" refl,
        any-require_min_other m.paper_fill_quality_rate _ "paper_fill_quality_below_threshold" refl,
        any-slippage_blockers m.mean_slippage_bps t.max_mean_slippage_bps,
      )

  any-live_part :
      (b : Bool) (m : ReadinessMetrics F) (t : ReadinessThresholds F)
      → any freezes (if b then live_blockers m t else []) ≡ false
  any-live_part true m t = any-live_blockers m t
  any-live_part false m t = refl

  any-check_approval :
      (input : ReadinessInput F) (o : Option AutomationStage) (p : Option PromotionApproval)
      → any freezes (check_approval input o p).1 ≡ false
  unfolding check_approval
  any-check_approval input none p = refl
  any-check_approval input (some to) none = refl
  any-check_approval input (some to) (some a) = ground arith

  -- Of the checks of the record three can freeze.
  any-metric_blockers :
      (m : ReadinessMetrics F) (t : ReadinessThresholds F)
      → any freezes (flatten (metric_pushed m t)) ≡ (
          any freezes
            (require_min m.proof_pass_rate t.min_proof_pass_rate "proof_pass_rate_below_threshold")
          || (any freezes (require_max m.incident_rate t.max_incident_rate "incident_rate_high")
              || any freezes
                  (when (ltb_ℤ (pos 0) m.open_critical_incidents) "open_critical_incidents")))
  any-metric_blockers m t =
      any-flatten freezes (metric_pushed m t)
      ∙ rw
          (
            any-when_other _ "insufficient_scored_outcomes" refl,
            any-require_min_other m.signal_quality_rate _ "signal_quality_below_threshold" refl,
            any-require_min_other m.mean_forward_return_pct _ "mean_forward_return_below_threshold"
                refl,
            any-require_min_other m.baseline_excess_return_pct _ "baseline_underperformed" refl,
            any-require_max_other m.churn_rate _ "churn_rate_high" refl,
            any-drawdown_blockers m.mean_max_drawdown_pct t.max_mean_drawdown_pct,
          )
          (ground arith)

  any-blockers :
      (input : ReadinessInput F)
      → any freezes (sort_dedup (flatten (pushed input)))
        ≡ any freezes (flatten (metric_pushed input.metrics input.thresholds))
  any-blockers input =
      any-sort_dedup freezes (flatten (pushed input))
      ∙ any-flatten freezes (pushed input)
      ∙ rw
          (
            any-when_other _ "strategy_frozen" refl,
            any-when_other _ "strategy_retired" refl,
            any-check_approval input (target input) input.approval,
            any-live_part (target_is_live (target input)) input.metrics input.thresholds,
          )
          (ground arith)

  require_min-freezes :
      (o : Option F) (t : F) (r : String)
      → freezes r ≡ true
      → (any freezes (require_min o t r) ≡ true) ↔ (¬ AtLeast t o)
  unfolding require_min
  require_min-freezes none t r h = (λ e a. a, λ n. ground arith)
  require_min-freezes (some v) t r h = ground arith

  require_max-freezes :
      (o : Option F) (t : F) (r : String)
      → freezes r ≡ true
      → (any freezes (require_max o t r) ≡ true) ↔ (¬ AtMost t o)
  unfolding require_max
  require_max-freezes none t r h = (λ e a. a, λ n. ground arith)
  require_max-freezes (some v) t r h = ground arith

  -- What takes the live permissions away: proofs pass too seldom, incidents are too frequent, or a
  -- critical incident is open. An unknown rate counts as a bad one.
  abbrev pub IsUnsafe : ReadinessMetrics F → ReadinessThresholds F → Type 0
  IsUnsafe m t =
      (¬ AtLeast t.min_proof_pass_rate m.proof_pass_rate)
      ⊎ (¬ AtMost t.max_incident_rate m.incident_rate)
      ⊎ (¬ (m.open_critical_incidents ≤ℤ pos 0))

  any_metric_blockers_iff :
      (m : ReadinessMetrics F) (t : ReadinessThresholds F)
      → (any freezes (flatten (metric_pushed m t)) ≡ true) ↔ IsUnsafe m t
  any_metric_blockers_iff m t =
      let proofs = require_min-freezes m.proof_pass_rate t.min_proof_pass_rate _ refl in
      let rates = require_max-freezes m.incident_rate t.max_incident_rate _ refl in
      let critical = critical_freezes m.open_critical_incidents in
      rw (any-metric_blockers m t) (
        λ h. elim ((or_iff _ _).0 h) [
          | inl p ↦ inl (proofs.0 p)
          | inr q ↦ elim ((or_iff _ _).0 q) [
            | inl p ↦ inr (inl (rates.0 p))
            | inr c ↦ inr (inr (critical.0 c))
          ]
        ],
        λ h. elim h [
          | inl p ↦ (or_iff _ _).1 (inl (proofs.1 p))
          | inr q ↦ (or_iff _ _).1 (
              inr
                ((or_iff _ _).1 (elim q [ inl p ↦ inl (rates.1 p) | inr c ↦ inr (critical.1 c) ])))
        ],
      )

  -- For every input, the decision freezes live permissions exactly when the strategy's current stage
  -- is a live one and its proof pass rate, incident rate or open critical incidents are bad.
  pub evaluate_readiness-freeze_iff :
      (input : ReadinessInput F)
      → ((evaluate_readiness input).freeze_live_permissions ≡ true)
        ↔ ((is_live_capable input.current_stage ≡ true) × IsUnsafe input.metrics input.thresholds)
  unfolding evaluate_readiness
  evaluate_readiness-freeze_iff input = rw (any-blockers input) (
    λ h.
        let (live, bad) = and_true _ _ h in
        (live, (any_metric_blockers_iff input.metrics input.thresholds).0 bad),
    λ (live, bad). rw (live, (any_metric_blockers_iff input.metrics input.thresholds).1 bad),
  )
