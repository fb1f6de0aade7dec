-- ===== src/Automation/Readiness/Gates.antt =====
-- The readiness gate of src/automation/readiness.rs against its conditions, written out.
use stocks.Base.{
  ◌≡◌, refl, ◌↔◌, ◌⊎◌, true, false, [], Option, none, some, String, eq_iff, arith, All,
  flatten-eq-nil,
}
use mathlib.Core.Bool.{false≢true}
use stocks.Base.Int.{pos, ◌≤ℤ◌}
use stocks.Float.{F64}
use stocks.Reasons.Laws.{when-eq-nil, when-ltb-eq-nil}
use stocks.Automation.Stage.{AutomationStage, next_stage, is_live_capable, stage_eq_iff}
use stocks.Automation.Readiness.{
  require_min, require_max, drawdown_blockers, slippage_blockers, metric_pushed, live_pushed,
  live_blockers, check_approval, expired,
}
use stocks.Automation.Readiness.Types.{
  ReadinessMetrics, ReadinessThresholds, ReadinessInput, PromotionApproval,
}

module _ {F : Type 0} ⦃d : F64 F⦄ where
  -- The metric is known, and is not below (not above) the threshold by more than the epsilon.
  abbrev pub AtLeast : F → Option F → Type 0
  AtLeast threshold none = ⊥
  AtLeast threshold (some v) = d.lt (d.add v d.epsilon) threshold ≡ false

  abbrev pub AtMost : F → Option F → Type 0
  AtMost threshold none = ⊥
  AtMost threshold (some v) = d.lt (d.add threshold d.epsilon) v ≡ false

  abbrev pub NotBelow : F → Option F → Type 0
  NotBelow limit none = ⊥
  NotBelow limit (some v) = d.lt v limit ≡ false

  abbrev pub NotAboveIfKnown : F → Option F → Type 0
  NotAboveIfKnown limit none = Unit {0}
  NotAboveIfKnown limit (some v) = d.lt limit v ≡ false

  -- The record of a strategy is good enough for any promotion.
  pub record IsProven (m : ReadinessMetrics F) (t : ReadinessThresholds F) : Type 0 where
    pub outcomes : t.min_directional_outcomes ≤ℤ m.directional_outcomes_scored
    pub signal : AtLeast t.min_signal_quality_rate m.signal_quality_rate
    pub forward : AtLeast t.min_mean_forward_return_pct m.mean_forward_return_pct
    pub baseline : AtLeast t.min_baseline_excess_return_pct m.baseline_excess_return_pct
    pub churn : AtMost t.max_churn_rate m.churn_rate
    pub proofs : AtLeast t.min_proof_pass_rate m.proof_pass_rate
    pub incidents : AtMost t.max_incident_rate m.incident_rate
    pub critical : m.open_critical_incidents ≤ℤ pos 0
    pub drawdown : NotBelow t.max_mean_drawdown_pct m.mean_max_drawdown_pct

  -- What a promotion into a live stage needs besides.
  pub record IsPaperProven (m : ReadinessMetrics F) (t : ReadinessThresholds F) : Type 0 where
    pub orders : t.min_paper_orders_for_live ≤ℤ m.paper_orders_total
    pub fills : AtLeast t.min_paper_fill_quality_rate m.paper_fill_quality_rate
    pub slippage : NotAboveIfKnown t.max_mean_slippage_bps m.mean_slippage_bps

  -- The approval is for this very step, active and unexpired.
  pub record IsApproved (input : ReadinessInput F) (to : AutomationStage) (a : PromotionApproval)
      : Type 0 where
    pub from_here : a.from_stage ≡ input.current_stage
    pub to_there : a.to_stage ≡ to
    pub active : a.status ≡ "approved"
    pub current : expired a.expires_at input.now ≡ false

  -- A readiness decision is positive for exactly these inputs.
  pub record IsReady (input : ReadinessInput F) : Type 0 where
    pub to : AutomationStage
    pub approval : PromotionApproval
    pub next : next_stage input.current_stage ≡ some to
    pub given : input.approval ≡ some approval
    pub approved : IsApproved input to approval
    pub proven : IsProven input.metrics input.thresholds
    pub live : (is_live_capable to ≡ false) ⊎ IsPaperProven input.metrics input.thresholds

  require_min-eq-nil : (o : Option F) (t : F) (r : String) → (require_min o t r ≡ []) ↔ AtLeast t o
  unfolding require_min
  require_min-eq-nil none t r = (λ e. cc, λ h. absurd h)
  require_min-eq-nil (some v) t r = when-eq-nil _ r

  require_max-eq-nil : (o : Option F) (t : F) (r : String) → (require_max o t r ≡ []) ↔ AtMost t o
  unfolding require_max
  require_max-eq-nil none t r = (λ e. cc, λ h. absurd h)
  require_max-eq-nil (some v) t r = when-eq-nil _ r

  drawdown_blockers-eq-nil : (o : Option F) (t : F) → (drawdown_blockers o t ≡ []) ↔ NotBelow t o
  unfolding drawdown_blockers
  drawdown_blockers-eq-nil none t = (λ e. cc, λ h. absurd h)
  drawdown_blockers-eq-nil (some v) t = when-eq-nil _ _

  slippage_blockers-eq-nil :
      (o : Option F) (t : F) → (slippage_blockers o t ≡ []) ↔ NotAboveIfKnown t o
  unfolding slippage_blockers
  slippage_blockers-eq-nil none t = (λ e. tt, λ h. refl)
  slippage_blockers-eq-nil (some v) t = when-eq-nil _ _

  pub live_blockers-eq-nil :
      (m : ReadinessMetrics F) (t : ReadinessThresholds F)
      → (live_blockers m t ≡ []) ↔ IsPaperProven m t
  unfolding live_blockers
  live_blockers-eq-nil m t = (
    λ e.
        let (orders, rest) = (flatten-eq-nil (live_pushed m t)).0 e in
        record {
          orders = (when-ltb-eq-nil m.paper_orders_total t.min_paper_orders_for_live _).0 orders;
          fills = (require_min-eq-nil m.paper_fill_quality_rate _ _).0 rest.0;
          slippage = (slippage_blockers-eq-nil m.mean_slippage_bps _).0 rest.1.0;
        },
    λ p. (flatten-eq-nil (live_pushed m t)).1 (
      (when-ltb-eq-nil m.paper_orders_total t.min_paper_orders_for_live _).1 p.orders,
      (
        (require_min-eq-nil m.paper_fill_quality_rate _ _).1 p.fills,
        ((slippage_blockers-eq-nil m.mean_slippage_bps _).1 p.slippage, tt),
      ),
    ),
  )

  check_approval-IsApproved :
      (input : ReadinessInput F) (to : AutomationStage) (a : PromotionApproval)
      → (check_approval input (some to) (some a)).0 ≡ true
      → IsApproved input to a
  unfolding check_approval
  check_approval-IsApproved input to a h = ground (
    arith,
    stage_eq_iff a.from_stage input.current_stage,
    stage_eq_iff a.to_stage to,
    eq_iff a.status "approved",
  )

  pub check_approval_of_IsApproved :
      (input : ReadinessInput F) (to : AutomationStage) (a : PromotionApproval)
      → IsApproved input to a
      → check_approval input (some to) (some a) ≡ (true, [])
  unfolding check_approval
  check_approval_of_IsApproved input to a h = ground (
    arith,
    stage_eq_iff a.from_stage input.current_stage,
    stage_eq_iff a.to_stage to,
    eq_iff a.status "approved",
  )

  pub metric_pushed-IsProven :
      (m : ReadinessMetrics F) (t : ReadinessThresholds F)
      → All (λ xs. xs ≡ []) (metric_pushed m t) ↔ IsProven m t
  metric_pushed-IsProven m t = (
    λ (
      outcomes,
      (signal, (forward, (baseline, (churn, (proofs, (incidents, (critical, (drawdown, _)))))))),
    ).
        record {
          outcomes =
              (when-ltb-eq-nil m.directional_outcomes_scored t.min_directional_outcomes _).0
                outcomes;
          signal = (require_min-eq-nil m.signal_quality_rate _ _).0 signal;
          forward = (require_min-eq-nil m.mean_forward_return_pct _ _).0 forward;
          baseline = (require_min-eq-nil m.baseline_excess_return_pct _ _).0 baseline;
          churn = (require_max-eq-nil m.churn_rate _ _).0 churn;
          proofs = (require_min-eq-nil m.proof_pass_rate _ _).0 proofs;
          incidents = (require_max-eq-nil m.incident_rate _ _).0 incidents;
          critical = (when-ltb-eq-nil (pos 0) m.open_critical_incidents _).0 critical;
          drawdown = (drawdown_blockers-eq-nil m.mean_max_drawdown_pct _).0 drawdown;
        },
    λ p. (
      (when-ltb-eq-nil m.directional_outcomes_scored t.min_directional_outcomes _).1 p.outcomes,
      (
        (require_min-eq-nil m.signal_quality_rate _ _).1 p.signal,
        (
          (require_min-eq-nil m.mean_forward_return_pct _ _).1 p.forward,
          (
            (require_min-eq-nil m.baseline_excess_return_pct _ _).1 p.baseline,
            (
              (require_max-eq-nil m.churn_rate _ _).1 p.churn,
              (
                (require_min-eq-nil m.proof_pass_rate _ _).1 p.proofs,
                (
                  (require_max-eq-nil m.incident_rate _ _).1 p.incidents,
                  (
                    (when-ltb-eq-nil (pos 0) m.open_critical_incidents _).1 p.critical,
                    ((drawdown_blockers-eq-nil m.mean_max_drawdown_pct _).1 p.drawdown, tt),
                  ),
                ),
              ),
            ),
          ),
        ),
      ),
    ),
  )

  pub check_approval-true :
      (input : ReadinessInput F) (o : Option AutomationStage) (p : Option PromotionApproval)
      → (check_approval input o p).0 ≡ true
      → (to : AutomationStage) × (a : PromotionApproval) × (o ≡ some to)
        × (p ≡ some a)
        × IsApproved input to a
  unfolding check_approval
  check_approval-true input none p h = absurd (false≢true h)
  check_approval-true input (some to) none h = absurd (false≢true h)
  check_approval-true input (some to) (some a) h =
      (to, a, refl, refl, check_approval-IsApproved input to a h)
