-- ===== src/Automation/Strategy/Weight.antt =====
-- How much a strategy of src/automation/mod.rs wants to hold.
use stocks.Base.{◌≡◌, false, Option, none, some, is_empty, Bool-cases, inl, inr}
use mathlib.Core.Option.{some-injective}
use mathlib.Core.Path.{subst}
use stocks.Float.{F64, IsIeee, nought, one}
use stocks.Automation.Policy.Types.{TargetSide, flat}
use stocks.Automation.Simulator.Legs.{side_eq}
use stocks.Float.Clamp.{clamp_bounds}
use stocks.Automation.Strategy.{
  common_blocked_reasons, target_intent, target_weight, weight_of, blocked_decision, decide,
  evaluate_strategy,
}
use stocks.Automation.Strategy.Types.{
  SerdeJson, SerdeFloat, StrategyEvaluationInput, Targeting, ok, err,
}

module _ {F : Type 0} ⦃d : F64 F⦄ where
  -- Neither below nought nor above one.
  abbrev pub IsWeight : F → Type 0
  IsWeight w = (d.lt w nought ≡ false) × (d.lt one w ≡ false)

module _ {F : Type 0} ⦃d : F64 F⦄ (ieee : IsIeee d) where
  nought-IsWeight : IsWeight {F = F} nought
  nought-IsWeight = (
    ieee.lt_irrefl nought,
    ieee.not_lt_of_le nought one (ieee.le_of_lt nought one ieee.zero_lt_one),
  )

module _ {V F : Type 0} ⦃d : F64 F⦄ ⦃j : SerdeJson V⦄ ⦃f : SerdeFloat V F⦄ (ieee : IsIeee d) where
  target_weight-IsWeight : (input : StrategyEvaluationInput V F) → IsWeight (target_weight input)
  unfolding target_weight
  target_weight-IsWeight input = clamp_bounds ieee nought one _ ieee.zero_lt_one

  weight_of-IsWeight :
      (input : StrategyEvaluationInput V F) (side : TargetSide) (w : F)
      → weight_of input side ≡ some w
      → IsWeight w
  weight_of-IsWeight input side w h = elim (Bool-cases (side_eq side flat)) [
    | inl e ↦ subst IsWeight (some-injective nought w (rw e at h)) (nought-IsWeight ieee)
    | inr e ↦
        subst IsWeight (some-injective (target_weight input) w (rw e at h))
          (target_weight-IsWeight input)
  ]

  decide-IsWeight :
      (input : StrategyEvaluationInput V F) (x : Targeting) (w : F)
      → (decide input x).target_weight_pct ≡ some w
      → IsWeight w
  unfolding decide blocked_decision
  decide-IsWeight input (err reasons) w h = absurd (cc)
  decide-IsWeight input (ok i) w h = weight_of-IsWeight input i.side w h

  -- Under IEEE comparison, for every input, whatever the permission and the configuration say, the
  -- weight of a decision is neither below 0 nor above 1.
  pub evaluate_strategy-IsWeight :
      (input : StrategyEvaluationInput V F) (w : F)
      → (evaluate_strategy input).target_weight_pct ≡ some w
      → IsWeight w
  unfolding evaluate_strategy blocked_decision
  evaluate_strategy-IsWeight input w h =
      elim (Bool-cases (is_empty (common_blocked_reasons input))) [
        | inl e ↦ decide-IsWeight input (target_intent input) w (rw e at h)
        | inr e ↦ absurd (none_of (rw e at h))
      ]
    where
      none_of : ◌≡◌ {A = Option F} none (some w) → ⊥
      none_of k = cc
