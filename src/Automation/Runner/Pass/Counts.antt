-- ===== src/Automation/Runner/Pass/Counts.antt =====
-- The counters of a pass of src/automation/mod.rs.
use stocks.Base.{
  ℕ, ◌+◌, ◌≤◌, ◌≡◌, refl, List, [], ◌∷◌, Option, none, some, arith, Bool-cases, suc, inl, inr,
}
use stocks.Base.Lists.{length}
use mathlib.Core.Option.{some-injective}
use stocks.Float.{F64}
use stocks.Automation.Strategy.Types.{SerdeJson, SerdeFloat, StrategyFeatures, TechnicalFeature}
use stocks.Automation.Runner.Freshness.{SerdeBool}
use stocks.Automation.Runner.Pass.Types.{
  Chrono, AutomationStrategyCandidate, CandidateReads, Reconciliation, AutomationRunSummary,
  Outcome, refused, emitted, unchanged, blocked, failed,
}
use stocks.Automation.Runner.Pass.{
  run_candidate, without_features, counted, begun, run_from, run_once, empty, reconciled_in,
  emitted_in,
}

-- Every candidate is counted once, and so is every reconciliation.
pub record IsBalanced (evaluated : ℕ) (summary : AutomationRunSummary) : Type 0 where
  pub all_evaluated : summary.evaluated ≡ evaluated
  pub outcomes : summary.emitted + summary.unchanged + summary.blocked ≡ evaluated
  pub reconciliations :
      summary.reconciled + summary.reconciliation_incidents + summary.duplicate_reconciliations
      ≡ summary.emitted
  pub featureless : summary.no_features ≤ evaluated

module _ {F : Type 0} where
  without_features_bound :
      (technical : Option (TechnicalFeature F)) (m n : ℕ)
      → m ≤ n
      → without_features technical m ≤ suc n
  without_features_bound none m n h = omega arith
  without_features_bound (some technical) m n h = omega arith

reconciled_in-IsBalanced :
    (n : ℕ) (r : Reconciliation) (before : AutomationRunSummary)
    → IsBalanced n before
    → (features : ℕ) → features ≤ suc n
    → IsBalanced (suc n) (
        emitted_in (
          reconciled_in r
            (record before { evaluated = suc before.evaluated; no_features = features })))
reconciled_in-IsBalanced n r before h features le = elim (Bool-cases r.duplicate) [
  | inl e ↦ rw e (record {
    all_evaluated = omega (arith, h.all_evaluated);
    outcomes = omega (arith, h.outcomes);
    reconciliations = omega (arith, h.reconciliations);
    featureless = le;
  })
  | inr e ↦ elim (Bool-cases r.incident) [
    | inl i ↦
        rw (e, i)
          (record {
            all_evaluated = omega (arith, h.all_evaluated);
            outcomes = omega (arith, h.outcomes);
            reconciliations = omega (arith, h.reconciliations);
            featureless = le;
          })
    | inr i ↦
        rw (e, i)
          (record {
            all_evaluated = omega (arith, h.all_evaluated);
            outcomes = omega (arith, h.outcomes);
            reconciliations = omega (arith, h.reconciliations);
            featureless = le;
          })
  ]
]

module _ {F : Type 0} where
  counted-IsBalanced :
      (n : ℕ) (r : Reconciliation) (outcome : Outcome F) (features : StrategyFeatures F)
      (before after : AutomationRunSummary)
      → IsBalanced n before
      → counted r outcome (begun features before) ≡ some after
      → IsBalanced (suc n) after
  counted-IsBalanced n r (refused write) features before after h e =
      let same = some-injective _ _ e in
      rw (← same) (record {
        all_evaluated = omega (arith, h.all_evaluated);
        outcomes = omega (arith, h.outcomes);
        reconciliations = h.reconciliations;
        featureless = without_features_bound features.technical before.no_features n h.featureless;
      })
  counted-IsBalanced n r (emitted write) features before after h e =
      let same = some-injective _ _ e in
      rw (← same) (
        reconciled_in-IsBalanced n r before h (begun features before).no_features
          (without_features_bound features.technical before.no_features n h.featureless))
  counted-IsBalanced n r unchanged features before after h e =
      let same = some-injective _ _ e in
      rw (← same) (record {
        all_evaluated = omega (arith, h.all_evaluated);
        outcomes = omega (arith, h.outcomes);
        reconciliations = h.reconciliations;
        featureless = without_features_bound features.technical before.no_features n h.featureless;
      })
  counted-IsBalanced n r blocked features before after h e =
      let same = some-injective _ _ e in
      rw (← same) (record {
        all_evaluated = omega (arith, h.all_evaluated);
        outcomes = omega (arith, h.outcomes);
        reconciliations = h.reconciliations;
        featureless = without_features_bound features.technical before.no_features n h.featureless;
      })
  counted-IsBalanced n r failed features before after h e = cc

module _ {V F : Type 0} ⦃d : F64 F⦄ ⦃j : SerdeJson V⦄ ⦃f : SerdeFloat V F⦄ ⦃b : SerdeBool V⦄
    (chrono : Chrono) where
  -- The pass keeps the balance from any summary on.
  abbrev KeepsBalance : List (AutomationStrategyCandidate V F × CandidateReads F) → Type 0
  KeepsBalance candidates =
      (n : ℕ) (before after : AutomationRunSummary)
      → IsBalanced n before
      → run_from chrono candidates (some before) ≡ some after
      → IsBalanced (n + length candidates) after

  continued :
      (candidates : List (AutomationStrategyCandidate V F × CandidateReads F))
      → KeepsBalance candidates
      → (n : ℕ) (reads : CandidateReads F) (outcome : Outcome F) (mid : Option AutomationRunSummary)
        (before after : AutomationRunSummary)
      → IsBalanced n before
      → counted reads.reconciliation outcome (begun reads.features before) ≡ mid
      → run_from chrono candidates mid ≡ some after
      → IsBalanced (suc n + length candidates) after
  unfolding run_from
  continued candidates keeps n reads outcome none before after h c e = cc
  continued candidates keeps n reads outcome (some mid) before after h c e =
      keeps (suc n) mid after
        (counted-IsBalanced n reads.reconciliation outcome reads.features before mid h c) e

  run_from-IsBalanced :
      (candidates : List (AutomationStrategyCandidate V F × CandidateReads F))
      → KeepsBalance candidates
  unfolding run_from
  run_from-IsBalanced [] n before after h e =
      let same = some-injective _ _ e in
      let none_left : n + 0 ≡ n = omega arith in rw (← same, none_left) h
  run_from-IsBalanced ((candidate, reads) ∷ candidates) n before after h e =
      let one_more : n + suc (length candidates) ≡ suc n + length candidates = omega arith in
      rw one_more (
        continued candidates (run_from-IsBalanced candidates) n reads
          (run_candidate chrono candidate reads) _ before after h refl e)

  -- A pass that does not end in an error has evaluated every candidate, and each is counted once as
  -- emitted, unchanged or blocked; each emitted one is counted once as reconciled, as an incident of
  -- the reconciliation or as a duplicate.
  pub run_once-IsBalanced :
      (candidates : List (AutomationStrategyCandidate V F × CandidateReads F))
      (summary : AutomationRunSummary)
      → run_once chrono candidates ≡ some summary
      → IsBalanced (length candidates) summary
  unfolding run_once
  run_once-IsBalanced candidates summary e =
      let from_nought : 0 + length candidates ≡ length candidates = omega arith in
      rw (← from_nought) (
        run_from-IsBalanced candidates 0 empty summary
          (record {
            all_evaluated = refl;
            outcomes = refl;
            reconciliations = refl;
            featureless = omega arith;
          })
          e)
