-- ===== src/Thesis/Tests.antt =====
-- Runs of the substance gate: a thesis without a size, and a complete one.
use stocks.Base.{
  ℕ, ◌+◌, ◌<◌, ◌≡◌, ◌≢◌, refl, ◌↔◌, ◌⊎◌, inl, Bool, true, false, [], ◌∷◌, none, some, arith,
}
use stocks.Base.Int.{pos}
use stocks.Thesis.{
  forming, building_conviction, armed, actionable, disqualified, Condition, Thesis, is_well_formed,
  substance_report, promotion_allowed, ok, missing_of, blocked_at_of,
}
use stocks.Thesis.Promotion.{
  IsEdge, HasSlots, rank, Promotions, stay, promote, promotion_allowed_iff, Promotions-rank,
}
use stocks.Thesis.Report.{substance_report-blocked_at}

abbrev measured : Condition ℕ
measured = record {
  name = "revenue";
  condition_type = "quantitative";
  expr = none;
  assertion = none;
  target = some 1_200;
  deadline_at = some (pos 0);
  evidence_source = some "EDGAR";
  status = "pending";
  last_checked_at = none;
  last_observed_value = none;
}

abbrev vague : Condition ℕ
vague = record measured { target = none }

abbrev thesis_with : Bool → Thesis ℕ
thesis_with sized = record {
  forecast_present = true;
  intended_size_present = sized;
  conviction = vague ∷ measured ∷ [];
  trigger = measured ∷ [];
  invalidation = measured ∷ [];
  fulfillment = measured ∷ [];
}

promotion_allowed_iff_example :
    (promotion_allowed building_conviction armed (thesis_with false) ≡ ok)
    ↔ (IsEdge building_conviction armed × HasSlots armed (thesis_with false))
promotion_allowed_iff_example = promotion_allowed_iff building_conviction armed (thesis_with false)

abbrev TwoSteps : Type 0
TwoSteps = Promotions ℕ 2 forming armed

climbed : TwoSteps
unfolding is_well_formed
climbed =
    promote 1 forming building_conviction armed (thesis_with false)
      (promote 0 forming forming building_conviction (thesis_with false) (stay forming) (
        (promotion_allowed_iff forming building_conviction (thesis_with false)).1
          (inl (refl, omega arith), (refl, refl))))
      ((promotion_allowed_iff building_conviction armed (thesis_with false)).1
        (inl (refl, omega arith), (refl, refl)))

Promotions-rank_example : (armed ≡ disqualified) ⊎ (rank armed ≡ 2 + rank forming)
Promotions-rank_example = Promotions-rank 2 forming armed climbed

blocked : (substance_report (thesis_with false)).blocked_at ≡ some actionable
unfolding substance_report is_well_formed missing_of blocked_at_of
blocked = refl

substance_report-blocked_at_example :
    (rank actionable ≡ rank actionable
      → promotion_allowed armed actionable (thesis_with false) ≢ ok)
    × (rank actionable < rank actionable
        → promotion_allowed armed actionable (thesis_with false) ≡ ok)
substance_report-blocked_at_example =
    substance_report-blocked_at (thesis_with false) actionable armed actionable blocked
      (inl (refl, omega arith))
