-- ===== src/Thesis/Report.antt =====
-- What a substance report of src/thesis/substance.rs says of the promotions.
use stocks.Base.{
  ◌+◌, ◌<◌, ◌≡◌, ◌≢◌, refl, sym, ◌∙◌, ◌↔◌, Bool, true, not, ◌||◌, is_some, Option, none, some,
  arith, length, if◌then◌else◌,
}
use stocks.Thesis.{
  ThesisState, Thesis, has_one, missing_of, missing, blocked_at_of, substance_report, is_complete,
  promotion_allowed, ok,
}
use stocks.Thesis.Promotion.{HasSlots, IsEdge, rank, promotion_allowed_iff}

-- The first unfilled slot in the order of the lifecycle.
blocked_at-missing_of :
    (a b c e f g : Bool)
    → blocked_at_of (missing_of a b c e f g) ≡ (
        if not a || not b
        then some ThesisState.building_conviction
        else if not e || not c
        then some ThesisState.armed
        else if not f
        then some ThesisState.actionable
        else if not g
        then some ThesisState.exiting
        else none)
unfolding blocked_at_of missing_of
blocked_at-missing_of a b c e f g = ground arith

length-missing_of : (a b c e f g : Bool) → length (missing_of a b c e f g) < 7
unfolding missing_of
length-missing_of a b c e f g = ground arith

-- The state before one in the lifecycle.
abbrev before : ThesisState → ThesisState
before ThesisState.armed = ThesisState.building_conviction
before ThesisState.actionable = ThesisState.armed
before ThesisState.position_open = ThesisState.actionable
before ThesisState.exiting = ThesisState.position_open
before ThesisState.closed = ThesisState.exiting
before _ = ThesisState.forming

module _ {V : Type 0} where
  -- For every thesis, the score and the number of missing slots add up to six.
  substance_report-score :
      (t : Thesis V) → (substance_report t).score + length (substance_report t).missing ≡ 6
  unfolding substance_report
  substance_report-score t = ground (
    arith,
    length-missing_of t.forecast_present (has_one t.conviction) (has_one t.trigger)
        (has_one t.invalidation) t.intended_size_present (has_one t.fulfillment),
  )

  slots-blocked_at :
      (t : Thesis V) (s to : ThesisState)
      → blocked_at_of (missing t) ≡ some s
      → (rank to ≡ rank s → ¬ HasSlots to t) × (rank to < rank s → HasSlots to t)
  slots-blocked_at t s to h =
      let chain =
        sym (
          blocked_at-missing_of t.forecast_present (has_one t.conviction) (has_one t.trigger)
            (has_one t.invalidation) t.intended_size_present (has_one t.fulfillment))
        ∙ h in
      ground arith

  blocked_at-IsEdge :
      (t : Thesis V) (s : ThesisState) → blocked_at_of (missing t) ≡ some s → IsEdge (before s) s
  blocked_at-IsEdge t s h =
      let chain =
        sym (
          blocked_at-missing_of t.forecast_present (has_one t.conviction) (has_one t.trigger)
            (has_one t.invalidation) t.intended_size_present (has_one t.fulfillment))
        ∙ h in
      ground arith

  slots_complete :
      (t : Thesis V) (to : ThesisState) → blocked_at_of (missing t) ≡ none → HasSlots to t
  slots_complete t to h =
      let chain =
        sym (
          blocked_at-missing_of t.forecast_present (has_one t.conviction) (has_one t.trigger)
            (has_one t.invalidation) t.intended_size_present (has_one t.fulfillment))
        ∙ h in
      ground arith

  -- For every thesis and edge of the lifecycle, a report that names a state as blocked tells where the
  -- promotions stop: the edge into that state is refused, and every edge into an earlier one allowed.
  pub substance_report-blocked_at :
      (t : Thesis V) (s from to : ThesisState)
      → (substance_report t).blocked_at ≡ some s
      → IsEdge from to
      → (rank to ≡ rank s → promotion_allowed from to t ≢ ok)
        × (rank to < rank s → promotion_allowed from to t ≡ ok)
  unfolding substance_report
  substance_report-blocked_at t s from to h i =
      let slots = slots-blocked_at t s to h in
      (
        λ e k. slots.0 e ((promotion_allowed_iff from to t).0 k).1,
        λ l. (promotion_allowed_iff from to t).1 (i, slots.1 l),
      )

  -- For every thesis, the report is complete exactly when every edge of the lifecycle is allowed.
  is_complete_iff :
      (t : Thesis V)
      → (is_complete (substance_report t) ≡ true)
        ↔ ((from to : ThesisState) → IsEdge from to → promotion_allowed from to t ≡ ok)
  unfolding substance_report is_complete
  is_complete_iff t = (
    λ h from to i. (promotion_allowed_iff from to t).1 (i, slots_complete t to (none_of _ h)),
    λ all. every (blocked_at_of (missing t)) refl all,
  )
    where
      none_of : (o : Option ThesisState) → not (is_some o) ≡ true → o ≡ none
      none_of o h = ground arith

      every :
          (o : Option ThesisState)
          → blocked_at_of (missing t) ≡ o
          → ((from to : ThesisState) → IsEdge from to → promotion_allowed from to t ≡ ok)
          → not (is_some o) ≡ true
      every none e all = refl
      every (some s) e all = absurd (
          (slots-blocked_at t s s e).0 refl
            ((promotion_allowed_iff (before s) s t).0
              (all (before s) s (blocked_at-IsEdge t s e))).1)
