-- ===== src/Thesis/Promotion.antt =====
-- The promotions of a thesis that src/thesis/substance.rs allows, one by one and in sequence.
use mathlib.Core.Bool.{false≢true}
use stocks.Base.{
  ℕ, suc, ◌+◌, ◌<◌, Bool-cases, ◌≡◌, refl, sym, ◌∙◌, ◌↔◌, ◌⊎◌, inl, inr, Bool, true, false, not,
  List, [], ◌∷◌, String, arith, keep,
}
use stocks.Thesis.{
  ThesisState, forming, building_conviction, armed, actionable, position_open, exiting, closed,
  disqualified, Thesis, has_one, missing_of, missing, names, edge, ok, verdict_of, substance_report,
  promotion_allowed,
}

-- The slots that a promotion into a state asks for.
abbrev pub HasSlots : {V : Type 0} → ThesisState → Thesis V → Type 0
HasSlots building_conviction t = (t.forecast_present ≡ true) × (has_one t.conviction ≡ true)
HasSlots armed t = (has_one t.invalidation ≡ true) × (has_one t.trigger ≡ true)
HasSlots actionable t = t.intended_size_present ≡ true
HasSlots exiting t = has_one t.fulfillment ≡ true
HasSlots _ t = Unit

-- The place of a state in the lifecycle; `disqualified` is the last.
abbrev pub rank : ThesisState → ℕ
rank forming = 0
rank building_conviction = 1
rank armed = 2
rank actionable = 3
rank position_open = 4
rank exiting = 5
rank closed = 6
rank disqualified = 7

-- The edges of the lifecycle: one place on, or out of it from any state but `disqualified` itself.
abbrev pub IsEdge : ThesisState → ThesisState → Type 0
IsEdge from to = ((rank to ≡ suc (rank from)) × (rank to < 7)) ⊎ ((rank to ≡ 7) × (rank from < 7))

rank_disqualified : (s : ThesisState) → rank s ≡ 7 → s ≡ disqualified
rank_disqualified s h = ground arith

verdict_of_iff : (xs : List String) → (verdict_of xs ≡ ok) ↔ (xs ≡ [])
unfolding verdict_of
verdict_of_iff [] = (λ h. refl, λ h. refl)
verdict_of_iff (x ∷ xs) = (λ h. cc, λ h. cc)

-- Which of the six names are missing.
names-missing_of :
    (a b c e f g : Bool)
    → (names "forecast" (missing_of a b c e f g) ≡ not a)
      × (names "conviction_conditions" (missing_of a b c e f g) ≡ not b)
      × (names "trigger_conditions" (missing_of a b c e f g) ≡ not c)
      × (names "invalidation_conditions" (missing_of a b c e f g) ≡ not e)
      × (names "intended_size" (missing_of a b c e f g) ≡ not f)
      × (names "fulfillment_conditions" (missing_of a b c e f g) ≡ not g)
unfolding missing_of
names-missing_of a b c e f g = ground arith

keep-one : (p : String → Bool) (x : String) → (keep p (x ∷ []) ≡ []) ↔ (p x ≡ false)
keep-one p x = ground arith

keep-two :
    (p : String → Bool) (x y : String)
    → (keep p (x ∷ y ∷ []) ≡ []) ↔ ((p x ≡ false) × (p y ≡ false))
keep-two p x y = ground arith

not-false : (b : Bool) → (not b ≡ false) ↔ (b ≡ true)
not-false b = ground arith

edge_iff : (from to : ThesisState) → ((edge from to).0 ≡ true) ↔ IsEdge from to
unfolding edge
edge_iff from to = ground arith

module _ {V : Type 0} where
  -- The slots that the table of edges lists, in terms of the thesis.
  lacking-eq-nil :
      (from to : ThesisState) (t : Thesis V)
      → (edge from to).0 ≡ true
      → (keep (λ f. names f (missing t)) (edge from to).1 ≡ []) ↔ HasSlots to t
  unfolding edge
  lacking-eq-nil from to t e = ground (
    arith,
    names-missing_of t.forecast_present (has_one t.conviction) (has_one t.trigger)
        (has_one t.invalidation) t.intended_size_present (has_one t.fulfillment),
  )

  -- For every thesis and pair of states, the promotion is allowed exactly when it is an edge of the
  -- lifecycle (one place on, or a disqualification from any other state) and the slots that the new
  -- state asks for are filled.
  pub promotion_allowed_iff :
      (from to : ThesisState) (t : Thesis V)
      → (promotion_allowed from to t ≡ ok) ↔ (IsEdge from to × HasSlots to t)
  unfolding promotion_allowed substance_report
  promotion_allowed_iff from to t = elim (Bool-cases (edge from to).0) [
    | inl e ↦ rw e (
      λ h. ((edge_iff from to).0 e, (lacking-eq-nil from to t e).0 ((verdict_of_iff _).0 h)),
      λ (i, s). (verdict_of_iff _).1 ((lacking-eq-nil from to t e).1 s),
    )
    | inr e ↦ rw e (λ h. cc, λ (i, s). absurd (false≢true (sym e ∙ (edge_iff from to).1 i)))
  ]

-- A sequence of allowed promotions, in which the thesis may be edited between any two.
pub data Promotions (V : Type 0) : ℕ → ThesisState → ThesisState → Type 0 where
  stay : (s : ThesisState) → Promotions V 0 s s
  promote :
      (n : ℕ) (s from to : ThesisState) (t : Thesis V)
      → Promotions V n s from
      → promotion_allowed from to t ≡ ok
      → Promotions V (suc n) s to

module _ {V : Type 0} where
  -- For every sequence of n allowed promotions, however the thesis is edited between them, the state
  -- reached is `disqualified` or lies exactly n places further on: none is skipped, repeated or left
  -- backwards.
  pub Promotions-rank :
      (n : ℕ) (s r : ThesisState) → Promotions V n s r → (r ≡ disqualified) ⊎ (rank r ≡ n + rank s)
  Promotions-rank n s r (stay _) = inr (omega arith)
  Promotions-rank n s r (promote m _ from to t p h) =
      let (i, _) = (promotion_allowed_iff from to t).0 h in
      ground (arith, Promotions-rank m s from p, rank_disqualified to)
