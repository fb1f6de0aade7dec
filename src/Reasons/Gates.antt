-- ===== src/Reasons/Gates.antt =====
-- When a step of a gate pushes no reason: one lemma for each form that the tests of src/automation take.
use stocks.Base.{
  ◌≡◌, ◌≢◌, refl, ◌↔◌, ◌⊎◌, inl, inr, Bool, true, false, not, ◌||◌, List, [], ◌∷◌, map, String,
  str_eq, eq_iff, arith, if◌then◌else◌,
}
use stocks.Reasons.{when}

-- A list that is pushed under a test.
pub given-eq-nil :
    (b : Bool) (xs : List String) → ((if b then xs else []) ≡ []) ↔ ((b ≡ false) ⊎ (xs ≡ []))
given-eq-nil true xs = (λ e. inr e, λ h. elim h [ inl e ↦ absurd (cc) | inr e ↦ e ])
given-eq-nil false xs = (λ e. inl refl, λ h. refl)

pub map-eq-nil : (f : String → String) (xs : List String) → (map f xs ≡ []) ↔ (xs ≡ [])
map-eq-nil f [] = (λ e. refl, λ e. refl)
map-eq-nil f (x ∷ xs) = (λ e. absurd (cc), λ e. absurd (cc))

pub when_or-eq-nil :
    (a : Bool) (status word reason : String)
    → (when (a || str_eq status word) reason ≡ []) ↔ ((a ≡ false) × (¬ (status ≡ word)))
when_or-eq-nil a status word reason = ground (arith, eq_iff status word)

pub when-not-eq-nil : (a : Bool) (reason : String) → (when (not a) reason ≡ []) ↔ (a ≡ true)
when-not-eq-nil a reason = ground arith

pub when_word-eq-nil :
    (status word reason : String) → (when (str_eq status word) reason ≡ []) ↔ (¬ (status ≡ word))
when_word-eq-nil status word reason = ground (arith, eq_iff status word)

pub when_unless-eq-nil :
    (status word reason : String) → (when (not (str_eq status word)) reason ≡ []) ↔ (status ≡ word)
when_unless-eq-nil status word reason = ground (arith, eq_iff status word)

pub when_differ-eq-nil :
    (a b x y reason : String)
    → (when (not (str_eq a b) || not (str_eq x y)) reason ≡ []) ↔ ((a ≡ b) × (x ≡ y))
when_differ-eq-nil a b x y reason = ground (arith, eq_iff a b, eq_iff x y)

pub when_either-eq-nil :
    (a b x y reason : String) → when (str_eq a b || str_eq x y) reason ≡ [] → (a ≢ b) × (x ≢ y)
when_either-eq-nil a b x y reason h = ground (arith, eq_iff a b, eq_iff x y)
