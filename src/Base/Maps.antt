-- ===== src/Base/Maps.antt =====
-- `HashMap` as a list of its entries, in the order of its iteration. A key has one entry.
use stocks.Base.{
  String, ◌≡◌, refl, ◌∙◌, inl, inr, Option, none, some, List, [], ◌∷◌, if◌then◌else◌, str_eq,
  eq_iff, true, Bool-cases, All, arith,
}
use mathlib.Core.Option.{some-injective}

str_eq_refl : (s : String) → str_eq s s ≡ true
str_eq_refl s = (eq_iff s s).1 refl

module _ {A : Type 0} where
  -- `get`.
  abbrev pub get : String → List (String × A) → Option A
  get key [] = none
  get key ((k, a) ∷ entries) = if str_eq k key then some a else get key entries

  -- `insert`, which replaces the value of a key that is there.
  unfoldable pub insert : String → A → List (String × A) → List (String × A)
  insert key a [] = (key, a) ∷ []
  insert key a ((k, b) ∷ entries) =
      let rest = insert key a entries in if str_eq k key then (key, a) ∷ entries else (k, b) ∷ rest

  -- No key comes twice.
  abbrev pub IsMap : List (String × A) → Type 0
  IsMap [] = Unit
  IsMap ((k, a) ∷ entries) = (get k entries ≡ none) × IsMap entries

  get-insert :
      (j key : String) (a : A) (entries : List (String × A))
      → get j (insert key a entries) ≡ (if str_eq key j then some a else get j entries)
  unfolding insert
  get-insert j key a [] = refl
  get-insert j key a ((k, b) ∷ entries) =
      ground (arith, get-insert j key a entries, eq_iff k key, eq_iff k j, eq_iff key j)

  pub insert-IsMap :
      (key : String) (a : A) (entries : List (String × A))
      → IsMap entries
      → IsMap (insert key a entries)
  unfolding insert
  insert-IsMap key a [] h = (refl, tt)
  insert-IsMap key a ((k, b) ∷ entries) h = elim (Bool-cases (str_eq k key)) [
    | inl e ↦ rw e (rw ((eq_iff k key).0 e) at h)
    | inr e ↦ rw e (
      get-insert k key a entries ∙ ground (arith, eq_iff k key, eq_iff key k, h.0),
      insert-IsMap key a entries h.1,
    )
  ]

  -- What holds of every value that `get` finds holds of every entry, and back.
  pub All-get :
      (P : String → A → Type 0) (entries : List (String × A))
      → IsMap entries
      → ((k : String) (a : A) → get k entries ≡ some a → P k a)
      → All (λ (e : String × A). P e.0 e.1) entries
  All-get P [] m h = tt
  All-get P ((k, a) ∷ entries) m h = (
    h k a (rw (str_eq_refl k) refl),
    All-get P entries m.1 (λ j b found. h j b (elsewhere j b found)),
  )
    where
      elsewhere : (j : String) (b : A) → get j entries ≡ some b → get j ((k, a) ∷ entries) ≡ some b
      elsewhere j b found = elim (Bool-cases (str_eq k j)) [
        | inl e ↦ let gone : get j entries ≡ none = rw (← (eq_iff k j).0 e) m.0 in cc
        | inr e ↦ rw e found
      ]

  pub get-All :
      (P : String → A → Type 0) (entries : List (String × A))
      → All (λ (e : String × A). P e.0 e.1) entries
      → (k : String) (a : A) → get k entries ≡ some a
      → P k a
  get-All P [] all k a h = cc
  get-All P ((j, b) ∷ entries) (p, all) k a h = elim (Bool-cases (str_eq j k)) [
    | inl e ↦
        let same : some b ≡ some a = rw e at h in
        rw (← (eq_iff j k).0 e, ← some-injective b a same) p
    | inr e ↦ get-All P entries all k a (rw e at h)
  ]
