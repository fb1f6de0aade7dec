-- ===== src/Reasons/Laws.antt =====
-- Sorting and removing duplicates changes the order of the reasons and nothing else.
use stocks.Base.{
  ◌≡◌, ◌↔◌, inl, inr, true, false, List, [], ◌∷◌, String, str_eq, eq_iff, In, Bool-cases,
  eq-nil_of_In, sym, Bool, refl, ◌&&◌, arith, any, any_of_In, In-of_any,
}
use mathlib.Core.Path.{subst}
use stocks.Base.Int.{ℤ, ltb_ℤ, ◌≤ℤ◌}
use stocks.Base.Text.{str_leb, str_leb_total}
use stocks.Reasons.{when, insert, sort, dedup_from, dedup, sort_dedup}

In-insert : (a x : String) (ys : List String) → In a (insert x ys) ↔ In a (x ∷ ys)
unfolding insert
In-insert a x [] = (λ h. h, λ h. h)
In-insert a x (y ∷ ys) = elim (Bool-cases (str_leb x y)) [
  | inl e ↦ rw e (λ h. h, λ h. h)
  | inr e ↦ rw e (
    λ h. elim h [
      | inl p ↦ inr (inl p)
      | inr q ↦ elim ((In-insert a x ys).0 q) [ inl p ↦ inl p | inr r ↦ inr (inr r) ]
    ],
    λ h. elim h [
      | inl p ↦ inr ((In-insert a x ys).1 (inl p))
      | inr q ↦ elim q [ inl p ↦ inl p | inr r ↦ inr ((In-insert a x ys).1 (inr r)) ]
    ],
  )
]

In-sort : (a : String) (xs : List String) → In a (sort xs) ↔ In a xs
unfolding sort
In-sort a [] = (λ h. h, λ h. h)
In-sort a (x ∷ xs) = (
  λ h. elim ((In-insert a x (sort xs)).0 h) [ inl p ↦ inl p | inr q ↦ inr ((In-sort a xs).0 q) ],
  λ h. (In-insert a x (sort xs)).1 (elim h [ inl p ↦ inl p | inr q ↦ inr ((In-sort a xs).1 q) ]),
)

In-dedup_from : (a x : String) (ys : List String) → In a (dedup_from x ys) ↔ In a (x ∷ ys)
unfolding dedup_from
In-dedup_from a x [] = (λ h. h, λ h. h)
In-dedup_from a x (y ∷ ys) = elim (Bool-cases (str_eq x y)) [
  | inl e ↦
      rw (e, dedup_from)
        (
          λ h. elim ((In-dedup_from a x ys).0 h) [ inl p ↦ inl p | inr q ↦ inr (inr q) ],
          λ h. (In-dedup_from a x ys).1 (elim h [
            | inl p ↦ inl p
            | inr q ↦ elim q [ inl p ↦ inl (rw ((eq_iff x y).0 e) p) | inr r ↦ inr r ]
          ]),
        )
  | inr e ↦
      rw (e, dedup_from)
        (
          λ h. elim h [ inl p ↦ inl p | inr q ↦ inr ((In-dedup_from a y ys).0 q) ],
          λ h. elim h [ inl p ↦ inl p | inr q ↦ inr ((In-dedup_from a y ys).1 q) ],
        )
]

In-dedup : (a : String) (xs : List String) → In a (dedup xs) ↔ In a xs
unfolding dedup
In-dedup a [] = (λ h. h, λ h. h)
In-dedup a (x ∷ xs) = In-dedup_from a x xs

In-sort_dedup : (a : String) (xs : List String) → In a (sort_dedup xs) ↔ In a xs
unfolding sort_dedup
In-sort_dedup a xs = (
  λ h. (In-sort a xs).0 ((In-dedup a (sort xs)).0 h),
  λ h. (In-dedup a (sort xs)).1 ((In-sort a xs).1 h),
)

pub sort_dedup-eq-nil : (xs : List String) → (sort_dedup xs ≡ []) ↔ (xs ≡ [])
sort_dedup-eq-nil xs = (
  λ e. eq-nil_of_In xs (λ a m. absurd (rw e at ((In-sort_dedup a xs).1 m))),
  λ e. rw e (sort_dedup-nil),
)
  where
    sort_dedup-nil : sort_dedup [] ≡ []
    sort_dedup-nil = eq-nil_of_In _ (λ a m. (In-sort_dedup a []).0 m)

-- Each entry is at most the next one.
abbrev Chain : String → List String → Type 0
Chain x [] = Unit
Chain x (y ∷ ys) = (str_leb x y ≡ true) × Chain y ys

abbrev IsSorted : List String → Type 0
IsSorted [] = Unit
IsSorted (x ∷ xs) = Chain x xs

-- Each entry is below the next one.
abbrev pub StrictChain : String → List String → Type 0
StrictChain x [] = Unit
StrictChain x (y ∷ ys) = (str_leb x y ≡ true) × (str_eq x y ≡ false) × StrictChain y ys

abbrev pub IsStrictlySorted : List String → Type 0
IsStrictlySorted [] = Unit
IsStrictlySorted (x ∷ xs) = StrictChain x xs

insert-Chain :
    (w x : String) (ys : List String) → str_leb w x ≡ true → Chain w ys → Chain w (insert x ys)
unfolding insert
insert-Chain w x [] h c = (h, tt)
insert-Chain w x (y ∷ ys) h c = elim (Bool-cases (str_leb x y)) [
  | inl e ↦ rw e (h, (e, c.1))
  | inr e ↦ rw e (c.0, insert-Chain y x ys (after e) c.1)
]
  where
    after : str_leb x y ≡ false → str_leb y x ≡ true
    after e = elim (str_leb_total x y) [ inl p ↦ cc | inr q ↦ q ]

insert-IsSorted : (x : String) (ys : List String) → IsSorted ys → IsSorted (insert x ys)
unfolding insert
insert-IsSorted x [] c = tt
insert-IsSorted x (y ∷ ys) c = elim (Bool-cases (str_leb x y)) [
  | inl e ↦ rw e (e, c)
  | inr e ↦ rw e (insert-Chain y x ys (after e) c)
]
  where
    after : str_leb x y ≡ false → str_leb y x ≡ true
    after e = elim (str_leb_total x y) [ inl p ↦ cc | inr q ↦ q ]

sort-IsSorted : (xs : List String) → IsSorted (sort xs)
unfolding sort
sort-IsSorted [] = tt
sort-IsSorted (x ∷ xs) = insert-IsSorted x (sort xs) (sort-IsSorted xs)

dedup_from-StrictChain :
    (w x : String) (ys : List String)
    → str_leb w x ≡ true
    → str_eq w x ≡ false
    → Chain x ys
    → StrictChain w (dedup_from x ys)
unfolding dedup_from
dedup_from-StrictChain w x [] h k c = (h, k, tt)
dedup_from-StrictChain w x (y ∷ ys) h k c = elim (Bool-cases (str_eq x y)) [
  | inl e ↦ rw (e, dedup_from) (dedup_from-StrictChain w x ys h k (same e))
  | inr e ↦ rw (e, dedup_from) (h, k, dedup_from-StrictChain x y ys c.0 e c.1)
]
  where
    same : str_eq x y ≡ true → Chain x ys
    same e = subst (λ z. Chain z ys) (sym ((eq_iff x y).0 e)) c.1

dedup_from-IsStrictlySorted :
    (x : String) (ys : List String) → Chain x ys → IsStrictlySorted (dedup_from x ys)
unfolding dedup_from
dedup_from-IsStrictlySorted x [] c = tt
dedup_from-IsStrictlySorted x (y ∷ ys) c = elim (Bool-cases (str_eq x y)) [
  | inl e ↦ rw (e, dedup_from) (dedup_from-IsStrictlySorted x ys (same e))
  | inr e ↦ rw (e, dedup_from) (dedup_from-StrictChain x y ys c.0 e c.1)
]
  where
    same : str_eq x y ≡ true → Chain x ys
    same e = subst (λ z. Chain z ys) (sym ((eq_iff x y).0 e)) c.1

dedup-IsStrictlySorted : (xs : List String) → IsSorted xs → IsStrictlySorted (dedup xs)
unfolding dedup
dedup-IsStrictlySorted [] c = tt
dedup-IsStrictlySorted (x ∷ xs) c = dedup_from-IsStrictlySorted x xs c

-- For every list of reasons, sorting it and removing adjacent duplicates gives a list in strictly
-- increasing byte order, so one without repetition, with the same members.
sort_dedup_lem :
    (xs : List String)
    → IsStrictlySorted (sort_dedup xs) × ((a : String) → In a (sort_dedup xs) ↔ In a xs)
unfolding sort_dedup
sort_dedup_lem xs = (dedup-IsStrictlySorted (sort xs) (sort-IsSorted xs), λ a. In-sort_dedup a xs)

-- So a search through the reasons does not see that they were sorted.
pub any-sort_dedup : (p : String → Bool) (xs : List String) → any p (sort_dedup xs) ≡ any p xs
any-sort_dedup p xs = elim (Bool-cases (any p xs)) [
  | inl e ↦
      let (a, m, h) = In-of_any p xs e in
      rw e (any_of_In p a (sort_dedup xs) ((In-sort_dedup a xs).1 m) h)
  | inr e ↦ elim (Bool-cases (any p (sort_dedup xs))) [
    | inl k ↦
        let (a, m, h) = In-of_any p (sort_dedup xs) k in
        let found = any_of_In p a xs ((In-sort_dedup a xs).0 m) h in cc
    | inr k ↦ rw (k, e)
  ]
]

pub when-eq-nil : (b : Bool) (r : String) → (when b r ≡ []) ↔ (b ≡ false)
when-eq-nil true r = (λ e. cc, λ e. cc)
when-eq-nil false r = (λ e. refl, λ e. refl)

any-when : (p : String → Bool) (b : Bool) (r : String) → any p (when b r) ≡ (b && p r)
any-when p true r = ground arith
any-when p false r = refl

pub when-ltb-eq-nil : (a b : ℤ) (r : String) → (when (ltb_ℤ a b) r ≡ []) ↔ (b ≤ℤ a)
when-ltb-eq-nil a b r = (
  λ e. let h = (when-eq-nil (ltb_ℤ a b) r).0 e in ground arith,
  λ h. (when-eq-nil (ltb_ℤ a b) r).1 (ground arith),
)
