-- ===== src/Goalpost/Integrity.antt =====
-- When `analyze` of src/goalpost/mod.rs lets an update of the conditions pass.
use stocks.Base.{
  ◌≡◌, refl, ◌↔◌, String, Option, none, some, Bool, true, false, not, ◌||◌, List, [], ◌∷◌, ◌++◌,
  eq_iff, if◌then◌else◌, is_some, is_empty, All, arith, Bool-cases, inl, inr,
}
use stocks.Base.Maps.{get, insert, IsMap, insert-IsMap, All-get, get-All}
use stocks.Base.Trim.{is_nil}
use stocks.Float.{F64}
use stocks.Goalpost.Expr.{expr_is_looser_than}
use stocks.Goalpost.{
  Condition, quantitative, narrative, name, Named, collect, by_name, keys_lacking, change,
  loosened_by, review_by, changes_with, loosened_names, any_review, is_rewrite, analyze,
}

collect-IsMap : (entries : Named) (cs : List Condition) → IsMap entries → IsMap (collect entries cs)
unfolding collect
collect-IsMap entries [] h = h
collect-IsMap entries (c ∷ cs) h = elim (Bool-cases (is_nil (name c))) [
  | inl e ↦ rw e (collect-IsMap entries cs h)
  | inr e ↦ rw e (collect-IsMap (insert (name c) c entries) cs (insert-IsMap (name c) c entries h))
]

pub by_name-IsMap : (cs : List Condition) → IsMap (by_name cs)
unfolding by_name
by_name-IsMap cs = collect-IsMap [] cs tt

-- The parts of a joined verdict are clear apart.
clear_parts :
    (b : Bool) (n : String) (xs ys zs : List String) (p q : Bool)
    → (((if b then [] else n ∷ []) ++ xs ≡ []) × (ys ++ zs ≡ []) × ((p || q) ≡ false))
      ↔ (((b ≡ true) × (ys ≡ []) × (p ≡ false)) × ((xs ≡ []) × (zs ≡ []) × (q ≡ false)))
clear_parts b n xs [] zs p q = ground arith
clear_parts b n xs (y ∷ ys) zs p q = ground arith

-- A rewrite drops something.
not_rewrite :
    (original : List Condition) (added : List String) → is_rewrite original [] added ≡ false
not_rewrite [] added = refl
not_rewrite (c ∷ cs) added = ground arith

clear_verdict :
    (original : List Condition) (dropped loosened added : List String) (review : Bool)
    → (((not (is_empty dropped) || not (is_empty loosened)) ≡ false)
        × ((review || is_rewrite original dropped added) ≡ false))
      ↔ ((dropped ≡ []) × (loosened ≡ []) × (review ≡ false))
clear_verdict original [] [] added review = ground (arith, not_rewrite original added)
clear_verdict original [] (l ∷ ls) added review = ground arith
clear_verdict original (x ∷ xs) loosened added review = ground arith

module _ {F : Type 0} ⦃d : F64 F⦄ (parse : String → Option F) where
  -- The condition is still there: with the same assertion, or with an expression not looser.
  abbrev pub Stays : Condition → Option Condition → Type 0
  Stays oc none = ⊥
  Stays (quantitative n oe) (some (quantitative m ue)) = expr_is_looser_than parse ue oe ≡ false
  Stays (narrative n oa) (some (narrative m ua)) = oa ≡ ua
  Stays (quantitative n oe) (some (narrative m ua)) = ⊥
  Stays (narrative n oa) (some (quantitative m ue)) = ⊥

  change-Stays :
      (n : String) (oc : Condition) (u : Option Condition)
      → ((is_some u ≡ true)
          × (loosened_by n (change parse oc u) ≡ [])
          × (review_by (change parse oc u) ≡ false))
        ↔ Stays oc u
  unfolding change
  change-Stays n oc none = ground arith
  change-Stays n (quantitative k oe) (some (quantitative m ue)) = ground arith
  change-Stays n (narrative k oa) (some (narrative m ua)) = ground (arith, eq_iff oa ua)
  change-Stays n (quantitative k oe) (some (narrative m ua)) = ground arith
  change-Stays n (narrative k oa) (some (quantitative m ue)) = ground arith

  changes-Stay :
      (upd entries : Named)
      → ((keys_lacking entries upd ≡ [])
          × (loosened_names (changes_with (change parse) entries upd) ≡ [])
          × (any_review (changes_with (change parse) entries upd) ≡ false))
        ↔ All (λ (e : String × Condition). Stays e.1 (get e.0 upd)) entries
  unfolding keys_lacking loosened_names any_review
  changes-Stay upd [] = (λ h. tt, λ h. (refl, refl, refl))
  changes-Stay upd ((n, c) ∷ entries) =
      let (there, back) = change-Stays n c (get n upd) in
      let (all, each) = changes-Stay upd entries in
      let (apart, joined) =
        clear_parts (is_some (get n upd)) n (keys_lacking entries upd)
          (loosened_by n (change parse c (get n upd)))
          (loosened_names (changes_with (change parse) entries upd))
          (review_by (change parse c (get n upd)))
          (any_review (changes_with (change parse) entries upd)) in
      (λ h. (there (apart h).0, all (apart h).1), λ h. joined (back h.0, each h.1))

  verdict_parts :
      (original updated : List Condition)
      → (((analyze parse original updated).weakened ≡ false)
          × ((analyze parse original updated).needs_review ≡ false))
        ↔ ((keys_lacking (by_name original) (by_name updated) ≡ [])
            × (loosened_names (changes_with (change parse) (by_name original) (by_name updated))
                ≡ [])
            × (any_review (changes_with (change parse) (by_name original) (by_name updated))
                ≡ false))
  unfolding analyze
  verdict_parts original updated =
      clear_verdict original (keys_lacking (by_name original) (by_name updated))
        (loosened_names (changes_with (change parse) (by_name original) (by_name updated)))
        (keys_lacking (by_name updated) (by_name original))
        (any_review (changes_with (change parse) (by_name original) (by_name updated)))

  -- An update passes, as neither weakened nor in need of review, exactly when every named original
  -- condition is still there under its name: a narrative with the same assertion, a quantitative
  -- condition with an expression that is not looser. Names that are new do not matter.
  pub analyze-Stays :
      (original updated : List Condition)
      → (((analyze parse original updated).weakened ≡ false)
          × ((analyze parse original updated).needs_review ≡ false))
        ↔ ((n : String) (c : Condition)
            → get n (by_name original) ≡ some c
            → Stays c (get n (by_name updated)))
  analyze-Stays original updated =
      let (parts, verdict) = verdict_parts original updated in
      let (all, back) = changes-Stay (by_name updated) (by_name original) in
      (
        λ h. get-All (λ n c. Stays c (get n (by_name updated))) (by_name original) (all (parts h)),
        λ h. verdict (
            back (
              All-get (λ n c. Stays c (get n (by_name updated))) (by_name original)
                (by_name-IsMap original) h)),
      )
