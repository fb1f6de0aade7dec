-- ===== src/Base/Windows.antt =====
-- Lists that are read by position: a walk that sees what came before, the entries before a position,
-- and the last entry of a kind. What comes before is kept with the nearest entry first.
use stocks.Base.{
  ℕ, zero, suc, ◌+◌, ◌≡◌, refl, ap, Option, none, some, List, [], ◌∷◌, length, Bool, if◌then◌else◌,
  arith, ◌++◌, ◌<◌, ◌∙◌,
}

module _ {ℓ} {A : Type ℓ} where
  unfoldable pub take : ℕ → List A → List A
  take zero xs = []
  take (suc n) [] = []
  take (suc n) (x ∷ xs) = x ∷ take n xs

  unfoldable pub drop : ℕ → List A → List A
  drop zero xs = xs
  drop (suc n) [] = []
  drop (suc n) (x ∷ xs) = drop n xs

  unfoldable pub replicate : ℕ → A → List A
  replicate zero a = []
  replicate (suc n) a = a ∷ replicate n a

  unfoldable pub nth : ℕ → List A → Option A
  nth n [] = none
  nth zero (x ∷ xs) = some x
  nth (suc n) (x ∷ xs) = nth n xs

  unfoldable pub reverse_onto : List A → List A → List A
  reverse_onto acc [] = acc
  reverse_onto acc (x ∷ xs) = reverse_onto (x ∷ acc) xs

  -- What came before the end, the nearest first.
  unfoldable pub history : List A → List A
  unfolding reverse_onto
  history xs = reverse_onto [] xs

  -- The n nearest entries, in their own order; none where there are fewer.
  unfoldable pub window_onto : List A → ℕ → List A → Option (List A)
  window_onto acc zero seen = some acc
  window_onto acc (suc n) [] = none
  window_onto acc (suc n) (x ∷ seen) = window_onto (x ∷ acc) n seen

  unfoldable pub window : ℕ → List A → Option (List A)
  unfolding window_onto
  window n seen = window_onto [] n seen

  length-reverse_onto : (acc xs : List A) → length (reverse_onto acc xs) ≡ length acc + length xs
  unfolding reverse_onto
  length-reverse_onto acc [] = omega arith
  length-reverse_onto acc (x ∷ xs) = omega (arith, length-reverse_onto (x ∷ acc) xs)

-- `Option::flatten` over a list.
abbrev pub somes {ℓ} : {A : Type ℓ} → List (Option A) → List A
somes [] = []
somes (none ∷ xs) = somes xs
somes (some x ∷ xs) = x ∷ somes xs

-- Every entry, where all are there.
abbrev pub all_some {ℓ} : {A : Type ℓ} → List (Option A) → Option (List A)
all_some [] = some []
all_some (none ∷ xs) = none
all_some (some x ∷ xs) = elim (all_some xs) [ none ↦ none | some rest ↦ some (x ∷ rest) ]

-- A loop over the positions: each entry with what came before it.
unfoldable pub walk {ℓ κ} : {A : Type ℓ} {B : Type κ} → (A → List A → B) → List A → List A → List B
walk f seen [] = []
walk f seen (x ∷ xs) = f x seen ∷ walk f (x ∷ seen) xs

-- The step of a walk at an entry sees the entries before it, the nearest first.
pub nth-walk {ℓ κ} :
    {A : Type ℓ} {B : Type κ} (f : A → List A → B) (seen ys zs : List A) (x : A)
    → nth (length ys) (walk f seen (ys ++ (x ∷ zs))) ≡ some (f x (reverse_onto seen ys))
unfolding walk nth reverse_onto
nth-walk f seen [] zs x = refl
nth-walk f seen (y ∷ ys) zs x = nth-walk f (y ∷ seen) ys zs x

module _ {ℓ} {A : Type ℓ} where
  pub reverse_onto-append :
      (acc xs ys : List A) → reverse_onto acc (xs ++ ys) ≡ reverse_onto (reverse_onto acc xs) ys
  unfolding reverse_onto
  reverse_onto-append acc [] ys = refl
  reverse_onto-append acc (x ∷ xs) ys = reverse_onto-append (x ∷ acc) xs ys

  window_onto-reverse_onto :
      (acc seen ys : List A) (k : ℕ)
      → window_onto acc (length ys + k) (reverse_onto seen ys) ≡ window_onto (ys ++ acc) k seen
  unfolding window_onto reverse_onto
  window_onto-reverse_onto acc seen [] k =
      let none_more : 0 + k ≡ k = omega arith in rw none_more refl
  window_onto-reverse_onto acc seen (y ∷ ys) k =
      let one_later : suc (length ys) + k ≡ length ys + suc k = omega arith in
      rw one_later (window_onto-reverse_onto acc (y ∷ seen) ys (suc k))

  -- The entries just before an entry, with it, are its window.
  pub window-reverse_onto :
      (seen ys : List A) (x : A)
      → window (suc (length ys)) (x ∷ reverse_onto seen ys) ≡ some (ys ++ (x ∷ []))
  unfolding window window_onto
  window-reverse_onto seen ys x =
      let none_more : length ys ≡ length ys + 0 = omega arith in
      ap (λ n. window_onto (x ∷ []) n (reverse_onto seen ys)) none_more
      ∙ window_onto-reverse_onto (x ∷ []) seen ys 0

  -- Where fewer entries were seen there is no window.
  window_onto-short :
      (acc : List A) (n : ℕ) (seen : List A) → length seen < n → window_onto acc n seen ≡ none
  unfolding window_onto
  window_onto-short acc zero seen h = absurd (omega arith)
  window_onto-short acc (suc n) [] h = refl
  window_onto-short acc (suc n) (x ∷ seen) h = window_onto-short (x ∷ acc) n seen (omega arith)

  pub window-short :
      (n : ℕ) (ys : List A) (x : A) → suc (length ys) < n → window n (x ∷ reverse_onto [] ys) ≡ none
  unfolding window
  window-short n ys x h =
      window_onto-short [] n (x ∷ reverse_onto [] ys) (omega (arith, length-reverse_onto [] ys))

unfoldable pub zip {ℓ κ} : {A : Type ℓ} {B : Type κ} → List A → List B → List (A × B)
zip [] ys = []
zip (x ∷ xs) [] = []
zip (x ∷ xs) (y ∷ ys) = (x, y) ∷ zip xs ys

-- `Vec::sort_by_key`, stable: `before x y` where x may stay in front of y.
module _ {ℓ} {A : Type ℓ} (before : A → A → Bool) where
  unfoldable pub insert_by : A → List A → List A
  insert_by x [] = x ∷ []
  insert_by x (y ∷ ys) = if before x y then x ∷ y ∷ ys else y ∷ insert_by x ys

  unfoldable pub sort_by : List A → List A
  unfolding insert_by
  sort_by [] = []
  sort_by (x ∷ xs) = insert_by x (sort_by xs)
