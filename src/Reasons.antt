-- ===== src/Reasons.antt =====
-- The lists of blocked reasons that every gate of src/automation builds, and the
-- `reasons.sort(); reasons.dedup();` with which each of them ends.
pub mod Laws
pub mod Gates
mod Tests
use stocks.Base.{
  ℕ, ◌≡◌, Bool, true, false, List, [], ◌∷◌, ◌++◌, Option, none, some, String, str_eq, if◌then◌else◌,
}
use stocks.Base.Text.{str_leb}

-- `if test { reasons.push(reason) }`, as the list of what is pushed.
abbrev pub when : Bool → String → List String
when b reason = if b then reason ∷ [] else []

pub insert : String → List String → List String
insert x [] = x ∷ []
insert x (y ∷ ys) = if str_leb x y then x ∷ y ∷ ys else y ∷ insert x ys

-- `Vec<String>::sort`.
unfoldable pub sort : List String → List String
unfolding insert str_leb
sort [] = []
sort (x ∷ xs) = insert x (sort xs)

-- `x` is the last entry that was kept.
pub dedup_from : String → List String → List String
dedup_from x [] = x ∷ []
dedup_from x (y ∷ ys) = elim (str_eq x y) [ true ↦ dedup_from x ys | false ↦ x ∷ dedup_from y ys ]

-- `Vec<String>::dedup`.
unfoldable pub dedup : List String → List String
unfolding dedup_from
dedup [] = []
dedup (x ∷ xs) = dedup_from x xs

unfoldable pub sort_dedup : List String → List String
unfolding sort dedup
sort_dedup xs = dedup (sort xs)
