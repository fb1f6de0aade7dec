-- ===== src/Goalpost.antt =====
-- src/goalpost/mod.rs: what an update of a thesis does to its invalidation conditions.
pub mod Expr
pub mod Integrity
pub mod Looser
mod Tests
use stocks.Base.{
  ℕ, String, Option, none, some, Bool, true, false, not, ◌&&◌, ◌||◌, List, [], ◌∷◌, ◌++◌, map,
  str_eq, ◌==◌, if◌then◌else◌, length, keep, any, is_empty, is_some, flatten,
}
use stocks.Base.Maps.{get, insert}
use stocks.Base.Trim.{is_nil}
use stocks.Float.{F64}
use stocks.Reasons.{sort}
use stocks.Goalpost.Expr.{expr_is_looser_than}

-- A condition by its name and what it carries: `expr` or `assertion`.
pub data Condition : Type 0 where
  quantitative narrative : String → String → Condition

abbrev pub name : Condition → String
name (quantitative n expr) = n
name (narrative n assertion) = n

-- A formatted reason, by its parts.
pub data Reason : Type 0 where
  loosened_to : String → String → String → Reason
  narrative_changed type_changed dropped_condition : String → Reason

pub record Report : Type 0 where
  pub weakened : Bool
  pub needs_review : Bool
  pub dropped : List String
  pub loosened : List String
  pub added : List String
  pub reasons : List Reason

abbrev pub Named : Type 0
Named = List (String × Condition)

-- The last condition of a name stays.
unfoldable pub collect : Named → List Condition → Named
unfolding insert
collect entries [] = entries
collect entries (c ∷ cs) =
    collect (if is_nil (name c) then entries else insert (name c) c entries) cs

unfoldable pub by_name : List Condition → Named
unfolding collect
by_name cs = collect [] cs

-- The keys of the first map that the second lacks.
pub keys_lacking : Named → Named → List String
keys_lacking [] other = []
keys_lacking ((n, c) ∷ entries) other =
    (if is_some (get n other) then [] else n ∷ []) ++ keys_lacking entries other

-- What becomes of a condition.
pub data Change : Type 0 where
  gone unchanged retold retyped : Change
  relaxed : String → String → Change

module _ {F : Type 0} ⦃d : F64 F⦄ (parse : String → Option F) where
  pub change : Condition → Option Condition → Change
  change oc none = gone
  change (quantitative n oe) (some (quantitative m ue)) =
      if expr_is_looser_than parse ue oe then relaxed oe ue else unchanged
  change (narrative n oa) (some (narrative m ua)) = if str_eq oa ua then unchanged else retold
  change (quantitative n oe) (some (narrative m ua)) = retyped
  change (narrative n oa) (some (quantitative m ue)) = retyped

abbrev pub loosened_by : String → Change → List String
loosened_by n (relaxed oe ue) = n ∷ []
loosened_by n gone = []
loosened_by n unchanged = []
loosened_by n retold = []
loosened_by n retyped = []

abbrev pub review_by : Change → Bool
review_by retold = true
review_by retyped = true
review_by gone = false
review_by unchanged = false
review_by (relaxed oe ue) = false

abbrev pub reasons_by : String → Change → List Reason
reasons_by n (relaxed oe ue) = loosened_to n oe ue ∷ []
reasons_by n retold = narrative_changed n ∷ []
reasons_by n retyped = type_changed n ∷ []
reasons_by n gone = []
reasons_by n unchanged = []

abbrev pub changes_with :
    (Condition → Option Condition → Change) → Named → Named → List (String × Change)
changes_with change orig upd =
    map (λ (e : String × Condition). (e.0, change e.1 (get e.0 upd))) orig

-- The third loop, as what it pushes.
pub loosened_names : List (String × Change) → List String
loosened_names [] = []
loosened_names ((n, c) ∷ changes) = loosened_by n c ++ loosened_names changes

pub any_review : List (String × Change) → Bool
any_review [] = false
any_review ((n, c) ∷ changes) = review_by c || any_review changes

pub change_reasons : List (String × Change) → List Reason
change_reasons [] = []
change_reasons ((n, c) ∷ changes) = reasons_by n c ++ change_reasons changes

-- All originals dropped, and something added.
abbrev pub is_rewrite : List Condition → List String → List String → Bool
is_rewrite original dropped added =
    not (is_empty original) && length dropped == length original && not (is_empty added)

module _ {F : Type 0} ⦃d : F64 F⦄ (parse : String → Option F) where
  unfoldable pub analyze : List Condition → List Condition → Report
  unfolding by_name keys_lacking change loosened_names any_review change_reasons
  analyze original updated =
      let orig = by_name original in
      let upd = by_name updated in
      let dropped = keys_lacking orig upd in
      let added = keys_lacking upd orig in
      let changes = changes_with (change parse) orig upd in
      let loosened = loosened_names changes in
      record {
        weakened = not (is_empty dropped) || not (is_empty loosened);
        needs_review = any_review changes || is_rewrite original dropped added;
        dropped = sort dropped;
        loosened = sort loosened;
        added = sort added;
        reasons = change_reasons changes ++ map dropped_condition dropped;
      }
