-- ===== src/Goalpost/Expr.antt =====
-- `parse_simple_expr` and `expr_is_looser_than` of src/goalpost/mod.rs. `parse` stands for the parser
-- of `f64` in the standard library.
use Prim.Native.Char.{code}
use stocks.Base.{
  String, Option, none, some, Bool, false, not, ◌||◌, List, [], ◌∷◌, str_eq, if◌then◌else◌,
}
use stocks.Base.Text.{is_whitespace}
use stocks.Base.Trim.{is_nil, trim, strip_prefix}
use stocks.Float.{F64}

-- `find`, with the text before the first occurrence and after it.
unfoldable pub split_on : String → String → Option (String × String)
split_on pattern String.[] = elim (strip_prefix pattern String.[]) [
  | some rest ↦ some (String.[], rest)
  | none ↦ none
]
split_on pattern (String.◌∷◌ c s) =
    let later = split_on pattern s in
    elim (strip_prefix pattern (String.◌∷◌ c s)) [
      | some rest ↦ some (String.[], rest)
      | none ↦ elim later [ none ↦ none | some (before, after) ↦ some (String.◌∷◌ c before, after) ]
    ]

unfoldable pub has_whitespace : String → Bool
has_whitespace String.[] = false
has_whitespace (String.◌∷◌ c s) = is_whitespace (code c) || has_whitespace s

-- The sides of an expression, trimmed, where the candidate splits it; none where the loop continues.
abbrev pub sides_of : Option (String × String) → Option (String × String)
sides_of none = none
sides_of (some (before, after)) =
    if is_nil before || is_nil (trim before) || is_nil (trim after) || has_whitespace (trim before)
    then none
    else some (trim before, trim after)

pub record SimpleExpr (F : Type 0) : Type 0 where
  pub field : String
  pub op : String
  pub bound : F

module _ {F : Type 0} (parse : String → Option F) where
  abbrev pub simple_expr : String → String → Option F → Option (SimpleExpr F)
  simple_expr lhs cand none = none
  simple_expr lhs cand (some n) = some (record { field = lhs; op = cand; bound = n })

  -- The loop over the candidates.
  unfoldable pub first_candidate : List String → String → Option (SimpleExpr F)
  first_candidate [] s = none
  first_candidate (cand ∷ cands) s = elim (sides_of (split_on cand s)) [
    | none ↦ first_candidate cands s
    | some (lhs, rhs) ↦ simple_expr lhs cand (parse rhs)
  ]

  unfoldable pub parse_simple_expr : String → Option (SimpleExpr F)
  unfolding first_candidate
  parse_simple_expr s = first_candidate ("<=" ∷ ">=" ∷ "==" ∷ "!=" ∷ "<" ∷ ">" ∷ []) (trim s)

unfoldable pub op_family : String → String
op_family op =
    if str_eq op "<" || str_eq op "<="
    then "<"
    else if str_eq op ">" || str_eq op ">="
    then ">"
    else op

module _ {F : Type 0} ⦃d : F64 F⦄ where
  unfoldable pub looser_bound : String → F → F → Bool
  looser_bound family new old =
      if str_eq family "<" then d.lt new old else if str_eq family ">" then d.lt old new else false

  unfoldable pub looser_expr : SimpleExpr F → SimpleExpr F → Bool
  unfolding looser_bound op_family
  looser_expr new old =
      if not (str_eq new.field old.field)
      then false
      else if not (str_eq (op_family new.op) (op_family old.op))
      then false
      else looser_bound (op_family new.op) new.bound old.bound

  abbrev pub looser_parsed : Option (SimpleExpr F) → Option (SimpleExpr F) → Bool
  looser_parsed none old = false
  looser_parsed (some new) none = false
  looser_parsed (some new) (some old) = looser_expr new old

  unfoldable pub expr_is_looser_than : (String → Option F) → String → String → Bool
  unfolding looser_expr parse_simple_expr
  expr_is_looser_than parse new_expr old_expr =
      looser_parsed (parse_simple_expr parse new_expr) (parse_simple_expr parse old_expr)
