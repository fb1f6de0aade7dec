-- ===== src/Regime/Expr.antt =====
-- src/regime/expr.rs: an operator and a number, against one value. `parse` stands for the parser of
-- `f64` in the standard library.
pub mod Print
use stocks.Base.{String, Option, none, some, Bool, List, [], ◌∷◌, if◌then◌else◌}
use stocks.Base.Trim.{is_nil, trim, strip_prefix}
use stocks.Base.Results.{Result, ok, err}
use stocks.Float.{F64}

pub data EvalError : Type 0 where
  empty : EvalError
  unknown_op bad_number : String → EvalError

pub data Op : Type 0 where
  ge le eq ne gt lt : Op

-- The longest operators first.
abbrev pub operators : List (String × Op)
operators = (">=", ge) ∷ ("<=", le) ∷ ("==", eq) ∷ ("!=", ne) ∷ (">", gt) ∷ ("<", lt) ∷ []

-- The first operator that the text starts with, and the rest of the text.
unfoldable pub split_op : List (String × Op) → String → Option (Op × String)
split_op [] expr = none
split_op ((symbol, op) ∷ ops) expr = elim (strip_prefix symbol expr) [
  | some rest ↦ some (op, rest)
  | none ↦ split_op ops expr
]

module _ {F : Type 0} ⦃d : F64 F⦄ where
  abbrev pub compares : Op → F → F → Bool
  compares gt v n = d.lt n v
  compares ge v n = d.le n v
  compares lt v n = d.lt v n
  compares le v n = d.le v n
  compares eq v n = d.lt (d.abs (d.sub v n)) d.epsilon
  compares ne v n = d.le d.epsilon (d.abs (d.sub v n))

  abbrev pub compared : Op → F → String → Option F → Result Bool EvalError
  compared op v rest none = err (bad_number (trim rest))
  compared op v rest (some n) = ok (compares op v n)

  abbrev pub applied :
      (String → Option F) → F → String → Option (Op × String) → Result Bool EvalError
  applied parse v expr none = err (unknown_op expr)
  applied parse v expr (some (op, rest)) = compared op v rest (parse (trim rest))

  unfoldable pub eval : (String → Option F) → F → String → Result Bool EvalError
  unfolding split_op
  eval parse v expr =
      let expr' = trim expr in
      if is_nil expr' then err empty else applied parse v expr' (split_op operators expr')
