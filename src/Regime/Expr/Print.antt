-- ===== src/Regime/Expr/Print.antt =====
-- What `eval` of src/regime/expr.rs makes of the text of an operator and a number.
use stocks.Base.{String, Option, none, some, ◌≡◌, refl, false, inl, inr, ◌==◌, ==_iff, Bool-cases}
use stocks.Base.Trim.{trim, trim_start, trim_end, strip_prefix, is_nil, trim_id}
use stocks.Base.Text.{is_whitespace}
use stocks.Base.Results.{ok}
use Prim.Native.Char.{code}
use text.Mathlib.TextEquality.{Char-path}
use stocks.Float.{F64}
use stocks.Regime.Expr.{Op, ge, le, eq, ne, gt, lt, compares, eval, split_op, operators}

abbrev pub symbol : Op → String
symbol ge = ">="
symbol le = "<="
symbol eq = "=="
symbol ne = "!="
symbol gt = ">"
symbol lt = "<"

abbrev prepend : String → String → String
prepend String.[] t = t
prepend (String.◌∷◌ c s) t = String.◌∷◌ c (prepend s t)

abbrev pub print : Op → String → String
print op numeral = prepend (symbol op) numeral

-- The grammar of `f64::from_str`: a numeral has no white space around it, and does not start with
-- an equals sign.
pub record IsFloatGrammar {F : Type 0} (parse : String → Option F) : Type 0 where
  pub no_space : (t : String) (n : F) → parse t ≡ some n → (trim_start t ≡ t) × (trim_end t ≡ t)
  pub no_equals : (t : String) (n : F) → parse t ≡ some n → strip_prefix "=" t ≡ none

print-trim_end : (op : Op) (t : String) → trim_end t ≡ t → trim (print op t) ≡ print op t
unfolding trim trim_start trim_end is_whitespace
print-trim_end ge t h = rw h refl
print-trim_end le t h = rw h refl
print-trim_end eq t h = rw h refl
print-trim_end ne t h = rw h refl
print-trim_end gt t h = rw h refl
print-trim_end lt t h = rw h refl

print-not_nil : (op : Op) (t : String) → is_nil (print op t) ≡ false
print-not_nil ge t = refl
print-not_nil le t = refl
print-not_nil eq t = refl
print-not_nil ne t = refl
print-not_nil gt t = refl
print-not_nil lt t = refl

split_op-print :
    (op : Op) (t : String)
    → strip_prefix "=" t ≡ none
    → split_op operators (print op t) ≡ some (op, t)
unfolding split_op strip_prefix
split_op-print ge t h = refl
split_op-print le t h = refl
split_op-print eq t h = refl
split_op-print ne t h = refl
split_op-print gt t h = rw h refl
split_op-print lt t h = rw h refl

-- Each operator before a numeral is read back: the result is that comparison with the number.
pub eval-print :
    {F : Type 0} ⦃d : F64 F⦄ (parse : String → Option F)
    → IsFloatGrammar parse
    → (op : Op) (v n : F) (numeral : String) → parse numeral ≡ some n
    → eval parse v (print op numeral) ≡ ok (compares op v n)
unfolding eval split_op strip_prefix
eval-print parse g op v n t h =
    let (a, b) = g.no_space t n h in
    rw (print-trim_end op t b, split_op-print op t (g.no_equals t n h), trim_id t a b, h)
      (rw (print-not_nil op t) refl)

strip_prefix_lem : (p s rest : String) → strip_prefix p s ≡ some rest → s ≡ prepend p rest
unfolding strip_prefix
strip_prefix_lem String.[] s rest e = cc
strip_prefix_lem (String.◌∷◌ p ps) String.[] rest e = cc
strip_prefix_lem (String.◌∷◌ p ps) (String.◌∷◌ c s) rest e = elim (Bool-cases (code p == code c)) [
  | inl same ↦
      let there : strip_prefix ps s ≡ some rest = rw same at e in
      rw (Char-path p c ((==_iff (code p) (code c)).0 same), strip_prefix_lem ps s rest there) refl
  | inr other ↦ let no : none ≡ some rest = rw other at e in cc
]
