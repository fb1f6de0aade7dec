-- ===== src/Regime/Tests.antt =====
-- The classifier on the indicators and rules of db/migrations/0002_seed.sql, in part.
use stocks.Base.{
  ◌≡◌, refl, String, Option, none, some, List, [], ◌∷◌, str_eq, eq_iff, if◌then◌else◌, arith,
  Bool-cases, inl, inr,
}
use stocks.Base.Int.{pos, ◌*ℤ◌}
use stocks.Base.Trim.{trim, strip_prefix, trim_start, trim_end}
use stocks.Base.Text.{is_whitespace}
use stocks.Base.Results.{ok}
use stocks.Float.Ratios.{Ratio, ratio, ratio_f64}
use stocks.Float.Ratios
use stocks.Regime.Expr.{ge, eval, split_op, compares}
use stocks.Regime.Expr.Print.{print, IsFloatGrammar, eval-print}
use stocks.Regime.{
  risk_on, neutral, Config, Rules, split_name_expr, split_at_sign, classify, scores, all_errors,
  first_signal, satisfied, rule_errors, evaluated,
}
use stocks.Regime.Majority.{
  known, HasExactQuotients, tally, majority, classify-majority, classify-neutral,
}

abbrev parse_thirty : String → Option Ratio
parse_thirty t = if str_eq t "30" then some (ratio (pos 30) 1) else none

thirty : (t : String) (n : Ratio) → parse_thirty t ≡ some n → t ≡ "30"
thirty t n h = elim (Bool-cases (str_eq t "30")) [
  | inl e ↦ (eq_iff t "30").0 e
  | inr e ↦ let no : none ≡ some n = rw e at h in cc
]

parse_thirty-IsFloatGrammar : IsFloatGrammar parse_thirty
unfolding trim_start trim_end strip_prefix is_whitespace
parse_thirty-IsFloatGrammar = record {
  no_space = λ t n h. rw (thirty t n h) (refl, refl);
  no_equals = λ t n h. rw (thirty t n h) refl;
}

eval-print_example :
    eval parse_thirty (ratio (pos 31) 1) (print ge "30")
    ≡ ok (compares ge (ratio (pos 31) 1) (ratio (pos 30) 1))
eval-print_example =
    eval-print parse_thirty parse_thirty-IsFloatGrammar ge (ratio (pos 31) 1) (ratio (pos 30) 1)
      "30" refl

exact : HasExactQuotients ratio_f64
unfolding ◌*ℤ◌
exact = record {
  div_lt = λ a b c e p q r s t u. Ratios.div_lt a b c e p q;
  half_le = λ a b p q r. Ratios.half_le a b p;
  zero_div = refl;
}

abbrev on_rules : Rules
on_rules = ("vix", "<30") ∷ ("us10y", "<30") ∷ []

abbrev off_rules : Rules
off_rules = ("vix", ">30") ∷ ("us3m", ">30") ∷ ("hy_oas_pct", ">30") ∷ []

abbrev cfg : Config
cfg = record {
  states = "risk_on" ∷ "neutral" ∷ "risk_off" ∷ [];
  rules = ("risk_on", on_rules) ∷ ("risk_off", off_rules) ∷ [];
  any_of = "vix>30" ∷ [];
}

abbrev calm : List (String × Ratio)
calm = ("vix", ratio (pos 14) 1) ∷ []

calm-risk_on : (classify parse_thirty cfg calm).regime ≡ risk_on
unfolding classify scores all_errors first_signal satisfied rule_errors evaluated eval split_op trim
    trim_start trim_end strip_prefix is_whitespace ◌*ℤ◌
calm-risk_on = refl

classify-majority_example :
    (classify parse_thirty cfg calm).regime
    ≡ majority (tally parse_thirty calm (some on_rules)) (tally parse_thirty calm (some off_rules))
classify-majority_example =
    classify-majority parse_thirty calm exact cfg (omega arith) (omega arith)

-- An indicator that no rule speaks of.
abbrev dollar : List (String × Ratio)
dollar = ("dxy", ratio (pos 101) 1) ∷ []

classify-neutral_example : (classify parse_thirty cfg dollar).regime ≡ neutral
unfolding known
classify-neutral_example =
    classify-neutral parse_thirty dollar exact cfg (omega arith) (omega arith) (omega arith)
      (omega arith)

-- An expression with `!=` is split at its equals sign, so that the name ends in "!".
split_not_equal : split_name_expr "vix!=30" ≡ some ("vix!", "=30")
unfolding split_name_expr split_at_sign trim is_whitespace
split_not_equal = refl
