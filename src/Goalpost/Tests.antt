-- ===== src/Goalpost/Tests.antt =====
-- Tests of src/goalpost/tests.rs.
use stocks.Base.Text.{is_whitespace}
use stocks.Base.Trim.{strip_prefix, trim}
use stocks.Reasons.{sort}
use stocks.Base.{
  ◌≡◌, refl, ◌↔◌, String, Option, none, some, false, List, [], ◌∷◌, str_eq, if◌then◌else◌,
}
use stocks.Base.Int.{pos}
use stocks.Base.Maps.{get}
use stocks.Float.Micros.{Micros, micros_f64}
use stocks.Goalpost.{Condition, quantitative, narrative, by_name, analyze}
use stocks.Goalpost.Expr.{split_on, expr_is_looser_than, has_whitespace}
use stocks.Goalpost.Integrity.{Stays, analyze-Stays}

abbrev parse : String → Option Micros
parse t =
    if str_eq t "45"
    then some (pos 45_000_000)
    else if str_eq t "30"
    then some (pos 30_000_000)
    else none

abbrev strict : List Condition
strict =
    quantitative "gm" "gross_margin < 45"
    ∷ narrative "hyperscale_cut" "Top-3 hyperscalers cut capex >15%"
    ∷ []

abbrev lax : List Condition
lax =
    quantitative "gm" "gross_margin < 30"
    ∷ narrative "hyperscale_cut" "Top-3 hyperscalers cut capex >15%"
    ∷ []

loosening_lt_is_weakened : (analyze parse strict lax).loosened ≡ "gm" ∷ []
unfolding analyze sort expr_is_looser_than split_on trim is_whitespace strip_prefix has_whitespace
loosening_lt_is_weakened = refl

tightening_lt_is_clean : (analyze parse lax strict).weakened ≡ false
unfolding analyze expr_is_looser_than split_on trim is_whitespace strip_prefix has_whitespace
tightening_lt_is_clean = refl

dropped_condition_is_weakened : (analyze parse strict []).dropped ≡ "gm" ∷ "hyperscale_cut" ∷ []
unfolding analyze sort
dropped_condition_is_weakened = refl

analyze-Stays_example :
    (((analyze parse strict lax).weakened ≡ false)
      × ((analyze parse strict lax).needs_review ≡ false))
    ↔ ((n : String) (c : Condition)
        → get n (by_name strict) ≡ some c
        → Stays parse c (get n (by_name lax)))
analyze-Stays_example = analyze-Stays parse strict lax
