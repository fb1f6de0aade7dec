-- ===== src/Regime.antt =====
-- src/regime/mod.rs: the classifier of the macro regime. A rule is an indicator with an expression
-- (Regime/Expr.antt). The maps are read in the order in which they are iterated.
pub mod Expr
pub mod Majority
mod Tests
use Prim.Native.Char.{code}
use stocks.Base.{
  ℕ, ◌+◌, String, Option, none, some, Bool, true, false, ◌&&◌, ◌||◌, List, [], ◌∷◌, ◌++◌, map,
  str_eq, ◌==◌, if◌then◌else◌, length, ltb, unwrap_or,
}
use stocks.Base.Int.{pos}
use stocks.Base.Maps.{get}
use stocks.Base.Trim.{is_nil, trim}
use stocks.Base.Results.{Result, ok, err}
use stocks.Float.{F64, nought}
use stocks.Regime.Expr.{EvalError, eval}

pub data Regime : Type 0 where
  risk_on neutral risk_off : Regime

abbrev pub as_str : Regime → String
as_str risk_on = "risk_on"
as_str neutral = "neutral"
as_str risk_off = "risk_off"

abbrev pub Rules : Type 0
Rules = List (String × String)

pub record Config : Type 0 where
  pub states : List String
  pub rules : List (String × Rules)
  -- `capitulation.any_of`.
  pub any_of : List String

-- A formatted reason, by its parts.
pub data Reason : Type 0 where
  rule : String → String → EvalError → Reason
  capitulation_by : String → Reason

pub record Outcome (F : Type 0) : Type 0 where
  pub regime : Regime
  pub capitulation : Bool
  pub indicators : List (String × F)
  pub matched : List (String × F)
  pub reasons : List Reason

abbrev pub fred_series_to_indicator : String → String
fred_series_to_indicator series =
    if str_eq series "VIXCLS"
    then "vix"
    else if str_eq series "BAMLH0A0HYM2"
    then "hy_oas_pct"
    else if str_eq series "DGS10"
    then "us10y"
    else if str_eq series "DGS3MO"
    then "us3m"
    else series

abbrev pub is_comparison : ℕ → Bool
is_comparison c = c == b'>' || c == b'<' || c == b'='

-- The text before the first comparison sign, and from it on.
unfoldable pub split_at_sign : String → Option (String × String)
split_at_sign String.[] = none
split_at_sign (String.◌∷◌ c s) =
    let later = split_at_sign s in
    if is_comparison (code c)
    then some (String.[], String.◌∷◌ c s)
    else elim later [ none ↦ none | some (before, from) ↦ some (String.◌∷◌ c before, from) ]

abbrev pub trimmed : Option (String × String) → Option (String × String)
trimmed none = none
trimmed (some (before, from)) = if is_nil before then none else some (trim before, trim from)

unfoldable pub split_name_expr : String → Option (String × String)
unfolding split_at_sign
split_name_expr s = trimmed (split_at_sign s)

module _ {F : Type 0} ⦃d : F64 F⦄ where
  abbrev pub regime_of : F → F → Regime
  regime_of on off =
      if d.le (d.lit 5 1) on && d.lt off on
      then risk_on
      else if d.le (d.lit 5 1) off && d.lt on off
      then risk_off
      else neutral

module _ {F : Type 0} ⦃d : F64 F⦄ (parse : String → Option F) where
  -- What a rule adds to the count of satisfied rules, and the reasons it pushes.
  unfoldable pub evaluated : Option F → String → Option (Result Bool EvalError)
  evaluated none e = none
  evaluated (some v) e = some (eval parse v e)

  abbrev pub is_true : Option (Result Bool EvalError) → Bool
  is_true (some (ok b)) = b
  is_true (some (err e)) = false
  is_true none = false

  abbrev pub errors : String → String → Option (Result Bool EvalError) → List Reason
  errors state name (some (err e)) = rule state name e ∷ []
  errors state name (some (ok b)) = []
  errors state name none = []

  pub satisfied : List (String × F) → Rules → ℕ
  satisfied inputs [] = 0
  satisfied inputs ((name, e) ∷ rules) =
      (if is_true (evaluated (get name inputs) e) then 1 else 0) + satisfied inputs rules

  pub rule_errors : List (String × F) → String → Rules → List Reason
  rule_errors inputs state [] = []
  rule_errors inputs state ((name, e) ∷ rules) =
      errors state name (evaluated (get name inputs) e) ++ rule_errors inputs state rules

  abbrev pub score : List (String × F) → Rules → F
  score inputs rules =
      if ltb 0 (length rules)
      then d.div (d.of_int (pos (satisfied inputs rules))) (d.of_int (pos (length rules)))
      else nought

  pub scores : List (String × F) → List (String × Rules) → List (String × F)
  scores inputs [] = []
  scores inputs ((state, rules) ∷ states) = (state, score inputs rules) ∷ scores inputs states

  pub all_errors : List (String × F) → List (String × Rules) → List Reason
  all_errors inputs [] = []
  all_errors inputs ((state, rules) ∷ states) =
      rule_errors inputs state rules ++ all_errors inputs states

  -- Whether a signal of capitulation can be evaluated and holds.
  abbrev pub fires : List (String × F) → Option (String × String) → Bool
  fires inputs none = false
  fires inputs (some (name, e)) = is_true (evaluated (get name inputs) e)

  -- The first signal that fires; the loop stops there.
  pub first_signal : List (String × F) → List String → Option String
  first_signal inputs [] = none
  first_signal inputs (e ∷ signals) =
      if fires inputs (split_name_expr e) then some e else first_signal inputs signals

  abbrev pub signal_reasons : Option String → List Reason
  signal_reasons none = []
  signal_reasons (some e) = capitulation_by e ∷ []

  abbrev pub has_fired : Option String → Bool
  has_fired none = false
  has_fired (some e) = true

  unfoldable pub classify : Config → List (String × F) → Outcome F
  unfolding scores all_errors first_signal
  classify cfg inputs =
      let matched = scores inputs cfg.rules in
      let signal = first_signal inputs cfg.any_of in
      record {
        regime =
            regime_of (unwrap_or (get "risk_on" matched) nought)
              (unwrap_or (get "risk_off" matched) nought);
        capitulation = has_fired signal;
        indicators = inputs;
        matched = matched;
        reasons = all_errors inputs cfg.rules ++ signal_reasons signal;
      }
