-- ===== src/Regime/Majority.antt =====
-- `classify` of src/regime/mod.rs, against a vote by counts of rules.
use stocks.Base.{
  ℕ, ◌+◌, ◌*◌, ◌≤◌, ◌<◌, ◌≡◌, inl, inr, refl, sym, ◌∙◌, String, Option, none, some, ◌&&◌, List, [],
  ◌∷◌, str_eq, if◌then◌else◌, length, ltb, leb, unwrap_or, is_some, arith, Bool-cases,
}
use stocks.Base.Int.{pos}
use stocks.Base.Maps.{get}
use stocks.Float.{F64, nought}
use stocks.Regime.{
  Regime, risk_on, risk_off, neutral, Rules, Config, evaluated, satisfied, score, scores, regime_of,
  classify,
}

-- The largest number of rules of a state that the statements speak of.
abbrev pub max_rules : ℕ
max_rules = 1_000_000

-- IEEE 754 doubles compare the quotients of such counts as the fractions compare.
pub record HasExactQuotients {F : Type 0} (d : F64 F) : Type 0 where
  pub div_lt :
      (a b c e : ℕ)
      → 0 < b
      → 0 < e
      → a ≤ b
      → c ≤ e
      → b ≤ max_rules
      → e ≤ max_rules
      → d.lt
          (d.div (d.of_int (pos a)) (d.of_int (pos b)))
          (d.div (d.of_int (pos c)) (d.of_int (pos e)))
        ≡ ltb (a * e) (c * b)
  pub half_le :
      (a b : ℕ)
      → 0 < b
      → a ≤ b
      → b ≤ max_rules
      → d.le (d.lit 5 1) (d.div (d.of_int (pos a)) (d.of_int (pos b))) ≡ leb b (2 * a)
  pub zero_div : d.div (d.of_int (pos 0)) (d.of_int (pos 1)) ≡ d.lit 0 0

abbrev pub FitsIn : Option Rules → Type 0
FitsIn none = Unit
FitsIn (some rules) = length rules ≤ max_rules

-- Satisfied rules out of all rules.
pub record Tally : Type 0 where
  pub yes_votes : ℕ
  pub all_votes : ℕ

-- The vote: a state wins with at least half of its rules and a larger share than the other.
pub majority : Tally → Tally → Regime
majority on off =
    if leb on.all_votes (2 * on.yes_votes)
      && ltb (off.yes_votes * on.all_votes) (on.yes_votes * off.all_votes)
    then risk_on
    else if leb off.all_votes (2 * off.yes_votes)
        && ltb (on.yes_votes * off.all_votes) (off.yes_votes * on.all_votes)
    then risk_off
    else neutral

module _ {F : Type 0} ⦃d : F64 F⦄ (parse : String → Option F) (inputs : List (String × F)) where
  -- A state that is not configured, or has no rules, has none of one vote.
  abbrev pub tally : Option Rules → Tally
  tally none = record { yes_votes = 0; all_votes = 1 }
  tally (some []) = record { yes_votes = 0; all_votes = 1 }
  tally (some (r ∷ rules)) = record {
    yes_votes = satisfied parse inputs (r ∷ rules);
    all_votes = length (r ∷ rules);
  }

  -- The rules whose indicator has a value.
  unfoldable pub known : Rules → ℕ
  known [] = 0
  known ((name, e) ∷ rules) = (if is_some (get name inputs) then 1 else 0) + known rules

  satisfied-le-known : (rules : Rules) → satisfied parse inputs rules ≤ known rules
  unfolding satisfied known evaluated
  satisfied-le-known [] = omega arith
  satisfied-le-known ((name, e) ∷ rules) = ground (arith, satisfied-le-known rules)

  known-le-length : (rules : Rules) → known rules ≤ length rules
  unfolding known
  known-le-length [] = omega arith
  known-le-length ((name, e) ∷ rules) = ground (arith, known-le-length rules)

  abbrev score_of : Option Rules → F
  score_of none = nought
  score_of (some rules) = score parse inputs rules

  get-scores :
      (key : String) (states : List (String × Rules))
      → unwrap_or (get key (scores parse inputs states)) nought ≡ score_of (get key states)
  unfolding scores
  get-scores key [] = refl
  get-scores key ((state, rules) ∷ states) = elim (Bool-cases (str_eq state key)) [
    | inl e ↦ rw e refl
    | inr e ↦ rw e (get-scores key states)
  ]

  record IsShare (x : F) (t : Tally) : Type 0 where
    share : x ≡ d.div (d.of_int (pos t.yes_votes)) (d.of_int (pos t.all_votes))
    some_votes : 0 < t.all_votes
    part : t.yes_votes ≤ t.all_votes
    few : t.all_votes ≤ max_rules

  score_of-IsShare :
      HasExactQuotients d → (o : Option Rules) → FitsIn o → IsShare (score_of o) (tally o)
  score_of-IsShare h none fits = record {
    share = sym h.zero_div;
    some_votes = omega arith;
    part = omega arith;
    few = omega arith;
  }
  score_of-IsShare h (some []) fits = record {
    share = sym h.zero_div;
    some_votes = omega arith;
    part = omega arith;
    few = omega arith;
  }
  score_of-IsShare h (some (r ∷ rules)) fits = record {
    share = ground arith;
    some_votes = omega arith;
    part = omega (arith, satisfied-le-known (r ∷ rules), known-le-length (r ∷ rules));
    few = fits;
  }

  regime_of-majority :
      HasExactQuotients d
      → (on off : F) (s t : Tally) → IsShare on s
      → IsShare off t
      → regime_of on off ≡ majority s t
  unfolding majority
  regime_of-majority h on off s t p q =
      let e = h.half_le s.yes_votes s.all_votes p.some_votes p.part p.few in
      let f = h.half_le t.yes_votes t.all_votes q.some_votes q.part q.few in
      let k =
        h.div_lt t.yes_votes t.all_votes s.yes_votes s.all_votes q.some_votes p.some_votes q.part
          p.part q.few p.few in
      let l =
        h.div_lt s.yes_votes s.all_votes t.yes_votes t.all_votes p.some_votes q.some_votes p.part
          q.part p.few q.few in
      rw (p.share, q.share, e, f, k, l) refl

  -- The regime is the one that a vote gives in which each state has the share of its rules that
  -- hold, where no state has more than a million rules and doubles compare such shares exactly.
  pub classify-majority :
      HasExactQuotients d
      → (cfg : Config) → FitsIn (get "risk_on" cfg.rules)
      → FitsIn (get "risk_off" cfg.rules)
      → (classify parse cfg inputs).regime
        ≡ majority (tally (get "risk_on" cfg.rules)) (tally (get "risk_off" cfg.rules))
  unfolding classify
  classify-majority h cfg p q =
      rw (get-scores "risk_on" cfg.rules, get-scores "risk_off" cfg.rules)
        (regime_of-majority h _ _ _ _ (score_of-IsShare h _ p) (score_of-IsShare h _ q))

  -- Fewer than half of the rules have an indicator with a value, or there are no rules.
  abbrev pub IsSparse : Option Rules → Type 0
  IsSparse none = Unit
  IsSparse (some []) = Unit
  IsSparse (some (r ∷ rules)) = 2 * known (r ∷ rules) < length (r ∷ rules)

  tally-IsSparse : (o : Option Rules) → IsSparse o → 2 * (tally o).yes_votes < (tally o).all_votes
  tally-IsSparse none sparse = omega arith
  tally-IsSparse (some []) sparse = omega arith
  tally-IsSparse (some (r ∷ rules)) sparse = omega (arith, satisfied-le-known (r ∷ rules))

  majority-neutral :
      (s t : Tally)
      → 2 * s.yes_votes < s.all_votes
      → 2 * t.yes_votes < t.all_votes
      → majority s t ≡ neutral
  unfolding majority
  majority-neutral s t p q = ground arith

  -- Where both states lack a value for more than half of their rules, of which neither has more than
  -- a million, and doubles compare shares exactly, the regime is neutral, whatever the other rules
  -- say.
  pub classify-neutral :
      HasExactQuotients d
      → (cfg : Config) → FitsIn (get "risk_on" cfg.rules)
      → FitsIn (get "risk_off" cfg.rules)
      → IsSparse (get "risk_on" cfg.rules)
      → IsSparse (get "risk_off" cfg.rules)
      → (classify parse cfg inputs).regime ≡ neutral
  classify-neutral h cfg p q few_on few_off =
      classify-majority h cfg p q
      ∙ majority-neutral _ _ (tally-IsSparse _ few_on) (tally-IsSparse _ few_off)
