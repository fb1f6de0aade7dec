-- ===== src/Discovery/Ranking.antt =====
-- src/discovery/ranking.rs: the score of a discovery candidate, its bucket and its reasons. The list of
-- reasons is what each step pushes, in the order of the source.
pub mod Score
mod Tests
use Prim.Native.String.{◌++◌ as append}
use stocks.Base.{
  Bool, true, false, not, ◌&&◌, List, [], ◌∷◌, Option, none, some, String, if◌then◌else◌, str_eq,
  flatten,
}
use stocks.Base.Int.{ℤ, pos, leb_ℤ}
use stocks.Float.{F64, nought, clamp}
use stocks.Automation.Strategy.{and_then}
use stocks.Automation.Strategy.Types.{SerdeJson}
use stocks.Reasons.{when}

pub record CandidateRank (F : Type 0) : Type 0 where
  pub score : F
  pub bucket : String
  pub reasons : List String

-- The arguments of `rank_candidate`.
pub record RankInput (V F : Type 0) : Type 0 where
  pub signal_name : String
  pub signal_value : Option F
  pub domain_fit : Option F
  pub parent_theme_fit : Option F
  pub dislocation_classification : Option String
  pub proposed_tier : ℤ
  pub proposed_lists : V
  pub has_suggested_new_list : Bool

unfoldable pub signal_reason : String → String
signal_reason signal_name =
    if str_eq signal_name "estimate_revision_velocity"
    then "estimate revisions"
    else if str_eq signal_name "base_breakout"
    then "base breakout"
    else if str_eq signal_name "news_sentiment_shift"
    then "news sentiment shift"
    else if str_eq signal_name "research_nomination"
    then "research nomination"
    else if str_eq signal_name "volume_anomaly"
    then "volume anomaly"
    else "discovery signal"

abbrev pub is_nomination : String → Bool
is_nomination signal_name = str_eq signal_name "research_nomination"

abbrev pub is_tier : ℤ → ℤ → Bool
is_tier tier proposed_tier = leb_ℤ tier proposed_tier && leb_ℤ proposed_tier tier

abbrev pub dislocation_reasons : Option String → List String
dislocation_reasons none = []
dislocation_reasons (some classification) =
    if str_eq classification "ignored_indifference"
    then "ignored improving dislocation" ∷ []
    else if str_eq classification "hated_avoided"
    then "hated but improving dislocation" ∷ []
    else if str_eq classification "loved_mania"
    then "loved/extended chase risk" ∷ []
    else []

-- The bucket of a score that is at least 75, 60 and 40.
abbrev pub band_of : Bool → Bool → Bool → String
band_of is_highest is_high is_medium =
    if is_highest
    then "highest"
    else if is_high
    then "high"
    else if is_medium
    then "medium"
    else "low"

module _ {F : Type 0} ⦃d : F64 F⦄ where
  unfoldable pub signal_base : String → F
  signal_base signal_name =
      if str_eq signal_name "estimate_revision_velocity"
      then d.lit 45 0
      else if str_eq signal_name "base_breakout"
      then d.lit 42 0
      else if str_eq signal_name "news_sentiment_shift"
      then d.lit 38 0
      else if is_nomination signal_name
      then d.lit 34 0
      else if str_eq signal_name "volume_anomaly"
      then d.lit 20 0
      else d.lit 18 0

  -- `((value.abs() / unit) * points).clamp(0.0, points)`.
  abbrev pub scaled : F → F → F → F
  scaled unit points value = clamp nought points (d.mul (d.div (d.abs value) unit) points)

  unfoldable pub signal_strength : String → Option F → F
  signal_strength signal_name none = if is_nomination signal_name then d.lit 8 0 else nought
  signal_strength signal_name (some value) =
      if is_nomination signal_name
      then clamp nought (d.lit 14 0)
          (d.mul (d.div (clamp nought (d.lit 4 0) value) (d.lit 4 0)) (d.lit 14 0))
      else if str_eq signal_name "volume_anomaly"
      then scaled (d.lit 5 0) (d.lit 16 0) value
      else if str_eq signal_name "base_breakout"
      then scaled (d.lit 10 0) (d.lit 14 0) value
      else if str_eq signal_name "estimate_revision_velocity"
      then scaled (d.lit 5 0) (d.lit 18 0) value
      else if str_eq signal_name "news_sentiment_shift"
      then scaled (d.lit 1 0) (d.lit 16 0) value
      else d.min (d.abs value) (d.lit 10 0)

  abbrev pub strength_reasons : String → F → List String
  strength_reasons signal_name strength =
      if is_nomination signal_name
      then (if d.le (d.lit 12 0) strength
          then "evidence ready" ∷ []
          else when (d.le (d.lit 8 0) strength) "evidence mostly ready")
      else when (d.le (d.lit 12 0) strength) "strong signal value"

  abbrev pub add_fit : F → Option F → F → F
  add_fit points none score = score
  add_fit points (some fit) score =
      d.add score (d.mul (d.div (clamp nought (d.lit 100 0) fit) (d.lit 100 0)) points)

  abbrev pub add_dislocation : Option String → F → F
  add_dislocation none score = score
  add_dislocation (some classification) score =
      if str_eq classification "ignored_indifference"
      then d.add score (d.lit 8 0)
      else if str_eq classification "hated_avoided"
      then d.add score (d.lit 6 0)
      else if str_eq classification "loved_mania"
      then d.sub score (d.lit 8 0)
      else score

  abbrev pub add_tier : ℤ → F → F
  add_tier proposed_tier score =
      if is_tier (pos 1) proposed_tier
      then d.add score (d.lit 10 0)
      else if is_tier (pos 2) proposed_tier
      then d.add score (d.lit 6 0)
      else d.add score (d.lit 2 0)

  abbrev pub points_of : String → F
  points_of confidence =
      if str_eq confidence "high"
      then d.lit 10 0
      else if str_eq confidence "medium"
      then d.lit 5 0
      else if str_eq confidence "low"
      then d.lit 1 0
      else nought

  unfoldable pub bucket_of : F → String
  bucket_of score =
      band_of (d.le (d.lit 75 0) score) (d.le (d.lit 60 0) score) (d.le (d.lit 40 0) score)

  abbrev pub best_with : F → Option String → F
  best_with best none = best
  best_with best (some confidence) = d.max best (points_of confidence)

module _ {V F : Type 0} ⦃d : F64 F⦄ ⦃j : SerdeJson V⦄ where
  unfoldable pub best_of : F → List V → F
  best_of best [] = best
  best_of best (list ∷ lists) =
      best_of (best_with best (and_then (j.get list "confidence") j.as_str)) lists

  abbrev pub list_fit_of : Option (List V) → F
  list_fit_of none = nought
  list_fit_of (some lists) = best_of nought lists

  unfoldable pub list_fit_score : V → F
  unfolding best_of
  list_fit_score proposed_lists = list_fit_of (j.as_array proposed_lists)

  -- The score before it is clamped.
  unfoldable pub raw_score : RankInput V F → F
  unfolding signal_base signal_strength list_fit_score
  raw_score input =
      let score =
        d.add (signal_base input.signal_name)
          (signal_strength input.signal_name input.signal_value) in
      let score = add_fit (d.lit 15 0) input.domain_fit score in
      let score = add_fit (d.lit 12 0) input.parent_theme_fit score in
      let score = add_dislocation input.dislocation_classification score in
      let score = add_tier input.proposed_tier score in
      let score = d.add score (list_fit_score input.proposed_lists) in
      if input.has_suggested_new_list then d.add score (d.lit 3 0) else score

-- `whole_text` prints `x as i64`.
module _ {F : Type 0} ⦃d : F64 F⦄ (whole_text : F → String) where
  abbrev pub domain_reasons : String → Option F → List String
  domain_reasons signal_name none = []
  domain_reasons signal_name (some fit) =
      if d.le (d.lit 80 0) fit
      then (append "strong theme fit " (whole_text (d.round fit))) ∷ []
      else when (is_nomination signal_name && d.le (d.lit 60 0) fit)
          (append "theme fit " (whole_text (d.round fit)))

  abbrev pub theme_reasons : Option F → List String
  theme_reasons none = []
  theme_reasons (some fit) =
      if d.le (d.lit 70 0) fit
      then (append "active parent theme fit " (whole_text (d.round fit))) ∷ []
      else when (d.le (d.lit 50 0) fit) (append "parent theme fit " (whole_text (d.round fit)))

module _ {V F : Type 0} ⦃d : F64 F⦄ ⦃j : SerdeJson V⦄ (whole_text : F → String) where
  unfoldable pub rank_reasons : RankInput V F → List String
  unfolding signal_reason
  rank_reasons input = flatten (
      (signal_reason input.signal_name ∷ [])
      ∷ strength_reasons input.signal_name (signal_strength input.signal_name input.signal_value)
      ∷ domain_reasons whole_text input.signal_name input.domain_fit
      ∷ theme_reasons whole_text input.parent_theme_fit
      ∷ dislocation_reasons input.dislocation_classification
      ∷ when (is_tier (pos 1) input.proposed_tier) "tier 1 candidate"
      ∷ when (d.le (d.lit 8 0) (list_fit_score input.proposed_lists))
          "high-confidence watchlist fit"
      ∷ when input.has_suggested_new_list "suggests new watchlist"
      ∷ [])

  unfoldable pub rank_candidate : RankInput V F → CandidateRank F
  unfolding raw_score rank_reasons bucket_of
  rank_candidate input =
      let score = clamp nought (d.lit 100 0) (raw_score input) in
      record { score = score; bucket = bucket_of score; reasons = rank_reasons input }
