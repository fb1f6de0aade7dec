-- ===== src/Discovery/Ranking/Tests.antt =====
-- The first test of src/discovery/ranking.rs, with the estimates revised by 4.0.
use stocks.Base.{arith, ◌≡◌, refl, Option, none, some, true, false, String, List, [], ◌∷◌}
use stocks.Base.Int.{pos, ◌+ℤ◌, ◌-ℤ◌, abs}
use stocks.Float.Micros.{Micros, micros_f64, Micros-IsMonotone, Micros-IsNumber}
use stocks.Automation.Strategy.Types.{SerdeJson}
use stocks.Discovery.Ranking.{
  CandidateRank, RankInput, rank_candidate, raw_score, rank_reasons, bucket_of, signal_base,
  signal_strength, signal_reason, list_fit_score, best_of,
}
use stocks.Discovery.Ranking.Score.{IsNotWorse, with_case, rank_candidate_mono}

-- `[{"confidence": "high"}]`.
data Lists : Type 0 where
  lists : Lists
  list : Lists
  high : Lists

abbrev field : Lists → String → Option Lists
field list key = some high
field _ key = none

abbrev text : Lists → Option String
text high = some "high"
text _ = none

abbrev items : Lists → Option (List Lists)
items lists = some (list ∷ [])
items _ = none

instance abbrev lists_json : SerdeJson Lists
lists_json = record { get = field; as_i64 = λ v. none; as_str = text; as_array = items }

-- The whole numbers of the test.
abbrev whole_text : Micros → String
whole_text x = "92"

abbrev revised : RankInput Lists Micros
revised = record {
  signal_name = "estimate_revision_velocity";
  signal_value = some (pos 4_000_000);
  domain_fit = some (pos 92_000_000);
  parent_theme_fit = none;
  dislocation_classification = none;
  proposed_tier = pos 1;
  proposed_lists = lists;
  has_suggested_new_list = false;
}

estimate_revision_with_strong_fit_ranks_highest :
    (rank_candidate whole_text revised).bucket ≡ "highest"
unfolding rank_candidate raw_score rank_reasons bucket_of signal_base signal_strength signal_reason
    list_fit_score best_of ◌+ℤ◌ ◌-ℤ◌ abs
estimate_revision_with_strong_fit_ranks_highest = refl

-- The candidate is chased and in tier 2, or hated, in tier 1 and suggests a list.
abbrev worse : CandidateRank Micros
worse = rank_candidate whole_text (with_case revised (some "loved_mania") (pos 2) false)

abbrev better : CandidateRank Micros
better = rank_candidate whole_text (with_case revised (some "hated_avoided") (pos 1) true)

rank_candidate_mono_example :
    (micros_f64.le worse.score better.score ≡ true) × IsNotWorse worse.bucket better.bucket
rank_candidate_mono_example =
    rank_candidate_mono Micros-IsMonotone whole_text revised (some "loved_mania")
      (some "hated_avoided") (pos 2) (pos 1) false true
      (Micros-IsNumber (raw_score (with_case revised (some "loved_mania") (pos 2) false)))
      (Micros-IsNumber (raw_score (with_case revised (some "hated_avoided") (pos 1) true)))
      (omega arith) (omega arith) (λ h. refl)
