-- ===== src/Discovery/Ranking/Score.antt =====
-- How the rank of src/discovery/ranking.rs answers to what is known of a candidate.
use stocks.Base.{
  ℕ, ◌≡◌, refl, ◌≤◌, true, false, String, Bool, Option, none, some, if◌then◌else◌, arith, str_eq,
  ◌==◌, false≢true,
}
use stocks.Base.Int.{ℤ, pos}
use stocks.Float.{F64, nought}
use stocks.Float.Monotone.{IsNumber, IsMonotone, clamp_mono}
use stocks.Automation.Strategy.Types.{SerdeJson}
use stocks.Discovery.Ranking.{
  RankInput, rank_candidate, band_of, bucket_of, raw_score, add_dislocation, add_tier, is_tier,
  signal_base, signal_strength, add_fit, list_fit_score,
}

-- From a crowd that chases to one that looks away.
abbrev pub neglect : Option String → ℕ
neglect none = 1
neglect (some classification) =
    if str_eq classification "ignored_indifference"
    then 3
    else if str_eq classification "hated_avoided"
    then 2
    else if str_eq classification "loved_mania"
    then 0
    else 1

abbrev pub standing : ℤ → ℕ
standing tier = if is_tier (pos 1) tier then 2 else if is_tier (pos 2) tier then 1 else 0

-- From "low" to "highest".
pub data IsNotWorse : String → String → Type 0 where
  from_low : (b : String) → IsNotWorse "low" b
  medium_medium : IsNotWorse "medium" "medium"
  medium_high : IsNotWorse "medium" "high"
  medium_highest : IsNotWorse "medium" "highest"
  high_high : IsNotWorse "high" "high"
  high_highest : IsNotWorse "high" "highest"
  highest_highest : IsNotWorse "highest" "highest"

band_of-IsNotWorse :
    (a b c x y z : Bool)
    → (a ≡ true → x ≡ true)
    → (b ≡ true → y ≡ true)
    → (c ≡ true → z ≡ true)
    → IsNotWorse (band_of a b c) (band_of x y z)
band_of-IsNotWorse true b c true y z h k l = highest_highest
band_of-IsNotWorse true b c false y z h k l = absurd (false≢true (h refl))
band_of-IsNotWorse false true c true y z h k l = high_highest
band_of-IsNotWorse false true c false true z h k l = high_high
band_of-IsNotWorse false true c false false z h k l = absurd (false≢true (k refl))
band_of-IsNotWorse false false true true y z h k l = medium_highest
band_of-IsNotWorse false false true false true z h k l = medium_high
band_of-IsNotWorse false false true false false true h k l = medium_medium
band_of-IsNotWorse false false true false false false h k l = absurd (false≢true (l refl))
band_of-IsNotWorse false false false x y z h k l = from_low (band_of x y z)

module _ {F : Type 0} ⦃d : F64 F⦄ (mono : IsMonotone d) where
  -- What each degree of neglect does to a score.
  abbrev moved : ℕ → F → F
  moved degree score =
      if degree == 0
      then d.sub score (d.lit 8 0)
      else if degree == 1
      then score
      else if degree == 2
      then d.add score (d.lit 6 0)
      else d.add score (d.lit 8 0)

  add_dislocation-neglect :
      (c : Option String) (score : F) → add_dislocation c score ≡ moved (neglect c) score
  add_dislocation-neglect none score = refl
  add_dislocation-neglect (some c) score = ground arith

  moved_mono :
      (m n : ℕ) (score : F) → IsNumber score → m ≤ n → d.le (moved m score) (moved n score) ≡ true
  moved_mono m n score number h =
      let fallen = mono.sub_lit_le score 8 (omega arith) number in
      let by_6 = mono.le_add_lit score 6 (omega arith) number in
      let by_8 = mono.le_add_lit score 8 (omega arith) number in
      ground (
        arith,
        mono.number_left (d.sub score (d.lit 8 0)) score fallen,
        mono.number_right score (d.add score (d.lit 6 0)) by_6,
        mono.number_right score (d.add score (d.lit 8 0)) by_8,
        mono.add_mono_lit score 6 8 number (omega arith) (omega arith),
        mono.le_trans (d.sub score (d.lit 8 0)) score (d.add score (d.lit 6 0)) fallen by_6,
        mono.le_trans (d.sub score (d.lit 8 0)) score (d.add score (d.lit 8 0)) fallen by_8,
      )

  moved-IsNumber : (m : ℕ) (score : F) → IsNumber (moved m score) → IsNumber score
  moved-IsNumber m score number = ground (
    arith,
    mono.number_of_sub score (d.lit 8 0),
    mono.number_of_add score (d.lit 6 0),
    mono.number_of_add score (d.lit 8 0),
  )

  abbrev tier_points : ℕ → ℕ
  tier_points rank = if rank == 2 then 10 else if rank == 1 then 6 else 2

  tier_points_mono : (m n : ℕ) → m ≤ n → n ≤ 2 → tier_points m ≤ tier_points n
  tier_points_mono m n h k = ground arith

  tier_points_bound : (m : ℕ) → tier_points m ≤ 100
  tier_points_bound m = ground arith

  standing_bound : (t : ℤ) → standing t ≤ 2
  standing_bound t = ground arith

  add_tier-standing :
      (t : ℤ) (score : F) → add_tier t score ≡ d.add score (d.lit (tier_points (standing t)) 0)
  add_tier-standing t score = ground arith

  add_mono :
      (x y : F) (m n : ℕ)
      → d.le x y ≡ true
      → m ≤ n
      → n ≤ 100
      → d.le (d.add x (d.lit m 0)) (d.add y (d.lit n 0)) ≡ true
  add_mono x y m n h le bound =
      let is_x = mono.number_left x y h in
      let is_y = mono.number_right x y h in
      mono.le_trans _ (d.add x (d.lit n 0)) _ (mono.add_mono_lit x m n is_x le bound) (
        mono.add_mono_left x y (d.lit n 0) h (mono.number_add_lit x n bound is_x)
          (mono.number_add_lit y n bound is_y))

  -- The end of the score: the points of the lists, and those of a new list.
  abbrev ended : Bool → F → F → F
  ended suggests fit score =
      let score = d.add score fit in if suggests then d.add score (d.lit 3 0) else score

  ended-IsNumber :
      (f : Bool) (fit score : F) → IsNumber (ended f fit score) → IsNumber (d.add score fit)
  ended-IsNumber true fit score h = mono.number_of_add _ _ h
  ended-IsNumber false fit score h = h

  ended_mono :
      (f g : Bool) (fit x y : F)
      → (f ≡ true → g ≡ true)
      → IsNumber (ended f fit x)
      → IsNumber (ended g fit y)
      → d.le x y ≡ true
      → d.le (ended f fit x) (ended g fit y) ≡ true
  ended_mono f g fit x y up is_x is_y h =
      let sums =
        mono.add_mono_left x y fit h (ended-IsNumber f fit x is_x) (ended-IsNumber g fit y is_y) in
      last f g up sums
    where
      last :
          (f g : Bool)
          → (f ≡ true → g ≡ true)
          → d.le (d.add x fit) (d.add y fit) ≡ true
          → d.le
              (if f then d.add (d.add x fit) (d.lit 3 0) else d.add x fit)
              (if g then d.add (d.add y fit) (d.lit 3 0) else d.add y fit)
            ≡ true
      last true true up sums = add_mono _ _ 3 3 sums (omega arith) (omega arith)
      last true false up sums = absurd (false≢true (up refl))
      last false true up sums =
          mono.le_trans _ _ _ sums (mono.le_add_lit _ 3 (omega arith) (mono.number_right _ _ sums))
      last false false up sums = sums

  -- The score from the signal and the fits on.
  abbrev scored : Option String → ℤ → Bool → F → F → F
  scored c t f fit score = ended f fit (add_tier t (add_dislocation c score))

  scored-IsNumber :
      (c : Option String) (t : ℤ) (f : Bool) (fit score : F)
      → IsNumber (scored c t f fit score)
      → IsNumber score
  scored-IsNumber c t f fit score h =
      let tiered = mono.number_of_add _ _ (ended-IsNumber f fit _ h) in
      let dislocated =
        mono.number_of_add _ _ (rw (add_tier-standing t (add_dislocation c score)) at tiered) in
      moved-IsNumber (neglect c) score (rw (add_dislocation-neglect c score) at dislocated)

  scored_mono :
      (c e : Option String) (t u : ℤ) (f g : Bool) (fit score : F)
      → IsNumber (scored c t f fit score)
      → IsNumber (scored e u g fit score)
      → neglect c ≤ neglect e
      → standing t ≤ standing u
      → (f ≡ true → g ≡ true)
      → d.le (scored c t f fit score) (scored e u g fit score) ≡ true
  scored_mono c e t u f g fit score is_left is_right warmer higher up =
      let number = scored-IsNumber c t f fit score is_left in
      let dislocated = moved_mono (neglect c) (neglect e) score number warmer in
      let tiered =
        add_mono (moved (neglect c) score) (moved (neglect e) score) (tier_points (standing t))
          (tier_points (standing u)) dislocated
          (tier_points_mono (standing t) (standing u) higher (standing_bound u))
          (tier_points_bound (standing u)) in
      ended_mono f g fit _ _ up is_left is_right (
        rw (add_tier-standing, add_tier-standing, add_dislocation-neglect, add_dislocation-neglect)
          tiered)

module _ {F : Type 0} ⦃d : F64 F⦄ (mono : IsMonotone d) where
  bucket_of-IsNotWorse : (x y : F) → d.le x y ≡ true → IsNotWorse (bucket_of x) (bucket_of y)
  unfolding bucket_of
  bucket_of-IsNotWorse x y h =
      band_of-IsNotWorse _ _ _ _ _ _ (λ k. mono.le_trans _ x y k h) (λ k. mono.le_trans _ x y k h)
        (λ k. mono.le_trans _ x y k h)

module _ {V F : Type 0} where
  -- The input with another dislocation, tier and suggestion.
  abbrev pub with_case : RankInput V F → Option String → ℤ → Bool → RankInput V F
  with_case input classification tier suggests = record input {
    dislocation_classification = classification;
    proposed_tier = tier;
    has_suggested_new_list = suggests;
  }

module _ {V F : Type 0} ⦃d : F64 F⦄ ⦃j : SerdeJson V⦄ (mono : IsMonotone d)
    (whole_text : F → String) where
  -- Of two candidates that differ in their dislocation, their tier and the suggestion of a new list
  -- alone, and whose scores are numbers: the one that the crowd neglects at least as much (it ignores,
  -- hates, has no view or chases), whose tier stands at least as high (1, 2, any other) and that
  -- suggests a list if the other does, has no lower score and no worse bucket. The sums may round.
  pub rank_candidate_mono :
      (input : RankInput V F) (c e : Option String) (t u : ℤ) (f g : Bool)
      → IsNumber (raw_score (with_case input c t f))
      → IsNumber (raw_score (with_case input e u g))
      → neglect c ≤ neglect e
      → standing t ≤ standing u
      → (f ≡ true → g ≡ true)
      → let worse = rank_candidate whole_text (with_case input c t f) in
        let better = rank_candidate whole_text (with_case input e u g) in
        (d.le worse.score better.score ≡ true) × IsNotWorse worse.bucket better.bucket
  unfolding rank_candidate raw_score
  rank_candidate_mono input c e t u f g is_left is_right warmer higher up =
      let raw =
        scored_mono mono c e t u f g (list_fit_score input.proposed_lists)
          (add_fit (d.lit 12 0) input.parent_theme_fit (
            add_fit (d.lit 15 0) input.domain_fit (
              d.add (signal_base input.signal_name)
                (signal_strength input.signal_name input.signal_value))))
          is_left is_right warmer higher up in
      let score =
        clamp_mono mono nought (d.lit 100 0) _ _ (mono.lit_mono 0 0 (omega arith))
          (mono.lit_mono 100 100 (omega arith)) raw in
      (score, bucket_of-IsNotWorse mono _ _ score)
