-- ===== src/Technical/Reclaim.antt =====
-- When the technical state of src/platform/technical.rs calls a chart actionable.
use Prim.Native.Nat.{max}
use stocks.Base.{
  ℕ, suc, ◌+◌, ◌-◌, ◌≤◌, ◌<◌, ◌≡◌, refl, ◌∙◌, inl, inr, String, Bool, true, false, ◌&&◌, ◌||◌,
  Option, none, some, List, [], ◌∷◌, length, ltb, leb, if◌then◌else◌, str_eq, eq_iff, is_some_and,
  any, arith, false≢true, Bool-cases, Option-cases, and_true,
}
use stocks.Base.Windows.{walk, take, nth}
use mathlib.Core.Option.{some-injective}
use stocks.Time.{DateTime}
use stocks.Float.{F64, F64Math}
use stocks.Technical.Types.{TechnicalBar, IntervalTechnical, DailyTechnical}
use stocks.Technical.Daily.{Labelled, daily_state}
use stocks.Technical.Cross.{daily_interval, sma_pct, at_least, at_most, pso_extreme}
use stocks.Technical.Setup.{
  setup, classify_setup, has_reclaimed, sma200_rows, rsi_of, is_near_reclaim, recent_cross_index,
  last_true, crosses_at, was_above, prior_above, up_after,
}
use stocks.Technical.Entry.{or_false}
use stocks.Technical.Events.{intervals_of, build_technical_state_with_benchmarks}

nth_suc :
    (i k : ℕ) (b : Bool) (bs : List Bool) → i + 1 ≤ k → nth (k - i) (b ∷ bs) ≡ nth (k - (i + 1)) bs
unfolding nth
nth_suc i k b bs h = let e : k - i ≡ suc (k - (i + 1)) = omega arith in rw e refl

-- The index that is found is in the range, and its entry is true.
last_true_lem :
    (start i : ℕ) (bs : List Bool) (k : ℕ)
    → last_true start i bs ≡ some k
    → (start ≤ k) × (i ≤ k) × (nth (k - i) bs ≡ some true)
unfolding last_true nth
last_true_lem start i [] k h = cc
last_true_lem start i (b ∷ bs) k h = elim (Option-cases (last_true start (i + 1) bs)) [
  | inl none_later ↦ here (b && leb start i) refl (rw none_later at h)
  | inr (later, e) ↦
      let same : some later ≡ some k = rw e at h in
      let there = some-injective later k same in
      let (p, q, r) = last_true_lem start (i + 1) bs k (rw (e, there) refl) in
      (p, omega (arith, q), nth_suc i k b bs q ∙ r)
]
  where
    here :
        (found : Bool)
        → (b && leb start i) ≡ found
        → (if found then some i else none) ≡ some k
        → (start ≤ k) × (i ≤ k) × (nth (k - i) (b ∷ bs) ≡ some true)
    here true e found =
        let same = some-injective i k found in
        let first : k - i ≡ 0 = omega (arith, same) in
        let (is_true, in_range) = and_true b (leb start i) e in
        (ground (arith, same, in_range), omega (arith, same), rw (first, is_true) refl)
    here false e found = cc

-- A chart that has come back over its 200-day average.
pub record IsReclaim {F : Type 0} ⦃d : F64 F⦄ (rows : List (F × Option F)) (t : DailyTechnical F)
    (interval : Option (IntervalTechnical F)) : Type 0 where
  pub up : ℕ
  pub down : ℕ
  pub later : down < up
  pub recent : length rows ≤ up + 46
  pub crossed_up : nth up (walk (crosses_at "up") [] rows) ≡ some true
  pub crossed_down : nth down (walk (crosses_at "down") [] rows) ≡ some true
  pub was_over : any was_above (take down rows) ≡ true
  pub near : at_most (d.lit 8 0) (sma_pct t 200) ≡ true
  pub cool : at_least (d.lit 70 0) (rsi_of interval) ≡ false
  pub calm : is_some_and pso_extreme interval ≡ false

actionable_word :
    (reclaimed near hot reversal watch run base bad : Bool)
    → str_eq
        (if reclaimed
          then setup "200d_reclaim" (if hot then "wait_retest" else "actionable")
          else if near
          then setup "200d_reclaim_watch" "wait_reclaim"
          else if reversal
          then setup "pullback_reversal" "starter_ok"
          else if watch
          then setup "pullback_watch" "wait_reversal"
          else if run
          then setup "extended_run" "avoid_chase"
          else if base
          then setup "base_building" "wait_breakout"
          else if bad
          then setup "breakdown" "avoid"
          else setup "constructive_trend" "constructive").entry_stance
        "actionable"
      ≡ true
    → (reclaimed ≡ true) × (hot ≡ false)
actionable_word true n true r w x b c h = absurd (false≢true h)
actionable_word true n false r w x b c h = (refl, refl)
actionable_word false true a r w x b c h = absurd (false≢true h)
actionable_word false false a true w x b c h = absurd (false≢true h)
actionable_word false false a false true x b c h = absurd (false≢true h)
actionable_word false false a false false true b c h = absurd (false≢true h)
actionable_word false false a false false false true c h = absurd (false≢true h)
actionable_word false false a false false false false true h = absurd (false≢true h)
actionable_word false false a false false false false false h = absurd (false≢true h)

module _ {F : Type 0} ⦃d : F64 F⦄ where
  -- The index of a recent cross is that of a cross, at most `lookback` bars before the last.
  recent_cross_index_lem :
      (rows : List (F × Option F)) (direction : String) (lookback k : ℕ)
      → recent_cross_index rows direction lookback ≡ some k
      → (length rows ≤ k + (lookback + 1))
        × (nth k (walk (crosses_at direction) [] rows) ≡ some true)
  unfolding recent_cross_index
  recent_cross_index_lem rows direction lookback k h = elim (Bool-cases (ltb (length rows) 2)) [
    | inl few ↦ let no : none ≡ some k = rw few at h in cc
    | inr enough ↦
        let found : last_true (max (length rows - (lookback + 1)) 1) 0
              (walk (crosses_at direction) [] rows)
            ≡ some k =
          rw enough at h in
        let (p, _, r) =
          last_true_lem (max (length rows - (lookback + 1)) 1) 0
            (walk (crosses_at direction) [] rows) k found in
        let whole : k - 0 ≡ k = omega arith in
        (bound (length rows) (lookback + 1) k p, rw whole at r)
  ]
    where
      bound : (n l k : ℕ) → max (n - l) 1 ≤ k → n ≤ k + l
      bound n l k p = omega (arith, p)

  reclaim_parts :
      (rows : List (F × Option F)) (pct : Option F) (up down : Option ℕ)
      → (up_after up down && prior_above rows down && at_most (d.lit 8 0) pct) ≡ true
      → (u v : ℕ) × (up ≡ some u)
        × (down ≡ some v)
        × (v < u)
        × (any was_above (take v rows) ≡ true)
        × (at_most (d.lit 8 0) pct ≡ true)
  reclaim_parts rows pct (some u) (some v) h =
      (u, v, refl, refl, ground arith, ground arith, ground arith)
  reclaim_parts rows pct (some u) none h = absurd (false≢true h)
  reclaim_parts rows pct none down h = absurd (false≢true h)

  -- What "actionable" requires of the daily bars.
  abbrev pub IsActionable :
      List (TechnicalBar F) → Option (DailyTechnical F) → List (IntervalTechnical F) → Type 0
  IsActionable daily none intervals = ⊥
  IsActionable daily (some t) intervals = IsReclaim (sma200_rows daily) t (daily_interval intervals)

  reclaimed-IsReclaim :
      (rows : List (F × Option F)) (t : DailyTechnical F) (interval : Option (IntervalTechnical F))
      → has_reclaimed rows (sma_pct t 200) ≡ true
      → (at_least (d.lit 70 0) (rsi_of interval) || is_some_and pso_extreme interval) ≡ false
      → IsReclaim rows t interval
  reclaimed-IsReclaim rows t interval h quiet =
      let (u, v, p, q, after, over, near_it) =
        reclaim_parts rows (sma_pct t 200) (recent_cross_index rows "up" 45)
          (recent_cross_index rows "down" 180) h in
      let (recent_up, cross_up) = recent_cross_index_lem rows "up" 45 u p in
      let (_, cross_down) = recent_cross_index_lem rows "down" 180 v q in
      let (cool, calm) = or_false _ _ quiet in
      record {
        up = u;
        down = v;
        later = after;
        recent = recent_up;
        crossed_up = cross_up;
        crossed_down = cross_down;
        was_over = over;
        near = near_it;
        cool = cool;
        calm = calm;
      }

  actionable :
      (daily : List (TechnicalBar F)) (t : Option (DailyTechnical F))
      (intervals : List (IntervalTechnical F)) (state : String)
      → str_eq (classify_setup daily t intervals state).entry_stance "actionable" ≡ true
      → IsActionable daily t intervals
  unfolding classify_setup
  actionable daily none intervals state h = absurd (false≢true h)
  actionable daily (some t) intervals state h =
      let rows = sma200_rows daily in
      let interval = daily_interval intervals in
      let (reclaimed, quiet) =
        actionable_word (has_reclaimed rows (sma_pct t 200)) (is_near_reclaim rows (sma_pct t 200))
          (at_least (d.lit 70 0) (rsi_of interval) || is_some_and pso_extreme interval)
          (str_eq state "reversal_confirming") (str_eq state "pullback_watch")
          (str_eq state "extended") (str_eq state "base_building") (str_eq state "deteriorating")
          h in
      reclaimed-IsReclaim rows t interval reclaimed quiet

module _ {F : Type 0} ⦃d : F64 F⦄ ⦃m : F64Math F⦄ where
  -- A chart is called "actionable" only where its close crossed its 200-day average upwards within
  -- the last 46 bars, after it had crossed it downwards from a time above it, while it is at most 8%
  -- over the average, its relative strength index is below 70 or missing, and no PSO is at its extreme.
  pub build_technical_state-IsActionable :
      (same_week : DateTime → DateTime → Bool) (daily : List (TechnicalBar F))
      (intraday benchmarks : List (Labelled F))
      → let state = build_technical_state_with_benchmarks same_week daily intraday benchmarks in
        state.setup.entry_stance ≡ "actionable" → IsActionable daily state.daily state.intervals
  unfolding build_technical_state_with_benchmarks
  build_technical_state-IsActionable same_week daily intraday benchmarks h =
      actionable daily (daily_state daily benchmarks) (intervals_of same_week daily intraday) _
        ((eq_iff _ "actionable").1 h)
