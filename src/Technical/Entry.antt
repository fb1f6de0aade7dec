-- ===== src/Technical/Entry.antt =====
-- When the technical state of src/platform/technical.rs says that a chart may be entered.
use stocks.Base.{
  ℕ, ◌≡◌, refl, sym, ◌∙◌, String, Bool, true, false, not, ◌&&◌, ◌||◌, Option, none, some, List,
  length, leb, if◌then◌else◌, str_eq, eq_iff, is_some_and, arith, false≢true,
}
use stocks.Time.{DateTime}
use stocks.Float.{F64, F64Math, nought}
use stocks.Technical.Types.{
  TechnicalBar, IntervalTechnical, DailyTechnical, CrossTechnical, TechnicalSetup,
}
use stocks.Technical.Daily.{Labelled, daily_state}
use stocks.Technical.Reversal.{IsReversalIn, is_reversal}
use stocks.Technical.Cross.{
  trend_at, reversal_at, momentum_at, pulled_back, oversold_at, testing_200, above_vwap, below_vwap,
  cross_of, cross_technical, trend_of, reversal_of, timing_of, above_or_near_200,
  extended_from_trend, is_broken, daily_interval, oscillator_extended, sma_pct, at_least, below,
  pso_extreme, pso_turning_at, macd_turning_of,
}
use stocks.Technical.Setup.{
  setup, has_timing, state_of, classify_state, setup_of_state, classify_setup, has_reclaimed,
  sma200_rows, rsi_of, is_near_reclaim, is_extended, is_deteriorating,
}
use stocks.Technical.Events.{intervals_of, build_technical_state_with_benchmarks}

-- The word of a conditional that is not its first choice is that of the rest.
not_first :
    (b : Bool) (x y word : String)
    → str_eq x word ≡ false
    → str_eq (if b then x else y) word ≡ true
    → (b ≡ false) × (str_eq y word ≡ true)
not_first true x y word e h = absurd (false≢true (sym e ∙ h))
not_first false x y word e h = (refl, h)

-- The word of a conditional whose rest does not give it.
only_first :
    (b : Bool) (x y word : String)
    → str_eq y word ≡ false
    → str_eq (if b then x else y) word ≡ true
    → b ≡ true
only_first true x y word e h = refl
only_first false x y word e h = absurd (false≢true (sym e ∙ h))

neither :
    (b : Bool) (x y word : String)
    → str_eq x word ≡ false
    → str_eq y word ≡ false
    → str_eq (if b then x else y) word ≡ false
neither true x y word e f = e
neither false x y word e f = f

trend_of-unbroken :
    (broken extended near pulled testing : Bool)
    → str_eq (trend_of broken extended near pulled testing) "breakdown" ≡ false
    → str_eq (trend_of broken extended near pulled testing) "extended_chase" ≡ false
    → (broken ≡ false) × (extended ≡ false)
unfolding trend_of
trend_of-unbroken true extended near pulled testing h k = absurd (false≢true (sym h))
trend_of-unbroken false true near pulled testing h k = absurd (false≢true (sym k))
trend_of-unbroken false false near pulled testing h k = (refl, refl)

reversal_of-confirmed :
    (pso macd : Bool)
    → str_eq (reversal_of pso macd) "confirmed" ≡ true
    → (pso ≡ true) × (macd ≡ true)
unfolding reversal_of
reversal_of-confirmed true true h = (refl, refl)
reversal_of-confirmed true false h = absurd (false≢true h)
reversal_of-confirmed false true h = absurd (false≢true h)
reversal_of-confirmed false false h = absurd (false≢true h)

timing_of-reversal :
    (trend : String) (near sale : Bool) (reversal momentum : String) (supported : Bool)
    → str_eq (timing_of trend near sale reversal momentum supported) "pullback_reversal" ≡ true
    → (str_eq trend "breakdown" ≡ false)
      × (str_eq trend "extended_chase" ≡ false)
      × (near ≡ true)
      × (sale ≡ true)
      × (str_eq reversal "confirmed" ≡ true)
unfolding timing_of
timing_of-reversal trend near sale reversal momentum supported h =
    let (unbroken, h1) = not_first (str_eq trend "breakdown") _ _ "pullback_reversal" refl h in
    let (calm, h2) = not_first (str_eq trend "extended_chase") _ _ "pullback_reversal" refl h1 in
    let both =
      only_first (near && sale && str_eq reversal "confirmed") _ _ "pullback_reversal"
        (neither (near && sale) _ _ _ refl
          (neither (near && str_eq momentum "positive" && supported) _ _ _ refl refl))
        h2 in
    (unbroken, calm, ground (arith, both), ground (arith, both), ground (arith, both))

pub or_false : (a b : Bool) → (a || b) ≡ false → (a ≡ false) × (b ≡ false)
or_false a b h = ground arith

starter_word :
    (reversal watch run base bad : Bool)
    → str_eq
        (if reversal
          then setup "pullback_reversal" "starter_ok"
          else if watch
          then setup "pullback_watch" "wait_reversal"
          else if run
          then setup "extended_run" "avoid_chase"
          else if base
          then setup "base_building" "wait_breakout"
          else if bad
          then setup "breakdown" "avoid"
          else setup "constructive_trend" "constructive").entry_stance
        "starter_ok"
      ≡ true
    → reversal ≡ true
starter_word true watch run base bad h = refl
starter_word false true run base bad h = absurd (false≢true h)
starter_word false false true base bad h = absurd (false≢true h)
starter_word false false false true bad h = absurd (false≢true h)
starter_word false false false false true h = absurd (false≢true h)
starter_word false false false false false h = absurd (false≢true h)

reversal_word :
    (reversal watch extended bad base good : Bool)
    → str_eq
        (if reversal
          then "reversal_confirming"
          else if watch
          then "pullback_watch"
          else if extended
          then "extended"
          else if bad
          then "deteriorating"
          else if base
          then "base_building"
          else if good
          then "constructive"
          else "unknown")
        "reversal_confirming"
      ≡ true
    → reversal ≡ true
reversal_word true watch extended bad base good h = refl
reversal_word false true extended bad base good h = absurd (false≢true h)
reversal_word false false true bad base good h = absurd (false≢true h)
reversal_word false false false true base good h = absurd (false≢true h)
reversal_word false false false false true good h = absurd (false≢true h)
reversal_word false false false false false true h = absurd (false≢true h)
reversal_word false false false false false false h = absurd (false≢true h)

-- The stance of a reclaim of the 200-day average is never that of a reversal.
reclaim_word :
    (reclaimed near hot : Bool) (s : TechnicalSetup)
    → str_eq
        (if reclaimed
          then setup "200d_reclaim" (if hot then "wait_retest" else "actionable")
          else if near
          then setup "200d_reclaim_watch" "wait_reclaim"
          else s).entry_stance
        "starter_ok"
      ≡ true
    → str_eq s.entry_stance "starter_ok" ≡ true
reclaim_word true near true s h = absurd (false≢true h)
reclaim_word true near false s h = absurd (false≢true h)
reclaim_word false true hot s h = absurd (false≢true h)
reclaim_word false false hot s h = h

setup_of_state-starter :
    (state : String)
    → str_eq (setup_of_state state).entry_stance "starter_ok" ≡ true
    → str_eq state "reversal_confirming" ≡ true
setup_of_state-starter state h =
    starter_word (str_eq state "reversal_confirming") (str_eq state "pullback_watch")
      (str_eq state "extended") (str_eq state "base_building") (str_eq state "deteriorating") h

module _ {F : Type 0} ⦃d : F64 F⦄ where
  cross_of-IsReversal :
      (t : DailyTechnical F) (interval : Option (IntervalTechnical F))
      → str_eq (cross_of t interval).buy_timing "pullback_reversal" ≡ true
      → IsReversalIn t interval
  unfolding cross_of trend_at reversal_at
  cross_of-IsReversal t interval h =
      let (unbroken, calm, near, sale, confirmed) =
        timing_of-reversal (trend_at t interval) (above_or_near_200 t)
          (pulled_back t || is_some_and oversold_at interval) (reversal_at t interval)
          (momentum_at t interval) (above_vwap t || not (below_vwap t)) h in
      let (broken, extended) =
        trend_of-unbroken (is_broken t)
          (extended_from_trend t || is_some_and oscillator_extended interval) (above_or_near_200 t)
          (pulled_back t) (testing_200 t) unbroken calm in
      let (pso, macd) =
        reversal_of-confirmed (is_some_and pso_turning_at interval) (macd_turning_of t.macd)
          confirmed in
      is_reversal t interval near (or_false _ _ extended).0 (or_false _ _ extended).1 sale pso macd

  state_of-reversal :
      (bars : ℕ) (t : DailyTechnical F) (interval : Option (IntervalTechnical F))
      (cross : Option CrossTechnical)
      → str_eq (state_of bars t interval cross) "reversal_confirming" ≡ true
      → has_timing "pullback_reversal" cross ≡ true
  state_of-reversal bars t interval cross h =
      reversal_word (has_timing "pullback_reversal" cross) (has_timing "pullback_watch" cross)
        (is_extended t interval) (is_deteriorating t interval cross)
        (is_some_and (λ v. d.le (d.abs v) (d.lit 5 0)) (sma_pct t 50) && leb 50 bars)
        (at_least nought (sma_pct t 200) && below (d.lit 70 0) (rsi_of interval)) h

  classify_setup-starter :
      (daily : List (TechnicalBar F)) (t : DailyTechnical F)
      (intervals : List (IntervalTechnical F)) (state : String)
      → str_eq (classify_setup daily (some t) intervals state).entry_stance "starter_ok" ≡ true
      → str_eq state "reversal_confirming" ≡ true
  unfolding classify_setup
  classify_setup-starter daily t intervals state h =
      let rows = sma200_rows daily in
      let interval = daily_interval intervals in
      setup_of_state-starter state (
        reclaim_word (has_reclaimed rows (sma_pct t 200)) (is_near_reclaim rows (sma_pct t 200))
          (at_least (d.lit 70 0) (rsi_of interval) || is_some_and pso_extreme interval)
          (setup_of_state state) h)

  -- What "starter_ok" requires of the daily state.
  abbrev pub IsStarter : Option (DailyTechnical F) → List (IntervalTechnical F) → Type 0
  IsStarter none intervals = ⊥
  IsStarter (some t) intervals = IsReversalIn t (daily_interval intervals)

  starter :
      (daily : List (TechnicalBar F)) (t : Option (DailyTechnical F))
      (intervals : List (IntervalTechnical F))
      → str_eq
          (classify_setup daily t intervals
            (classify_state daily t intervals (cross_technical t intervals))).entry_stance
          "starter_ok"
        ≡ true
      → IsStarter t intervals
  unfolding classify_state classify_setup
  starter daily none intervals h = absurd (false≢true h)
  starter daily (some t) intervals h = cross_of-IsReversal t (daily_interval intervals) (
      state_of-reversal (length daily) t (daily_interval intervals)
        (some (cross_of t (daily_interval intervals)))
        (classify_setup-starter daily t intervals _ h))

module _ {F : Type 0} ⦃d : F64 F⦄ ⦃m : F64Math F⦄ where
  -- The stance "starter_ok", by which a strategy may open a position, is given only to a chart with
  -- daily bars and a daily interval that is at most 2% below its 200-day average and at most 20% above
  -- it, that is not within 2% of its 252-day high, none of whose oscillators is at its upper end, that
  -- has pulled back (in price or by an oscillator), of which the PSO has risen by more than 0.03 or the
  -- stochastic, not above 45, lies above its average, and of which the MACD histogram has risen.
  pub build_technical_state-IsStarter :
      (same_week : DateTime → DateTime → Bool) (daily : List (TechnicalBar F))
      (intraday benchmarks : List (Labelled F))
      → let state = build_technical_state_with_benchmarks same_week daily intraday benchmarks in
        state.setup.entry_stance ≡ "starter_ok" → IsStarter state.daily state.intervals
  unfolding build_technical_state_with_benchmarks
  build_technical_state-IsStarter same_week daily intraday benchmarks h =
      starter daily (daily_state daily benchmarks) (intervals_of same_week daily intraday)
        ((eq_iff _ "starter_ok").1 h)
