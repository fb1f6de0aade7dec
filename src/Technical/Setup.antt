-- ===== src/Technical/Setup.antt =====
-- `classify_state` and `classify_setup` of src/platform/technical.rs. The summary texts are left out.
use stocks.Base.{
  ℕ, ◌+◌, ◌-◌, String, Bool, false, not, ◌&&◌, ◌||◌, Option, none, some, List, [], ◌∷◌, length, ltb,
  leb, if◌then◌else◌, str_eq, any, is_some_and,
}
use stocks.Base.Windows.{walk, zip, take}
use Prim.Native.Nat.{max}
use stocks.Float.{F64, nought}
use stocks.Technical.Types.{
  TechnicalBar, IntervalTechnical, DailyTechnical, CrossTechnical, TechnicalSetup,
}
use stocks.Technical.Series.{sma_at}
use stocks.Technical.Daily.{closes_of}
use stocks.Technical.Cross.{
  sma_pct, pso_extreme, oscillator_extended, daily_interval, at_least, at_most, above, below,
  between, minus_lit,
}

abbrev pub has_timing : String → Option CrossTechnical → Bool
has_timing timing cross = is_some_and (λ (c : CrossTechnical). str_eq c.buy_timing timing) cross

module _ {F : Type 0} ⦃d : F64 F⦄ where
  abbrev pub rsi_of : Option (IntervalTechnical F) → Option F
  rsi_of none = none
  rsi_of (some i) = i.rsi14

  abbrev pub is_extended : DailyTechnical F → Option (IntervalTechnical F) → Bool
  is_extended t interval =
      above (d.lit 20 0) (sma_pct t 200)
      || at_least (minus_lit 2 0) t.pct_vs_252d_high
      || is_some_and oscillator_extended interval

  abbrev pub is_deteriorating :
      DailyTechnical F → Option (IntervalTechnical F) → Option CrossTechnical → Bool
  is_deteriorating t interval cross =
      let cross_pullback =
        has_timing "pullback_watch" cross || has_timing "pullback_reversal" cross in
      is_some_and (λ (c : CrossTechnical). str_eq c.trend_state "breakdown") cross
      || below (minus_lit 5 0) (sma_pct t 200)
      || (at_most (d.lit 40 0) (rsi_of interval) && not cross_pullback)

  abbrev pub state_of :
      ℕ → DailyTechnical F → Option (IntervalTechnical F) → Option CrossTechnical → String
  state_of bars t interval cross =
      if has_timing "pullback_reversal" cross
      then "reversal_confirming"
      else if has_timing "pullback_watch" cross
      then "pullback_watch"
      else if is_extended t interval
      then "extended"
      else if is_deteriorating t interval cross
      then "deteriorating"
      else if is_some_and (λ v. d.le (d.abs v) (d.lit 5 0)) (sma_pct t 50) && leb 50 bars
      then "base_building"
      else if at_least nought (sma_pct t 200) && below (d.lit 70 0) (rsi_of interval)
      then "constructive"
      else "unknown"

  unfoldable pub classify_state :
      List (TechnicalBar F)
      → Option (DailyTechnical F)
      → List (IntervalTechnical F)
      → Option CrossTechnical
      → String
  classify_state daily none intervals cross = "unknown"
  classify_state daily (some t) intervals cross =
      state_of (length daily) t (daily_interval intervals) cross

  abbrev pub is_crossing : String → F → F → F → F → Bool
  is_crossing direction prev prev_sma curr curr_sma =
      if str_eq direction "up"
      then d.le prev prev_sma && d.lt curr_sma curr
      else if str_eq direction "down"
      then d.le prev_sma prev && d.lt curr curr_sma
      else false

  -- Whether the close crosses its average at a bar.
  abbrev pub crosses_at : String → F × Option F → List (F × Option F) → Bool
  crosses_at direction row [] = false
  crosses_at direction (curr, some curr_sma) ((prev, some prev_sma) ∷ seen) =
      is_crossing direction prev prev_sma curr curr_sma
  crosses_at direction (curr, some curr_sma) ((prev, none) ∷ seen) = false
  crosses_at direction (curr, none) (row ∷ seen) = false

-- The last index from `start` on with a true entry, where the list begins at `index`.
unfoldable pub last_true : ℕ → ℕ → List Bool → Option ℕ
last_true start index [] = none
last_true start index (b ∷ bs) = elim (last_true start (index + 1) bs) [
  | some later ↦ some later
  | none ↦ if b && leb start index then some index else none
]

module _ {F : Type 0} ⦃d : F64 F⦄ where
  unfoldable pub recent_cross_index : List (F × Option F) → String → ℕ → Option ℕ
  unfolding walk last_true
  recent_cross_index rows direction lookback_bars =
      if ltb (length rows) 2
      then none
      else last_true (max (length rows - (lookback_bars + 1)) 1) 0
          (walk (crosses_at direction) [] rows)

  abbrev pub was_above : F × Option F → Bool
  was_above (close, none) = false
  was_above (close, some sma) = d.le sma close

  unfoldable pub sma200_rows : List (TechnicalBar F) → List (F × Option F)
  unfolding walk zip
  sma200_rows daily =
      zip (closes_of daily) (walk (λ x seen. sma_at 200 (x ∷ seen)) [] (closes_of daily))

  abbrev pub prior_above : List (F × Option F) → Option ℕ → Bool
  prior_above rows down = is_some_and (λ index. any was_above (take index rows)) down

  abbrev pub reclaim_stance : Option (IntervalTechnical F) → String
  reclaim_stance interval =
      if at_least (d.lit 70 0) (rsi_of interval) || is_some_and pso_extreme interval
      then "wait_retest"
      else "actionable"

-- The last cross up comes after the last cross down.
abbrev pub up_after : Option ℕ → Option ℕ → Bool
up_after (some up) (some down) = ltb down up
up_after (some up) none = false
up_after none down = false

abbrev pub setup : String → String → TechnicalSetup
setup kind stance = record { kind = kind; entry_stance = stance }

abbrev pub setup_of_state : String → TechnicalSetup
setup_of_state state =
    if str_eq state "reversal_confirming"
    then setup "pullback_reversal" "starter_ok"
    else if str_eq state "pullback_watch"
    then setup "pullback_watch" "wait_reversal"
    else if str_eq state "extended"
    then setup "extended_run" "avoid_chase"
    else if str_eq state "base_building"
    then setup "base_building" "wait_breakout"
    else if str_eq state "deteriorating"
    then setup "breakdown" "avoid"
    else setup "constructive_trend" "constructive"

module _ {F : Type 0} ⦃d : F64 F⦄ where
  abbrev pub has_reclaimed : List (F × Option F) → Option F → Bool
  has_reclaimed rows pct =
      let down = recent_cross_index rows "down" 180 in
      up_after (recent_cross_index rows "up" 45) down
      && prior_above rows down
      && at_most (d.lit 8 0) pct

  abbrev pub is_near_reclaim : List (F × Option F) → Option F → Bool
  is_near_reclaim rows pct =
      let down = recent_cross_index rows "down" 180 in
      is_some_and
        (λ index.
          prior_above rows down
          && ltb index (length rows - 1)
          && between (minus_lit 3 0) (d.lit 2 0) pct)
        down

  unfoldable pub classify_setup :
      List (TechnicalBar F)
      → Option (DailyTechnical F)
      → List (IntervalTechnical F)
      → String
      → TechnicalSetup
  unfolding sma200_rows recent_cross_index
  classify_setup daily none intervals state = setup "unknown" "wait_data"
  classify_setup daily (some t) intervals state =
      let rows = sma200_rows daily in
      if has_reclaimed rows (sma_pct t 200)
      then setup "200d_reclaim" (reclaim_stance (daily_interval intervals))
      else if is_near_reclaim rows (sma_pct t 200)
      then setup "200d_reclaim_watch" "wait_reclaim"
      else setup_of_state state
