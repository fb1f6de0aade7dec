-- ===== src/Technical/Events.antt =====
-- The past events of a chart, and the whole state, of src/platform/technical.rs. `same_week` stands
-- for the comparison of `iso_week` of chrono. The field `summary` is left out, and `symbol`, which is
-- the argument in capitals.
use Prim.Native.String
use stocks.Base.{
  ℕ, String, Bool, false, not, ◌||◌, Option, none, some, List, [], ◌∷◌, ◌++◌, map, length, ltb, leb,
  if◌then◌else◌, str_eq, flatten,
}
use stocks.Base.Int.{leb_ℤ}
use stocks.Base.Windows.{walk, take, nth, history, sort_by}
use stocks.Time.{DateTime}
use stocks.Float.{F64, F64Math, nought}
use stocks.Technical.Types.{
  TechnicalBar, CrossEvent, AnalogEvent, IntervalTechnical, DailyTechnical, CrossTechnical,
  TechnicalSetup,
}
use stocks.Technical.Series.{hundred, round2, sma_at, rsi14_series, lowest_of}
use stocks.Technical.Daily.{
  Labelled, closes_of, rsi_zone, daily_state, interval_state, last_value, last_ts,
}
use stocks.Technical.Cross.{cross_technical}
use stocks.Technical.Setup.{classify_state, classify_setup, is_crossing}

module _ {F : Type 0} ⦃d : F64 F⦄ where
  -- `direction`, by the two tests in their order.
  abbrev pub direction_of : F → F → F → F → Option String
  direction_of prev prev_sma curr curr_sma =
      if is_crossing "up" prev prev_sma curr curr_sma
      then some "up"
      else if is_crossing "down" prev prev_sma curr curr_sma
      then some "down"
      else none

  abbrev pub crossing_event : ℕ → TechnicalBar F → F → Option String → List (CrossEvent F)
  crossing_event n bar curr_sma none = []
  crossing_event n bar curr_sma (some direction) =
      record {
        window = n;
        direction = direction;
        at = bar.ts;
        close = round2 bar.close;
        sma = round2 curr_sma;
      }
      ∷ []

  abbrev pub crossing_of :
      ℕ → TechnicalBar F → TechnicalBar F → Option F → Option F → List (CrossEvent F)
  crossing_of n bar prev (some prev_sma) (some curr_sma) =
      crossing_event n bar curr_sma (direction_of prev.close prev_sma bar.close curr_sma)
  crossing_of n bar prev (some prev_sma) none = []
  crossing_of n bar prev none curr = []

  -- What the bar adds to the events of a window.
  abbrev pub events_at : ℕ → TechnicalBar F → List (TechnicalBar F) → List (CrossEvent F)
  events_at n bar [] = []
  events_at n bar (prev ∷ seen) =
      crossing_of n bar prev (sma_at n (closes_of (prev ∷ seen)))
        (sma_at n (closes_of (bar ∷ prev ∷ seen)))

  abbrev pub all_crosses : List (TechnicalBar F) → List ℕ → List (CrossEvent F)
  all_crosses bars windows = flatten (map (λ n. flatten (walk (events_at n) [] bars)) windows)

  -- The latest first.
  abbrev pub not_earlier : CrossEvent F → CrossEvent F → Bool
  not_earlier x y = leb_ℤ y.at x.at

  unfoldable pub last_crosses : List (TechnicalBar F) → List ℕ → ℕ → List (CrossEvent F)
  unfolding walk sort_by take
  last_crosses bars windows limit = take limit (sort_by not_earlier (all_crosses bars windows))

  -- Whether the entry before is in the zone too.
  abbrev pub was_in : String → List (Option F) → Bool
  was_in zone [] = false
  was_in zone (none ∷ seen) = false
  was_in zone (some prev ∷ seen) = str_eq (rsi_zone prev) zone

  -- A list of bars, of which a bar is added to the last week or starts a new one; the last first.
  abbrev pub merged : TechnicalBar F → TechnicalBar F → TechnicalBar F
  merged last bar = record {
    ts = bar.ts;
    close = bar.close;
    high = d.max last.high bar.high;
    low = d.min last.low bar.low;
    volume = d.add last.volume bar.volume;
  }

  unfoldable pub weeks_onto :
      (DateTime → DateTime → Bool)
      → List (TechnicalBar F)
      → List (TechnicalBar F)
      → List (TechnicalBar F)
  weeks_onto same_week out [] = out
  weeks_onto same_week [] (bar ∷ bars) = weeks_onto same_week (bar ∷ []) bars
  weeks_onto same_week (last ∷ out) (bar ∷ bars) =
      weeks_onto same_week
        (if same_week last.ts bar.ts then merged last bar ∷ out else bar ∷ last ∷ out) bars

  unfoldable pub weekly_bars :
      (DateTime → DateTime → Bool) → List (TechnicalBar F) → List (TechnicalBar F)
  unfolding weeks_onto history
  weekly_bars same_week daily = history (weeks_onto same_week [] daily)

module _ {F : Type 0} ⦃d : F64 F⦄ ⦃m : F64Math F⦄ where
  abbrev pub analog_event :
      String → TechnicalBar F → F → List (TechnicalBar F) → TechnicalBar F → AnalogEvent F
  analog_event zone bar value ahead last =
      let start = bar.close in
      let min_low = lowest_of (map (λ (b : TechnicalBar F). b.low) ahead) in
      record {
        kind = Prim.Native.String.◌++◌ "daily_rsi_entered_" zone;
        at = bar.ts;
        close = round2 start;
        rsi14 = round2 value;
        forward_return_20d_pct =
            some (round2 (d.mul (d.div (d.sub last.close start) start) hundred));
        max_drawdown_20d_pct = some (round2 (d.mul (d.div (d.sub min_low start) start) hundred));
      }

  abbrev pub analog_of :
      String
      → TechnicalBar F
      → F
      → List (Option F)
      → List (TechnicalBar F)
      → Option (TechnicalBar F)
      → List (AnalogEvent F)
  analog_of zone bar value seen ahead none = []
  analog_of zone bar value seen ahead (some last) =
      if not (str_eq (rsi_zone value) zone) || was_in zone seen || d.le bar.close nought
      then []
      else analog_event zone bar value ahead last ∷ []

  -- The loop from index 1 to the last with more than twenty bars after it: `seen` holds the values
  -- before the entry, and is empty at index 0.
  unfoldable pub analogs :
      String → List (Option F) → List (Option F) → List (TechnicalBar F) → List (AnalogEvent F)
  analogs zone seen [] bars = []
  analogs zone seen (v ∷ values) [] = []
  analogs zone [] (v ∷ values) (bar ∷ bars) = analogs zone (v ∷ []) values bars
  analogs zone (s ∷ seen) (none ∷ values) (bar ∷ bars) = analogs zone (none ∷ s ∷ seen) values bars
  analogs zone (s ∷ seen) (some v ∷ values) (bar ∷ bars) =
      (if ltb 20 (length bars)
        then analog_of zone bar v (s ∷ seen) (take 20 bars) (nth 19 bars)
        else [])
      ++ analogs zone (some v ∷ s ∷ seen) values bars

  abbrev pub latest_first : AnalogEvent F → AnalogEvent F → Bool
  latest_first x y = leb_ℤ y.at x.at

  abbrev pub analogs_of : Option F → List (Option F) → List (TechnicalBar F) → List (AnalogEvent F)
  analogs_of none rsi bars = []
  analogs_of (some v) rsi bars =
      if str_eq (rsi_zone v) "unknown" then [] else analogs (rsi_zone v) [] rsi bars

  unfoldable pub analog_events : List (TechnicalBar F) → ℕ → List (AnalogEvent F)
  unfolding rsi14_series sort_by take analogs history
  analog_events bars limit =
      let rsi = rsi14_series (closes_of bars) in
      take limit (sort_by latest_first (analogs_of (last_value rsi) rsi bars))

abbrev pub interval_rank : String → ℕ
interval_rank label =
    if str_eq label "30m"
    then 0
    else if str_eq label "2h"
    then 1
    else if str_eq label "4h"
    then 2
    else if str_eq label "1d"
    then 3
    else if str_eq label "1w"
    then 4
    else 99

abbrev pub rank_leb : {F : Type 0} → IntervalTechnical F → IntervalTechnical F → Bool
rank_leb x y = leb (interval_rank x.interval) (interval_rank y.interval)

pub record TechnicalState (F : Type 0) : Type 0 where
  pub as_of : Option DateTime
  pub state : String
  pub setup : TechnicalSetup
  pub daily : Option (DailyTechnical F)
  pub cross : Option CrossTechnical
  pub intervals : List (IntervalTechnical F)
  pub last_crosses : List (CrossEvent F)
  pub analog_events : List (AnalogEvent F)

module _ {F : Type 0} ⦃d : F64 F⦄ ⦃m : F64Math F⦄ (same_week : DateTime → DateTime → Bool) where
  unfoldable pub intervals_of :
      List (TechnicalBar F) → List (Labelled F) → List (IntervalTechnical F)
  unfolding interval_state weekly_bars sort_by
  intervals_of daily intraday = sort_by rank_leb (
      interval_state "1d" daily
      ∷ interval_state "1w" (weekly_bars same_week daily)
      ∷ map (λ (b : Labelled F). interval_state b.0 b.1) intraday)

  unfoldable pub build_technical_state_with_benchmarks :
      List (TechnicalBar F) → List (Labelled F) → List (Labelled F) → TechnicalState F
  unfolding intervals_of daily_state classify_state classify_setup last_crosses analog_events
      history
  build_technical_state_with_benchmarks daily intraday benchmarks =
      let intervals = intervals_of daily intraday in
      let daily_technical = daily_state daily benchmarks in
      let cross = cross_technical daily_technical intervals in
      let state = classify_state daily daily_technical intervals cross in
      record {
        as_of = last_ts daily;
        state = state;
        setup = classify_setup daily daily_technical intervals state;
        daily = daily_technical;
        cross = cross;
        intervals = intervals;
        last_crosses = last_crosses daily (50 ∷ 200 ∷ []) 6;
        analog_events = analog_events daily 5;
      }

  unfoldable pub build_technical_state :
      List (TechnicalBar F) → List (Labelled F) → TechnicalState F
  unfolding build_technical_state_with_benchmarks
  build_technical_state daily intraday = build_technical_state_with_benchmarks daily intraday []
