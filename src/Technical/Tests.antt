-- ===== src/Technical/Tests.antt =====
-- Charts on which the technical state is computed, with numbers of whole millionths.
use stocks.Technical.Setup.{
  classify_state, last_true, recent_cross_index, sma200_rows, classify_setup,
}
use stocks.Technical.Cross.{
  sma_pct, vwap_pct, pso_extreme, oscillator_extended, oscillator_weak, vwap_state_of, trend_of,
  reversal_of, momentum_of, timing_of, reversal_at, trend_at, momentum_at, cross_of,
}
use stocks.Technical.Daily.{
  rsi_zone, stochastic_zone, pso_zone, stamped, span, current_zone_span, daily_state,
  interval_state,
}
use stocks.Technical.Indicators.{
  first_row, macd_state, atr_state, dmi_state, volume_of, volume_state, relative_strength_state,
  aggregate_relative_strength, bollinger_state,
}
use stocks.Base.{
  none, some, ℕ, zero, suc, ◌+◌, ◌-◌, ◌*◌, ◌/◌, ◌≡◌, refl, Bool, false, Option, List, [], ◌∷◌, ◌++◌,
  map, length, if◌then◌else◌, leb,
}
use stocks.Base.Int.{pos, pos_part, ◌+ℤ◌, ◌-ℤ◌, abs}
use stocks.Base.Windows.{
  replicate, take, drop, nth, reverse_onto, history, window_onto, window, walk, zip, insert_by,
  sort_by,
}
use stocks.Time.{DateTime}
use stocks.Float.{F64Math, sum}
use stocks.Float.Micros.{Micros, micros_f64}
use stocks.Technical.Types.{TechnicalBar}
use stocks.Technical.Series.{
  fold, rsi14_series, stochastic_k_series, round2, pct_vs, sma_at, weigh, vwap_at, rsi_from_avgs,
  changes, gains_losses, rsi_from, stochastic_at,
}
use stocks.Technical.Averages.{
  sma_optional, pso_series, true_range_series, ema_optional, wilder_optional, ema_from, wilder_from,
  latest_delta, trailing_return, relative_return,
}
use stocks.Technical.Positions.{range_position, stochastic_k_series-nth, sma_optional-nth}
use stocks.Technical.Events.{
  build_technical_state_with_benchmarks, last_crosses, weeks_onto, weekly_bars, analogs,
  analog_events, intervals_of,
}
use stocks.Technical.Entry.{IsStarter, build_technical_state-IsStarter}
use stocks.Technical.Reclaim.{IsActionable, build_technical_state-IsActionable}

-- The whole square root, by halving the range in which it lies.
root_between : ℕ → ℕ → ℕ → ℕ → ℕ
root_between zero n low high = low
root_between (suc fuel) n low high =
    let mid = (low + high) / 2 in
    root_between fuel n (if leb (mid * mid) n then mid else low)
      (if leb (mid * mid) n then high else mid)

-- The next n terms of the series of the exponential.
exp_terms : ℕ → ℕ → Micros → Micros → Micros
exp_terms zero k x term = term
exp_terms (suc n) k x term =
    term +ℤ exp_terms n (k + 1) x (micros_f64.div (micros_f64.mul term x) (pos (k * 1_000_000)))

instance abbrev micros_math : F64Math Micros
micros_math = record {
  sqrt = λ x. pos (root_between 64 (pos_part x * 1_000_000) 0 1_000_000_000_000);
  exp = λ x. exp_terms 24 1 x (pos 1_000_000);
  lowest = micros_f64.neg (pos 1_000_000_000_000);
  highest = pos 1_000_000_000_000;
}

abbrev whole : ℕ → Micros
whole n = pos (n * 1_000_000)

bar : ℕ → ℕ → TechnicalBar Micros
bar day close = record {
  ts = pos day;
  close = whole close;
  high = whole (close + 1);
  low = whole (close - 1);
  volume = whole 1_000;
}

chart : ℕ → List ℕ → List (TechnicalBar Micros)
chart day [] = []
chart day (close ∷ closes) = bar day close ∷ chart (day + 1) closes

never : DateTime → DateTime → Bool
never x y = false

-- A rise, and a pullback that turns.
pullback : List (TechnicalBar Micros)
pullback = chart 0 (replicate 150 100 ++ (replicate 45 115 ++ (112 ∷ 110 ∷ 109 ∷ 110 ∷ 111 ∷ [])))

-- A break of the 200-day average, and its reclaim.
reclaim : List (TechnicalBar Micros)
reclaim = chart 0 (replicate 200 100 ++ (98 ∷ 101 ∷ []))

pullback-starter_ok :
    (build_technical_state_with_benchmarks never pullback [] []).setup.entry_stance ≡ "starter_ok"
unfolding build_technical_state_with_benchmarks pullback chart bar never exp_terms root_between
    round2 pct_vs sma_at weigh vwap_at rsi_from_avgs changes gains_losses rsi_from rsi14_series
    stochastic_at stochastic_k_series sma_optional ema_from ema_optional true_range_series
    wilder_from wilder_optional latest_delta trailing_return relative_return pso_series first_row
    macd_state atr_state dmi_state volume_of volume_state relative_strength_state
    aggregate_relative_strength bollinger_state rsi_zone stochastic_zone pso_zone stamped span
    current_zone_span daily_state interval_state sma_pct vwap_pct pso_extreme oscillator_extended
    oscillator_weak vwap_state_of trend_of reversal_of momentum_of timing_of reversal_at trend_at
    momentum_at cross_of classify_state last_true recent_cross_index sma200_rows classify_setup
    last_crosses weeks_onto weekly_bars analogs analog_events intervals_of take drop replicate nth
    reverse_onto history window_onto window walk zip insert_by sort_by ◌+ℤ◌ ◌-ℤ◌ abs
pullback-starter_ok = refl

reclaim-actionable :
    (build_technical_state_with_benchmarks never reclaim [] []).setup.entry_stance ≡ "actionable"
unfolding build_technical_state_with_benchmarks reclaim chart bar never exp_terms root_between
    round2 pct_vs sma_at weigh vwap_at rsi_from_avgs changes gains_losses rsi_from rsi14_series
    stochastic_at stochastic_k_series sma_optional ema_from ema_optional true_range_series
    wilder_from wilder_optional latest_delta trailing_return relative_return pso_series first_row
    macd_state atr_state dmi_state volume_of volume_state relative_strength_state
    aggregate_relative_strength bollinger_state rsi_zone stochastic_zone pso_zone stamped span
    current_zone_span daily_state interval_state sma_pct vwap_pct pso_extreme oscillator_extended
    oscillator_weak vwap_state_of trend_of reversal_of momentum_of timing_of reversal_at trend_at
    momentum_at cross_of classify_state last_true recent_cross_index sma200_rows classify_setup
    last_crosses weeks_onto weekly_bars analogs analog_events intervals_of take drop replicate nth
    reverse_onto history window_onto window walk zip insert_by sort_by ◌+ℤ◌ ◌-ℤ◌ abs
reclaim-actionable = refl

build_technical_state-IsStarter_example :
    IsStarter
      (build_technical_state_with_benchmarks never pullback [] []).daily
      (build_technical_state_with_benchmarks never pullback [] []).intervals
build_technical_state-IsStarter_example =
    build_technical_state-IsStarter never pullback [] [] pullback-starter_ok

build_technical_state-IsActionable_example :
    IsActionable reclaim
      (build_technical_state_with_benchmarks never reclaim [] []).daily
      (build_technical_state_with_benchmarks never reclaim [] []).intervals
build_technical_state-IsActionable_example =
    build_technical_state-IsActionable never reclaim [] [] reclaim-actionable

-- A flat stretch with one bar before the window and one after it.
abbrev early : List (TechnicalBar Micros)
early = bar 0 100 ∷ []

abbrev inside : List (TechnicalBar Micros)
inside = bar 1 102 ∷ bar 2 99 ∷ []

abbrev seen : List (TechnicalBar Micros)
seen = inside ++ (bar 3 101 ∷ [])

abbrev bars : List (TechnicalBar Micros)
bars = (early ++ inside) ++ (bar 3 101 ∷ bar 4 100 ∷ [])

stochastic_k_series-nth_example :
    (nth (length (early ++ inside)) (stochastic_k_series bars (suc (length inside)))
      ≡ some (
          some (
            range_position
              (bar 3 101).close
              (fold micros_f64.max micros_math.lowest
                (map (λ (b : TechnicalBar Micros). b.high) seen))
              (fold micros_f64.min micros_math.highest
                (map (λ (b : TechnicalBar Micros). b.low) seen)))))
    × (nth
          (length (early ++ inside))
          (stochastic_k_series bars (suc (suc (length (early ++ inside) + 2))))
        ≡ some none)
stochastic_k_series-nth_example =
    stochastic_k_series-nth early inside (bar 4 100 ∷ []) (bar 3 101) 2

abbrev missing : List (Option Micros)
missing = none ∷ []

abbrev known : List (Option Micros)
known = missing ++ map some (whole 1 ∷ whole 2 ∷ [])

abbrev gap : List (Option Micros)
gap = (some (whole 1) ∷ []) ++ (none ∷ [])

sma_optional-nth_example :
    (nth (length known) (sma_optional (known ++ (some (whole 6) ∷ [])) 3)
      ≡ some (
          some (
            micros_f64.div
              (sum ((whole 1 ∷ whole 2 ∷ []) ++ (whole 6 ∷ [])))
              (micros_f64.of_int (pos 3)))))
    × (nth (length (missing ++ gap)) (sma_optional ((missing ++ gap) ++ (some (whole 5) ∷ [])) 3)
        ≡ some none)
    × (nth
          (length (missing ++ (some (whole 1) ∷ [])))
          (sma_optional ((missing ++ (some (whole 1) ∷ [])) ++ (none ∷ [])) 2)
        ≡ some none)
    × (nth (length missing) (sma_optional (missing ++ (some (whole 5) ∷ [])) 6) ≡ some none)
sma_optional-nth_example =
    sma_optional-nth missing [] (some (whole 1) ∷ []) [] (whole 1 ∷ whole 2 ∷ []) (whole 6)
      (some (whole 5)) 3
