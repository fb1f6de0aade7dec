-- ===== src/Technical/Cross.antt =====
-- `cross_technical` of src/platform/technical.rs: how the daily indicators agree. Its summary text is
-- left out.
use stocks.Base.{
  ℕ, String, Bool, false, not, ◌&&◌, ◌||◌, Option, none, some, List, ◌==◌, if◌then◌else◌, str_eq,
  find, is_some_and, unwrap_or,
}
use stocks.Float.{F64, nought}
use stocks.Technical.Types.{
  SmaPoint, VwapPoint, IntervalTechnical, DailyTechnical, CrossTechnical, MacdTechnical,
  DmiTechnical, VolumeTechnical, AtrTechnical, BollingerTechnical,
}
use stocks.Technical.Indicators.{aggregate_relative_strength}

module _ {F : Type 0} ⦃d : F64 F⦄ where
  abbrev pub sma_pct_of : Option (SmaPoint F) → Option F
  sma_pct_of none = none
  sma_pct_of (some s) = s.pct_vs

  abbrev pub vwap_pct_of : Option (VwapPoint F) → Option F
  vwap_pct_of none = none
  vwap_pct_of (some v) = v.pct_vs

  unfoldable pub sma_pct : DailyTechnical F → ℕ → Option F
  sma_pct daily n = sma_pct_of (find (λ (s : SmaPoint F). s.window == n) daily.sma)

  unfoldable pub vwap_pct : DailyTechnical F → ℕ → Option F
  vwap_pct daily n = vwap_pct_of (find (λ (v : VwapPoint F). v.window == n) daily.vwap)

  abbrev pub at_least : F → Option F → Bool
  at_least bound o = is_some_and (λ v. d.le bound v) o

  abbrev pub at_most : F → Option F → Bool
  at_most bound o = is_some_and (λ v. d.le v bound) o

  abbrev pub above : F → Option F → Bool
  above bound o = is_some_and (λ v. d.lt bound v) o

  abbrev pub below : F → Option F → Bool
  below bound o = is_some_and (λ v. d.lt v bound) o

  -- `(-1.5..=1.5).contains`, and the like.
  abbrev pub between : F → F → Option F → Bool
  between low high o = is_some_and (λ v. d.le low v && d.le v high) o

  abbrev pub minus_lit : ℕ → ℕ → F
  minus_lit n k = d.neg (d.lit n k)

  unfoldable pub pso_extreme : IntervalTechnical F → Bool
  pso_extreme i = at_least (d.lit 9 1) i.pso || at_least (d.lit 9 1) i.pso32

  unfoldable pub oscillator_extended : IntervalTechnical F → Bool
  unfolding pso_extreme
  oscillator_extended i =
      at_least (d.lit 70 0) i.rsi14
      || pso_extreme i
      || (at_least (d.lit 85 0) i.stochastic_k14
          && at_least (d.lit 80 0) i.stochastic_d3
          && at_least (d.lit 2 1) i.pso)

  unfoldable pub oscillator_weak : IntervalTechnical F → Bool
  oscillator_weak i =
      at_most (minus_lit 2 1) i.pso
      || at_most (minus_lit 2 1) i.pso32
      || (at_most (d.lit 20 0) i.stochastic_k14 && at_most (d.lit 25 0) i.stochastic_d3)

  abbrev pub fast_oversold_at : IntervalTechnical F → Bool
  fast_oversold_at i =
      at_most (d.lit 35 0) i.rsi14
      || at_most (d.lit 20 0) i.stochastic_k14
      || at_most (minus_lit 9 1) i.pso

  -- `d.zip(k).is_some_and(|(d, k)| k > d)`.
  abbrev pub crosses_up : Option F → Option F → Bool
  crosses_up (some average) (some k) = d.lt average k
  crosses_up (some average) none = false
  crosses_up none k = false

  abbrev pub pso_turning_at : IntervalTechnical F → Bool
  pso_turning_at i =
      above (d.lit 3 2) i.pso_delta
      || (at_most (d.lit 45 0) i.stochastic_k14 && crosses_up i.stochastic_d3 i.stochastic_k14)

  abbrev pub macd_turning_of : Option (MacdTechnical F) → Bool
  macd_turning_of none = false
  macd_turning_of (some macd) = above nought macd.histogram_delta

  abbrev pub macd_bearish_at : MacdTechnical F → Bool
  macd_bearish_at macd =
      d.lt macd.histogram nought && d.le (unwrap_or macd.histogram_delta nought) nought

  abbrev pub dmi_bearish_at : DmiTechnical F → Bool
  dmi_bearish_at dmi = d.le (d.lit 20 0) dmi.adx14 && d.lt dmi.plus_di14 dmi.minus_di14

abbrev pub daily_interval : {F : Type 0} → List (IntervalTechnical F) → Option (IntervalTechnical F)
daily_interval {F} intervals = find (λ (i : IntervalTechnical F). str_eq i.interval "1d") intervals

unfoldable pub vwap_state_of : Bool → Bool → Bool → String
vwap_state_of below_vwap testing_vwap above_vwap =
    if below_vwap
    then "below_vwap"
    else if testing_vwap
    then "testing_vwap"
    else if above_vwap
    then "above_vwap_support"
    else "mixed_vwap"

unfoldable pub trend_of : Bool → Bool → Bool → Bool → Bool → String
trend_of broken extended near_200 pulled_back testing_200 =
    if broken
    then "breakdown"
    else if extended
    then "extended_chase"
    else if near_200 && pulled_back
    then "pullback_in_uptrend"
    else if near_200
    then "uptrend"
    else if testing_200
    then "testing_200d"
    else "trend_unclear"

unfoldable pub reversal_of : Bool → Bool → String
reversal_of pso_turning macd_turning =
    if pso_turning && macd_turning
    then "confirmed"
    else if pso_turning || macd_turning
    then "early"
    else "none"

unfoldable pub momentum_of : Bool → Bool → String → Bool → Bool → String
momentum_of extended oversold reversal weak positive =
    if extended
    then "extended"
    else if oversold && not (str_eq reversal "none")
    then "turning_up_from_oversold"
    else if oversold
    then "oversold"
    else if weak
    then "weak"
    else if positive
    then "positive"
    else "neutral"

unfoldable pub timing_of : String → Bool → Bool → String → String → Bool → String
timing_of trend near_200 on_sale reversal momentum supported =
    if str_eq trend "breakdown"
    then "avoid_breakdown"
    else if str_eq trend "extended_chase"
    then "avoid_chase"
    else if near_200 && on_sale && str_eq reversal "confirmed"
    then "pullback_reversal"
    else if near_200 && on_sale
    then "pullback_watch"
    else if near_200 && str_eq momentum "positive" && supported
    then "constructive"
    else "wait"

module _ {F : Type 0} ⦃d : F64 F⦄ where
  abbrev pub volatility_of : Option (BollingerTechnical F) → Option (AtrTechnical F) → String
  volatility_of (some b) atr = b.state
  volatility_of none (some a) = a.state
  volatility_of none none = "unknown"

  abbrev pub volume_state_of : Option (VolumeTechnical F) → String
  volume_state_of none = "unknown"
  volume_state_of (some v) = v.state

  -- The conditions that the function names.
  abbrev pub below_short_mas : DailyTechnical F → Bool
  below_short_mas t = below nought (sma_pct t 20) && below nought (sma_pct t 50)

  abbrev pub below_vwap : DailyTechnical F → Bool
  below_vwap t = below nought (vwap_pct t 20) && below nought (vwap_pct t 50)

  abbrev pub testing_vwap : DailyTechnical F → Bool
  testing_vwap t =
      between (minus_lit 15 1) (d.lit 15 1) (vwap_pct t 20)
      || between (minus_lit 15 1) (d.lit 15 1) (vwap_pct t 50)

  abbrev pub above_vwap : DailyTechnical F → Bool
  above_vwap t = at_least nought (vwap_pct t 20) && at_least nought (vwap_pct t 50)

  abbrev pub above_or_near_200 : DailyTechnical F → Bool
  above_or_near_200 t = at_least (minus_lit 2 0) (sma_pct t 200)

  abbrev pub extended_from_trend : DailyTechnical F → Bool
  extended_from_trend t =
      above (d.lit 20 0) (sma_pct t 200) || at_least (minus_lit 2 0) t.pct_vs_252d_high

  abbrev pub is_broken : DailyTechnical F → Bool
  is_broken t =
      below (minus_lit 2 0) (sma_pct t 200)
      && (is_some_and dmi_bearish_at t.dmi
          || str_eq (aggregate_relative_strength t.relative_strength) "underperforming"
          || is_some_and (λ (v : VolumeTechnical F). str_eq v.state "distribution") t.volume)

  abbrev pub oversold_at : IntervalTechnical F → Bool
  oversold_at i = fast_oversold_at i || at_most (minus_lit 9 1) i.pso32

  abbrev pub pulled_back : DailyTechnical F → Bool
  pulled_back t = below_short_mas t || below_vwap t || testing_vwap t

  abbrev pub testing_200 : DailyTechnical F → Bool
  testing_200 t = between (minus_lit 2 0) (d.lit 2 0) (sma_pct t 200)

  unfoldable pub reversal_at : DailyTechnical F → Option (IntervalTechnical F) → String
  unfolding reversal_of
  reversal_at t interval =
      reversal_of (is_some_and pso_turning_at interval) (macd_turning_of t.macd)

  unfoldable pub trend_at : DailyTechnical F → Option (IntervalTechnical F) → String
  unfolding trend_of
  trend_at t interval =
      trend_of (is_broken t) (extended_from_trend t || is_some_and oscillator_extended interval)
        (above_or_near_200 t) (pulled_back t) (testing_200 t)

  unfoldable pub momentum_at : DailyTechnical F → Option (IntervalTechnical F) → String
  unfolding momentum_of reversal_at
  momentum_at t interval =
      momentum_of (is_some_and oscillator_extended interval) (is_some_and oversold_at interval)
        (reversal_at t interval)
        (is_some_and oscillator_weak interval || is_some_and macd_bearish_at t.macd)
        (is_some_and (λ (macd : MacdTechnical F). d.le nought macd.histogram) t.macd)

  unfoldable pub cross_of : DailyTechnical F → Option (IntervalTechnical F) → CrossTechnical
  unfolding trend_at momentum_at reversal_at timing_of vwap_state_of
  cross_of t interval = record {
    trend_state = trend_at t interval;
    momentum_state = momentum_at t interval;
    vwap_state = vwap_state_of (below_vwap t) (testing_vwap t) (above_vwap t);
    volatility_state = volatility_of t.bollinger t.atr;
    volume_state = volume_state_of t.volume;
    relative_strength_state = aggregate_relative_strength t.relative_strength;
    reversal_signal = reversal_at t interval;
    buy_timing =
        timing_of (trend_at t interval) (above_or_near_200 t)
          (pulled_back t || is_some_and oversold_at interval) (reversal_at t interval)
          (momentum_at t interval) (above_vwap t || not (below_vwap t));
  }

  abbrev pub cross_technical :
      Option (DailyTechnical F) → List (IntervalTechnical F) → Option CrossTechnical
  cross_technical none intervals = none
  cross_technical (some t) intervals = some (cross_of t (daily_interval intervals))
