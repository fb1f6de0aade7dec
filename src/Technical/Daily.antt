-- ===== src/Technical/Daily.antt =====
-- `daily_state` and `interval_state` of src/platform/technical.rs.
use stocks.Base.{
  ℕ, ◌+◌, String, Option, none, some, List, [], ◌∷◌, map, length, ◌==◌, if◌then◌else◌, str_eq,
}
use stocks.Base.Windows.{history, take, somes}
use stocks.Time.{DateTime}
use stocks.Float.{F64, F64Math, nought, one}
use stocks.Technical.Types.{TechnicalBar, SmaPoint, VwapPoint, IntervalTechnical, DailyTechnical}
use stocks.Technical.Series.{
  hundred, pct_vs, sma_at, vwap_at, rsi14_series, stochastic_k_series, highest_of, lowest_of,
}
use stocks.Technical.Averages.{sma_optional, pso_series, latest_delta}
use stocks.Technical.Indicators.{
  round_some, macd_state, dmi_state, atr_state, bollinger_state, volume_state,
  relative_strength_state,
}

-- The name of a benchmark, or of an interval, with its bars.
abbrev pub Labelled : Type 0 → Type 0
Labelled F = String × List (TechnicalBar F)

module _ {F : Type 0} ⦃d : F64 F⦄ where
  abbrev pub closes_of : List (TechnicalBar F) → List F
  closes_of bars = map (λ (b : TechnicalBar F). b.close) bars

  abbrev pub pct_of : F → Option F → Option F
  pct_of close none = none
  pct_of close (some v) = pct_vs close v

  abbrev pub sma_point : F → List F → ℕ → SmaPoint F
  sma_point close seen n =
      let value = sma_at n seen in record { window = n; value = value; pct_vs = pct_of close value }

  abbrev pub vwap_label : Option F → String
  vwap_label none = "unknown"
  vwap_label (some v) =
      if d.le one v then "above" else if d.le (d.neg (d.lit 15 1)) v then "testing" else "below"

  abbrev pub vwap_point : F → List (TechnicalBar F) → ℕ → VwapPoint F
  vwap_point close seen n =
      let value = vwap_at n seen in
      let pct = pct_of close value in
      record { window = n; value = round_some value; pct_vs = pct; state = vwap_label pct }

  abbrev pub pct_if_positive : F → F → Option F
  pct_if_positive close level =
      if d.lt nought level then some (d.mul (d.div (d.sub close level) level) hundred) else none

  unfoldable pub rsi_zone : F → String
  rsi_zone value =
      if d.le (d.lit 70 0) value
      then "overbought"
      else if d.le (d.lit 60 0) value
      then "strong"
      else if d.le value (d.lit 30 0)
      then "oversold"
      else if d.le value (d.lit 40 0)
      then "weak"
      else "neutral"

  unfoldable pub stochastic_zone : F → String
  stochastic_zone value =
      if d.le (d.lit 80 0) value
      then "overbought"
      else if d.le (d.lit 60 0) value
      then "strong"
      else if d.le value (d.lit 20 0)
      then "oversold"
      else if d.le value (d.lit 40 0)
      then "weak"
      else "neutral"

  unfoldable pub pso_zone : F → String
  pso_zone value =
      if d.le (d.lit 9 1) value
      then "overbought"
      else if d.le (d.lit 2 1) value
      then "strong"
      else if d.le value (d.neg (d.lit 9 1))
      then "oversold"
      else if d.le value (d.neg (d.lit 2 1))
      then "weak"
      else "neutral"

  -- Each value with the time of its bar.
  unfoldable pub stamped :
      List (Option F) → List (TechnicalBar F) → List (Option F × Option DateTime)
  stamped [] bars = []
  stamped (v ∷ values) [] = (v, none) ∷ stamped values []
  stamped (v ∷ values) (b ∷ bars) = (v, some b.ts) ∷ stamped values bars

  -- The run of values in a zone, from the last back, and the time at which it began.
  unfoldable pub span :
      (F → String) → String → List (Option F × Option DateTime) → ℕ × Option DateTime
  span zone current [] = (0, none)
  span zone current ((none, t) ∷ rows) = (0, none)
  span zone current ((some v, t) ∷ rows) =
      let (count, since) = span zone current rows in
      if str_eq (zone v) current then (count + 1, if count == 0 then t else since) else (0, none)

  unfoldable pub current_zone_span :
      List (TechnicalBar F) → List (Option F) → String → (F → String) → ℕ × Option DateTime
  unfolding stamped span history
  current_zone_span bars values current zone =
      if str_eq current "unknown"
      then (0, none)
      else span zone current (history (stamped values bars))

  abbrev pub last_value : List (Option F) → Option F
  last_value values = elim (history values) [ [] ↦ none | v ∷ rest ↦ v ]

  abbrev pub zone_name : (F → String) → Option F → String
  zone_name zone none = "unknown"
  zone_name zone (some v) = zone v

  abbrev pub last_ts : List (TechnicalBar F) → Option DateTime
  last_ts bars = elim (history bars) [ [] ↦ none | b ∷ rest ↦ some b.ts ]

  abbrev pub last_close : List (TechnicalBar F) → Option F
  last_close bars = elim (history bars) [ [] ↦ none | b ∷ rest ↦ some b.close ]

module _ {F : Type 0} ⦃d : F64 F⦄ ⦃m : F64Math F⦄ where
  abbrev pub daily_of :
      TechnicalBar F
      → List (TechnicalBar F)
      → List (TechnicalBar F)
      → List (Labelled F)
      → DailyTechnical F
  daily_of latest seen bars benchmarks =
      let year = take 252 seen in
      let closes = closes_of bars in
      let close = latest.close in
      record {
        as_of = latest.ts;
        close = close;
        sma = map (sma_point close (closes_of seen)) (20 ∷ 50 ∷ 100 ∷ 200 ∷ []);
        vwap = map (vwap_point close seen) (20 ∷ 50 ∷ []);
        pct_vs_252d_high =
            pct_if_positive close (highest_of (map (λ (b : TechnicalBar F). b.high) year));
        pct_vs_252d_low =
            pct_if_positive close (lowest_of (map (λ (b : TechnicalBar F). b.low) year));
        macd = macd_state closes;
        dmi = dmi_state bars;
        atr = atr_state bars;
        bollinger = bollinger_state closes close;
        volume = volume_state bars;
        relative_strength =
            somes (map (λ (b : Labelled F). relative_strength_state bars b.0 b.1) benchmarks);
      }

  abbrev pub daily_from :
      List (TechnicalBar F) → List (TechnicalBar F) → List (Labelled F) → Option (DailyTechnical F)
  daily_from [] bars benchmarks = none
  daily_from (latest ∷ seen) bars benchmarks =
      some (daily_of latest (latest ∷ seen) bars benchmarks)

  unfoldable pub daily_state : List (TechnicalBar F) → List (Labelled F) → Option (DailyTechnical F)
  unfolding history
  daily_state bars benchmarks = daily_from (history bars) bars benchmarks

  unfoldable pub interval_state : String → List (TechnicalBar F) → IntervalTechnical F
  unfolding rsi14_series stochastic_k_series sma_optional pso_series current_zone_span latest_delta
      history
  interval_state interval bars =
      let rsi = rsi14_series (closes_of bars) in
      let rsi_zone_name = zone_name rsi_zone (last_value rsi) in
      let rsi_span = current_zone_span bars rsi rsi_zone_name rsi_zone in
      let stochastic_k = stochastic_k_series bars 14 in
      let stochastic_zone_name = zone_name stochastic_zone (last_value stochastic_k) in
      let pso = pso_series bars 8 5 in
      let pso_zone_name = zone_name pso_zone (last_value pso) in
      let pso32 = pso_series bars 32 5 in
      let pso32_zone_name = zone_name pso_zone (last_value pso32) in
      record {
        interval = interval;
        bars = length bars;
        as_of = last_ts bars;
        close = last_close bars;
        rsi14 = round_some (last_value rsi);
        rsi_zone = rsi_zone_name;
        rsi_zone_bars = rsi_span.0;
        rsi_zone_since = rsi_span.1;
        stochastic_k14 = round_some (last_value stochastic_k);
        stochastic_d3 = round_some (last_value (sma_optional stochastic_k 3));
        stochastic_zone = stochastic_zone_name;
        stochastic_zone_bars =
            (current_zone_span bars stochastic_k stochastic_zone_name stochastic_zone).0;
        pso = round_some (last_value pso);
        pso_delta = latest_delta pso;
        pso_zone = pso_zone_name;
        pso_zone_bars = (current_zone_span bars pso pso_zone_name pso_zone).0;
        pso32 = round_some (last_value pso32);
        pso32_delta = latest_delta pso32;
        pso32_zone = pso32_zone_name;
        pso32_zone_bars = (current_zone_span bars pso32 pso32_zone_name pso_zone).0;
      }
