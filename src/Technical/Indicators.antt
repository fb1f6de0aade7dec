-- ===== src/Technical/Indicators.antt =====
-- The indicators of src/platform/technical.rs.
use stocks.Base.{
  ℕ, String, ◌&&◌, ◌||◌, Option, none, some, List, [], ◌∷◌, map, length, leb, ltb, if◌then◌else◌,
  keep, is_some_and, is_empty, unwrap_or, str_eq,
}
use stocks.Base.Windows.{window, walk, history, zip, somes}
use stocks.Float.{F64, F64Math, nought}
use stocks.Technical.Types.{
  TechnicalBar, MacdTechnical, DmiTechnical, AtrTechnical, BollingerTechnical, VolumeTechnical,
  RelativeStrengthTechnical,
}
use stocks.Technical.Series.{hundred, mean, round2, sma_at}
use stocks.Technical.Averages.{
  ema_optional, wilder_optional, latest_delta, relative_return, true_range_series,
}

-- From the last row, the first whose key has a value (`rposition`).
unfoldable pub first_row {ℓ κ} : {A : Type ℓ} {B : Type κ} → List (Option A × B) → Option (A × B)
first_row [] = none
first_row ((none, b) ∷ rows) = first_row rows
first_row ((some a, b) ∷ rows) = some (a, b)

module _ {F : Type 0} ⦃d : F64 F⦄ where
  abbrev pub round_some : Option F → Option F
  round_some none = none
  round_some (some x) = some (round2 x)

  -- `a - b`, where both are there.
  abbrev pub minus : Option F × Option F → Option F
  minus (some a, some b) = some (d.sub a b)
  minus (some a, none) = none
  minus (none, b) = none

  abbrev pub macd_label : F → F → String
  macd_label hist delta =
      if d.le nought hist && d.le nought delta
      then "bullish"
      else if d.lt hist nought && d.lt nought delta
      then "improving"
      else if d.lt hist nought
      then "bearish"
      else "fading"

  abbrev pub macd_of : Option F → Option (F × (Option F × Option F)) → Option (MacdTechnical F)
  macd_of delta (some (hist, (some line, some signal))) = some (record {
    line = round2 line;
    signal = round2 signal;
    histogram = round2 hist;
    histogram_delta = delta;
    state = macd_label hist (unwrap_or delta nought);
  })
  macd_of delta (some (hist, (some line, none))) = none
  macd_of delta (some (hist, (none, signal))) = none
  macd_of delta none = none

  unfoldable pub macd_state : List F → Option (MacdTechnical F)
  unfolding ema_optional zip history first_row latest_delta
  macd_state closes =
      let values = map (λ v. some v) closes in
      let macd = map minus (zip (ema_optional values 12) (ema_optional values 26)) in
      let signal = ema_optional macd 9 in
      let histogram = map minus (zip macd signal) in
      macd_of (latest_delta histogram) (first_row (history (zip histogram (zip macd signal))))

  abbrev pub atr_label : F → String
  atr_label natr =
      if d.le (d.lit 5 0) natr
      then "volatile"
      else if d.le natr (d.lit 2 0)
      then "quiet"
      else "normal"

  abbrev pub atr_of : Option (F × TechnicalBar F) → Option (AtrTechnical F)
  atr_of none = none
  atr_of (some (atr14, bar)) =
      let natr = d.mul (d.div atr14 bar.close) hundred in
      if d.le bar.close nought
      then none
      else some (record { atr14 = round2 atr14; natr14_pct = round2 natr; state = atr_label natr })

  unfoldable pub atr_state : List (TechnicalBar F) → Option (AtrTechnical F)
  unfolding wilder_optional true_range_series zip history first_row
  atr_state bars =
      atr_of (first_row (history (zip (wilder_optional (true_range_series bars) 14) bars)))

  -- What a bar adds to the upward and to the downward movement.
  abbrev pub plus_dm : TechnicalBar F → List (TechnicalBar F) → Option F
  plus_dm bar [] = none
  plus_dm bar (prev ∷ seen) =
      let up_move = d.sub bar.high prev.high in
      let down_move = d.sub prev.low bar.low in
      some (if d.lt down_move up_move && d.lt nought up_move then up_move else nought)

  abbrev pub minus_dm : TechnicalBar F → List (TechnicalBar F) → Option F
  minus_dm bar [] = none
  minus_dm bar (prev ∷ seen) =
      let up_move = d.sub bar.high prev.high in
      let down_move = d.sub prev.low bar.low in
      some (if d.lt up_move down_move && d.lt nought down_move then down_move else nought)

  abbrev pub share_of : F → F → F
  share_of part whole = d.mul (d.div part whole) hundred

  abbrev pub dx_of : F → F → F → Option F
  dx_of tr plus minus =
      let plus_di = share_of plus tr in
      let minus_di = share_of minus tr in
      let denom = d.add plus_di minus_di in
      if d.le tr nought
      then none
      else if d.lt nought denom
      then some (d.mul (d.div (d.abs (d.sub plus_di minus_di)) denom) hundred)
      else none

  abbrev pub dx_at : Option F × (Option F × Option F) → Option F
  dx_at (some tr, (some plus, some minus)) = dx_of tr plus minus
  dx_at (some tr, (some plus, none)) = none
  dx_at (some tr, (none, minus)) = none
  dx_at (none, rest) = none

  abbrev pub dmi_label : F → F → F → String
  dmi_label adx14 plus_di minus_di =
      if d.lt adx14 (d.lit 18 0)
      then "range"
      else if d.lt minus_di plus_di
      then "bull_trend"
      else "bear_trend"

  abbrev pub dmi_of : Option (F × (Option F × (Option F × Option F))) → Option (DmiTechnical F)
  dmi_of (some (adx14, (some tr, (some plus, some minus)))) =
      let plus_di = share_of plus tr in
      let minus_di = share_of minus tr in
      if d.le tr nought
      then none
      else some (record {
        adx14 = round2 adx14;
        plus_di14 = round2 plus_di;
        minus_di14 = round2 minus_di;
        state = dmi_label adx14 plus_di minus_di;
      })
  dmi_of (some (adx14, (some tr, (some plus, none)))) = none
  dmi_of (some (adx14, (some tr, (none, minus)))) = none
  dmi_of (some (adx14, (none, rest))) = none
  dmi_of none = none

  unfoldable pub dmi_state : List (TechnicalBar F) → Option (DmiTechnical F)
  unfolding wilder_optional true_range_series walk zip history first_row
  dmi_state bars =
      let tr14 = wilder_optional (true_range_series bars) 14 in
      let plus14 = wilder_optional (walk plus_dm [] bars) 14 in
      let minus14 = wilder_optional (walk minus_dm [] bars) 14 in
      let rows = zip tr14 (zip plus14 minus14) in
      let adx = wilder_optional (map dx_at rows) 14 in
      if leb (length bars) 15 then none else dmi_of (first_row (history (zip adx rows)))

  abbrev pub volume_label : Option F → F → F → String
  volume_label ratio latest prev =
      let heavy = is_some_and (λ v. d.le (d.lit 15 1) v) ratio in
      if heavy && d.lt latest prev
      then "distribution"
      else if heavy && d.lt prev latest
      then "accumulation"
      else if is_some_and (λ v. d.le v (d.lit 6 1)) ratio
      then "quiet"
      else "normal"

  abbrev pub ratio_of : F → Option F → Option F
  ratio_of volume none = none
  ratio_of volume (some avg) = if d.lt nought avg then some (d.div volume avg) else none

  -- From the last bar, the bar before it (itself where it is the only one), and all volumes.
  unfoldable pub volume_of : TechnicalBar F → TechnicalBar F → List F → Option (VolumeTechnical F)
  volume_of latest prev volumes =
      let avg20 = sma_at 20 volumes in
      let ratio = ratio_of latest.volume avg20 in
      if d.le latest.volume nought
      then none
      else some (record {
        latest = round2 latest.volume;
        avg20 = round_some avg20;
        avg50 = round_some (sma_at 50 volumes);
        ratio_vs_20 = round_some ratio;
        state = volume_label ratio latest.close prev.close;
      })

  abbrev pub volume_at : List (TechnicalBar F) → Option (VolumeTechnical F)
  volume_at [] = none
  volume_at (latest ∷ []) = volume_of latest latest (latest.volume ∷ [])
  volume_at (latest ∷ (prev ∷ seen)) =
      volume_of latest prev (map (λ (b : TechnicalBar F). b.volume) (latest ∷ prev ∷ seen))

  unfoldable pub volume_state : List (TechnicalBar F) → Option (VolumeTechnical F)
  unfolding history
  volume_state bars = volume_at (history bars)

  abbrev pub strength_label : List F → String
  strength_label rels =
      if leb 2 (length (keep (λ v. d.lt nought v) rels))
      then "outperforming"
      else if leb 2 (length (keep (λ v. d.lt v nought) rels))
      then "underperforming"
      else "neutral"

  unfoldable pub relative_strength_state :
      List (TechnicalBar F) → String → List (TechnicalBar F) → Option (RelativeStrengthTechnical F)
  unfolding relative_return
  relative_strength_state bars benchmark benchmark_bars =
      let rel_20 = relative_return bars benchmark_bars 20 in
      let rel_60 = relative_return bars benchmark_bars 60 in
      let rel_120 = relative_return bars benchmark_bars 120 in
      if is_empty benchmark_bars || ltb (length bars) 21
      then none
      else some (record {
        benchmark = benchmark;
        rel_20d_pct = round_some rel_20;
        rel_60d_pct = round_some rel_60;
        rel_120d_pct = round_some rel_120;
        state = strength_label (somes (rel_20 ∷ rel_60 ∷ rel_120 ∷ []));
      })

  abbrev pub with_state : String → List (RelativeStrengthTechnical F) → ℕ
  with_state state rows =
      length (keep (λ (r : RelativeStrengthTechnical F). str_eq r.state state) rows)

  unfoldable pub aggregate_relative_strength : List (RelativeStrengthTechnical F) → String
  aggregate_relative_strength [] = "unknown"
  aggregate_relative_strength (r ∷ rows) =
      let outperforming = with_state "outperforming" (r ∷ rows) in
      let underperforming = with_state "underperforming" (r ∷ rows) in
      if ltb underperforming outperforming
      then "outperforming"
      else if ltb outperforming underperforming
      then "underperforming"
      else "neutral"

module _ {F : Type 0} ⦃d : F64 F⦄ ⦃m : F64Math F⦄ where
  abbrev pub bollinger_label : F → F → String
  bollinger_label bandwidth pct_b =
      if d.le bandwidth (d.lit 10 0)
      then "compressed"
      else if d.le (d.lit 25 0) bandwidth
      then "expanded"
      else if d.le (d.lit 95 2) pct_b
      then "upper_band"
      else if d.le pct_b (d.lit 5 2)
      then "lower_band"
      else "normal"

  abbrev pub square : F → F
  square x = d.mul x x

  abbrev pub bollinger_of : F → List F → Option (BollingerTechnical F)
  bollinger_of close slice =
      let middle = mean 20 slice in
      let stddev = m.sqrt (mean 20 (map (λ v. square (d.sub v middle)) slice)) in
      let upper = d.add middle (d.mul (d.lit 2 0) stddev) in
      let lower = d.sub middle (d.mul (d.lit 2 0) stddev) in
      let width = d.sub upper lower in
      let pct_b = if d.lt nought width then d.div (d.sub close lower) width else d.lit 5 1 in
      let bandwidth = d.mul (d.div width middle) hundred in
      if d.le middle nought
      then none
      else some (record {
        middle20 = round2 middle;
        upper20 = round2 upper;
        lower20 = round2 lower;
        bandwidth_pct = round2 bandwidth;
        pct_b = round2 pct_b;
        state = bollinger_label bandwidth pct_b;
      })

  unfoldable pub bollinger_state : List F → F → Option (BollingerTechnical F)
  unfolding window history
  bollinger_state closes close = elim (window 20 (history closes)) [
    | none ↦ none
    | some slice ↦ bollinger_of close slice
  ]
