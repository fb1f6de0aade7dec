-- ===== src/Technical/Series.antt =====
-- The series of src/platform/technical.rs, one entry for each bar.
use stocks.Base.{
  ℕ, not, Option, none, some, List, [], ◌∷◌, ◌++◌, map, length, leb, ◌==◌, if◌then◌else◌,
}
use stocks.Base.Int.{pos}
use stocks.Base.Windows.{take, drop, replicate, walk, window}
use stocks.Float.{F64, F64Math, nought, one, clamp, sum, eq}
use stocks.Technical.Types.{TechnicalBar}

module _ {F : Type 0} ⦃d : F64 F⦄ where
  abbrev pub hundred : F
  hundred = d.lit 100 0

  -- `usize as f64`.
  abbrev pub count : ℕ → F
  count n = d.of_int (pos n)

  unfoldable pub round2 : F → F
  round2 value = d.div (d.round (d.mul value hundred)) hundred

  unfoldable pub pct_vs : F → F → Option F
  unfolding round2
  pct_vs value base =
      if eq base nought then none else some (round2 (d.mul (d.div (d.sub value base) base) hundred))

  abbrev pub mean : ℕ → List F → F
  mean n xs = d.div (sum xs) (count n)

  -- `sma_at` at the last of the entries in `seen`.
  unfoldable pub sma_at : ℕ → List F → Option F
  unfolding window
  sma_at n seen = elim (window n seen) [ none ↦ none | some slice ↦ some (mean n slice) ]

  -- The loop of `vwap_at`, with the two sums.
  unfoldable pub weigh : F → F → List (TechnicalBar F) → Option F
  weigh price_volume volume [] =
      if d.lt nought volume then some (d.div price_volume volume) else none
  weigh price_volume volume (bar ∷ slice) =
      let typical_price = d.div (d.add (d.add bar.high bar.low) bar.close) (d.lit 3 0) in
      let counts = not (d.le bar.volume nought) in
      weigh (if counts then d.add price_volume (d.mul typical_price bar.volume) else price_volume)
        (if counts then d.add volume bar.volume else volume) slice

  unfoldable pub vwap_at : ℕ → List (TechnicalBar F) → Option F
  unfolding window weigh
  vwap_at n seen = elim (window n seen) [ none ↦ none | some slice ↦ weigh nought nought slice ]

  unfoldable pub rsi_from_avgs : F → F → F
  rsi_from_avgs avg_gain avg_loss =
      if eq avg_loss nought
      then hundred
      else d.sub hundred (d.div hundred (d.add one (d.div avg_gain avg_loss)))

  -- closes[i] - closes[i - 1], from i = 1.
  unfoldable pub changes : F → List F → List F
  changes previous [] = []
  changes previous (x ∷ xs) = d.sub x previous ∷ changes x xs

  -- The sums of the gains and of the losses.
  unfoldable pub gains_losses : F × F → List F → F × F
  gains_losses (gains, losses) [] = (gains, losses)
  gains_losses (gains, losses) (change ∷ xs) =
      gains_losses
        (if d.le nought change
          then (d.add gains change, losses)
          else (gains, d.add losses (d.neg change)))
        xs

  abbrev pub smoothed_avg : F → F → F
  smoothed_avg avg x = d.div (d.add (d.mul avg (d.sub (count 14) one)) x) (count 14)

  unfoldable pub rsi_from : F → F → List F → List (Option F)
  rsi_from avg_gain avg_loss [] = []
  rsi_from avg_gain avg_loss (change ∷ xs) =
      let gain = smoothed_avg avg_gain (d.max change nought) in
      let loss = smoothed_avg avg_loss (d.max (d.neg change) nought) in
      some (rsi_from_avgs gain loss) ∷ rsi_from gain loss xs

  abbrev pub rsi_started : F × F → List F → List (Option F)
  rsi_started (gains, losses) rest =
      let avg_gain = d.div gains (count 14) in
      let avg_loss = d.div losses (count 14) in
      some (rsi_from_avgs avg_gain avg_loss) ∷ rsi_from avg_gain avg_loss rest

  unfoldable pub rsi14_series : List F → List (Option F)
  unfolding changes rsi_from
  rsi14_series [] = []
  rsi14_series (x ∷ xs) =
      if leb (length (x ∷ xs)) 14
      then replicate (length (x ∷ xs)) none
      else replicate 14 none
        ++ rsi_started (gains_losses (nought, nought) (take 14 (changes x xs)))
            (drop 14 (changes x xs))

  abbrev pub fold : (F → F → F) → F → List F → F
  fold f acc [] = acc
  fold f acc (x ∷ xs) = fold f (f acc x) xs

module _ {F : Type 0} ⦃d : F64 F⦄ ⦃m : F64Math F⦄ where
  abbrev pub highest_of : List F → F
  highest_of xs = fold d.max m.lowest xs

  abbrev pub lowest_of : List F → F
  lowest_of xs = fold d.min m.highest xs

  unfoldable pub stochastic_at : F → List (TechnicalBar F) → F
  stochastic_at close slice =
      let high = highest_of (map (λ (b : TechnicalBar F). b.high) slice) in
      let low = lowest_of (map (λ (b : TechnicalBar F). b.low) slice) in
      let range = d.sub high low in
      if d.lt (d.abs range) d.epsilon
      then d.lit 50 0
      else clamp nought hundred (d.mul (d.div (d.sub close low) range) hundred)

  abbrev pub stochastic_of : F → Option (List (TechnicalBar F)) → Option F
  stochastic_of close none = none
  stochastic_of close (some slice) = some (stochastic_at close slice)

  abbrev pub stochastic_step : ℕ → TechnicalBar F → List (TechnicalBar F) → Option F
  stochastic_step n bar seen = stochastic_of bar.close (window n (bar ∷ seen))

  unfoldable pub stochastic_k_series : List (TechnicalBar F) → ℕ → List (Option F)
  unfolding walk
  stochastic_k_series bars n =
      if n == 0 then replicate (length bars) none else walk (stochastic_step n) [] bars
