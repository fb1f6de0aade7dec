-- ===== src/Technical/Averages.antt =====
-- The averages of src/platform/technical.rs over values that may be missing, and the returns.
use stocks.Base.{
  ℕ, ◌||◌, Option, none, some, List, [], ◌∷◌, map, length, leb, ltb, ◌==◌, if◌then◌else◌,
}
use stocks.Base.Windows.{replicate, walk, window, all_some, somes, history, nth}
use stocks.Float.{F64, F64Math, one, sum, nought}
use stocks.Technical.Types.{TechnicalBar}
use stocks.Technical.Series.{count, mean, round2, pct_vs, stochastic_k_series}

module _ {F : Type 0} ⦃d : F64 F⦄ where
  abbrev pub mean_of_all : ℕ → Option (List F) → Option F
  mean_of_all n none = none
  mean_of_all n (some slice) = some (mean n slice)

  -- The slice that ends at the entry, where it is long enough.
  abbrev pub sma_step : ℕ → Option F → List (Option F) → Option F
  sma_step n value seen = elim (window n (value ∷ seen)) [
    | none ↦ none
    | some slice ↦ mean_of_all n (all_some slice)
  ]

  unfoldable pub sma_optional : List (Option F) → ℕ → List (Option F)
  unfolding walk
  sma_optional values n =
      if n == 0 then replicate (length values) none else walk (sma_step n) [] values

  abbrev pub ema_next : F → Option F → F → F
  ema_next alpha none value = value
  ema_next alpha (some prev) value = d.add (d.mul alpha value) (d.mul (d.sub one alpha) prev)

  unfoldable pub ema_from : F → Option F → List (Option F) → List (Option F)
  ema_from alpha ema [] = []
  ema_from alpha ema (none ∷ values) = none ∷ ema_from alpha ema values
  ema_from alpha ema (some value ∷ values) =
      let next = ema_next alpha ema value in some next ∷ ema_from alpha (some next) values

  unfoldable pub ema_optional : List (Option F) → ℕ → List (Option F)
  unfolding ema_from
  ema_optional values n =
      if n == 0
      then replicate (length values) none
      else ema_from (d.div (d.lit 2 0) (d.add (count n) one)) none values

  abbrev pub range_at : TechnicalBar F → List (TechnicalBar F) → Option F
  range_at bar [] = some (d.max (d.sub bar.high bar.low) nought)
  range_at bar (prev ∷ seen) = some (
      d.max
        (d.max (d.max (d.sub bar.high bar.low) (d.abs (d.sub bar.high prev.close)))
          (d.abs (d.sub bar.low prev.close)))
        nought)

  unfoldable pub true_range_series : List (TechnicalBar F) → List (Option F)
  unfolding walk
  true_range_series bars = walk range_at [] bars

  abbrev pub first_sum : ℕ → List (Option F) → Option F
  first_sum n seen = elim (window n seen) [
    | none ↦ none
    | some slice ↦ elim (all_some slice) [ none ↦ none | some xs ↦ some (sum xs) ]
  ]

  -- The sum after an entry that is there.
  abbrev pub wilder_next : ℕ → Option F → F → List (Option F) → Option F
  wilder_next n none value seen = first_sum n (some value ∷ seen)
  wilder_next n (some prev) value seen = some (d.add (d.sub prev (d.div prev (count n))) value)

  abbrev pub per_window : ℕ → Option F → Option F
  per_window n none = none
  per_window n (some x) = some (d.div x (count n))

  unfoldable pub wilder_from : ℕ → Option F → List (Option F) → List (Option F) → List (Option F)
  wilder_from n smoothed seen [] = []
  wilder_from n smoothed seen (none ∷ values) = none ∷ wilder_from n smoothed (none ∷ seen) values
  wilder_from n smoothed seen (some value ∷ values) =
      let next = wilder_next n smoothed value seen in
      per_window n next ∷ wilder_from n next (some value ∷ seen) values

  unfoldable pub wilder_optional : List (Option F) → ℕ → List (Option F)
  unfolding wilder_from
  wilder_optional values n =
      if n == 0 || ltb (length values) n
      then replicate (length values) none
      else wilder_from n none [] values

  abbrev pub difference : List F → Option F
  difference (latest ∷ (prev ∷ xs)) = some (round2 (d.sub latest prev))
  difference _ = none

  -- The last two values that are there.
  unfoldable pub latest_delta : List (Option F) → Option F
  unfolding history
  latest_delta values = difference (somes (history values))

  abbrev pub return_to : List (TechnicalBar F) → Option (TechnicalBar F) → Option F
  return_to [] base = none
  return_to (latest ∷ seen) none = none
  return_to (latest ∷ seen) (some base) = pct_vs latest.close base.close

  unfoldable pub trailing_return : List (TechnicalBar F) → ℕ → Option F
  unfolding history nth
  trailing_return bars n =
      if n == 0 || leb (length bars) n
      then none
      else return_to (history bars) (nth n (history bars))

  abbrev pub relative_of : Option F → Option F → Option F
  relative_of (some x) (some y) = some (round2 (d.sub x y))
  relative_of _ _ = none

  unfoldable pub relative_return : List (TechnicalBar F) → List (TechnicalBar F) → ℕ → Option F
  unfolding trailing_return
  relative_return bars benchmark_bars n =
      relative_of (trailing_return bars n) (trailing_return benchmark_bars n)

module _ {F : Type 0} ⦃d : F64 F⦄ ⦃m : F64Math F⦄ where
  abbrev pub normalized : Option F → Option F
  normalized none = none
  normalized (some k) = some (d.mul (d.lit 1 1) (d.sub k (d.lit 50 0)))

  abbrev pub squashed : Option F → Option F
  squashed none = none
  squashed (some v) = some (d.div (d.sub (m.exp v) one) (d.add (m.exp v) one))

  unfoldable pub pso_series : List (TechnicalBar F) → ℕ → ℕ → List (Option F)
  unfolding stochastic_k_series ema_optional
  pso_series bars stochastic_window smoothing_window = map squashed (
      ema_optional
        (ema_optional (map normalized (stochastic_k_series bars stochastic_window))
          smoothing_window)
        smoothing_window)
