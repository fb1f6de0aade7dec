-- ===== src/Technical/Positions.antt =====
-- What stands at each position of the series of src/platform/technical.rs that look back over a window:
-- `bars[idx + 1 - window..=idx]` is read off a list that is split around the entry `idx`.
use stocks.Base.{
  ℕ, suc, ◌≡◌, refl, ◌<◌, ◌+◌, ◌∙◌, ap, Option, none, some, List, [], ◌∷◌, ◌++◌, map, length, arith,
  if◌then◌else◌,
}
use stocks.Base.Windows.{
  nth, walk, nth-walk, reverse_onto, reverse_onto-append, window, window-reverse_onto, window-short,
  all_some,
}
use stocks.Float.{F64, F64Math, nought, clamp, sum}
use stocks.Base.Int.{pos}
use stocks.Technical.Types.{TechnicalBar}
use stocks.Technical.Series.{
  fold, stochastic_at, stochastic_of, stochastic_step, stochastic_k_series,
}
use stocks.Technical.Averages.{sma_step, sma_optional, mean_of_all}

module _ {F : Type 0} ⦃d : F64 F⦄ ⦃m : F64Math F⦄ where
  stochastic_k_series-walk :
      (bars : List (TechnicalBar F)) (n : ℕ)
      → 0 < n
      → stochastic_k_series bars n ≡ walk (stochastic_step n) [] bars
  unfolding stochastic_k_series
  stochastic_k_series-walk bars n h = ground arith

  stochastic_k_series-early :
      (before after : List (TechnicalBar F)) (bar : TechnicalBar F) (n : ℕ)
      → suc (length before) < n
      → nth (length before) (stochastic_k_series (before ++ (bar ∷ after)) n) ≡ some none
  stochastic_k_series-early before after bar n h =
      ap (nth (length before)) (stochastic_k_series-walk _ n (omega arith))
      ∙ nth-walk (stochastic_step n) [] before after bar
      ∙ ap (λ o. some (stochastic_of bar.close o)) (window-short n before bar h)

  -- The stochastic of a close in the range of some bars.
  abbrev pub range_position : F → F → F → F
  range_position close high low =
      if d.lt (d.abs (d.sub high low)) d.epsilon
      then d.lit 50 0
      else clamp nought (d.lit 100 0)
          (d.mul (d.div (d.sub close low) (d.sub high low)) (d.lit 100 0))

  -- The stochastic at the position of a bar, after the bars `before` and `slice`. With a window of the
  -- slice and the bar it is the place of the close between the lowest low and the highest high of
  -- those, as a percentage that is clamped, and 50 where these lie closer than epsilon. A window that
  -- is longer than all the bars up to this one has none.
  pub stochastic_k_series-nth :
      (before slice after : List (TechnicalBar F)) (bar : TechnicalBar F) (k : ℕ)
      → let bars = (before ++ slice) ++ (bar ∷ after) in
        let seen = slice ++ (bar ∷ []) in
        let high = fold d.max m.lowest (map (λ (b : TechnicalBar F). b.high) seen) in
        let low = fold d.min m.highest (map (λ (b : TechnicalBar F). b.low) seen) in
        (nth (length (before ++ slice)) (stochastic_k_series bars (suc (length slice)))
          ≡ some (some (range_position bar.close high low)))
        × (nth
              (length (before ++ slice))
              (stochastic_k_series bars (suc (suc (length (before ++ slice) + k))))
            ≡ some none)
  unfolding stochastic_at
  stochastic_k_series-nth before slice after bar k = (
    ap (nth (length (before ++ slice)))
          (stochastic_k_series-walk _ (suc (length slice)) (omega arith))
        ∙ nth-walk (stochastic_step (suc (length slice))) [] (before ++ slice) after bar
        ∙ ap (λ seen. some (stochastic_of bar.close (window (suc (length slice)) (bar ∷ seen))))
            (reverse_onto-append [] before slice)
        ∙ ap (λ o. some (stochastic_of bar.close o))
            (window-reverse_onto (reverse_onto [] before) slice bar),
    stochastic_k_series-early (before ++ slice) after bar _ (omega arith),
  )

module _ {F : Type 0} ⦃d : F64 F⦄ where
  sma_optional-walk :
      (values : List (Option F)) (n : ℕ)
      → 0 < n
      → sma_optional values n ≡ walk (sma_step n) [] values
  unfolding sma_optional
  sma_optional-walk values n h = ground arith

  -- The entry of a moving average that its window gives.
  abbrev averaged : ℕ → Option (List (Option F)) → Option F
  averaged n none = none
  averaged n (some slice) = mean_of_all n (all_some slice)

  sma_step-averaged :
      (n : ℕ) (value : Option F) (seen : List (Option F))
      → sma_step n value seen ≡ averaged n (window n (value ∷ seen))
  sma_step-averaged n value seen =
      elim (window n (value ∷ seen))
        as (λ o.
          elim o [ none ↦ none | some slice ↦ mean_of_all n (all_some slice) ] ≡ averaged n o) [
            | none ↦ refl
            | some slice ↦ refl
          ]

  all_some-map : (xs : List F) → all_some (map some xs) ≡ some xs
  all_some-map [] = refl
  all_some-map (x ∷ xs) = rw (all_some-map xs) refl

  all_some-none : (xs ys : List (Option F)) → all_some (xs ++ (none ∷ ys)) ≡ none
  all_some-none [] ys = refl
  all_some-none (none ∷ xs) ys = refl
  all_some-none (some x ∷ xs) ys = rw (all_some-none xs ys) refl

  gap_none :
      (xs ys : List (Option F)) (last : Option F)
      → all_some ((xs ++ (none ∷ ys)) ++ (last ∷ [])) ≡ none
  gap_none [] ys last = refl
  gap_none (none ∷ xs) ys last = refl
  gap_none (some x ∷ xs) ys last = rw (gap_none xs ys last) refl

  map-snoc : (xs : List F) (x : F) → map some xs ++ (some x ∷ []) ≡ map some (xs ++ (x ∷ []))
  map-snoc [] x = refl
  map-snoc (y ∷ xs) x = ap (λ zs. some y ∷ zs) (map-snoc xs x)

  length-map : (f : F → Option F) (xs : List F) → length (map f xs) ≡ length xs
  length-map f [] = refl
  length-map f (x ∷ xs) = ap suc (length-map f xs)

  sma_optional-window :
      (before slice after : List (Option F)) (value : Option F)
      → nth
          (length (before ++ slice))
          (sma_optional ((before ++ slice) ++ (value ∷ after)) (suc (length slice)))
        ≡ some (mean_of_all (suc (length slice)) (all_some (slice ++ (value ∷ []))))
  sma_optional-window before slice after value =
      let n = suc (length slice) in
      ap (nth (length (before ++ slice))) (sma_optional-walk _ n (omega arith))
      ∙ nth-walk (sma_step n) [] (before ++ slice) after value
      ∙ ap some (sma_step-averaged n value (reverse_onto [] (before ++ slice)))
      ∙ ap (λ seen. some (averaged n (window n (value ∷ seen))))
          (reverse_onto-append [] before slice)
      ∙ ap (λ o. some (averaged n o)) (window-reverse_onto (reverse_onto [] before) slice value)

  sma_optional-early :
      (before after : List (Option F)) (value : Option F) (n : ℕ)
      → suc (length before) < n
      → nth (length before) (sma_optional (before ++ (value ∷ after)) n) ≡ some none
  sma_optional-early before after value n h =
      ap (nth (length before)) (sma_optional-walk _ n (omega arith))
      ∙ nth-walk (sma_step n) [] before after value
      ∙ ap some (sma_step-averaged n value (reverse_onto [] before))
      ∙ ap (λ o. some (averaged n o)) (window-short n before value h)

  sma_optional-missing :
      (before slice after : List (Option F)) (value : Option F)
      → all_some (slice ++ (value ∷ [])) ≡ none
      → nth
          (length (before ++ slice))
          (sma_optional ((before ++ slice) ++ (value ∷ after)) (suc (length slice)))
        ≡ some none
  sma_optional-missing before slice after value e =
      sma_optional-window before slice after value
      ∙ ap (λ o. some (mean_of_all (suc (length slice)) o)) e

  sma_optional-known :
      (before after : List (Option F)) (slice : List F) (value : F)
      → nth
          (length (before ++ map some slice))
          (sma_optional ((before ++ map some slice) ++ (some value ∷ after)) (suc (length slice)))
        ≡ some (some (d.div (sum (slice ++ (value ∷ []))) (d.of_int (pos (suc (length slice))))))
  sma_optional-known before after slice value = rw (← length-map some slice) (
      sma_optional-window before (map some slice) after (some value)
      ∙ ap (λ o. some (mean_of_all (suc (length (map some slice))) o))
          (ap all_some (map-snoc slice value) ∙ all_some-map (slice ++ (value ∷ []))))

  -- The moving average over a window, at the position after some values `before` and the others of the
  -- window: where the window has values alone it is their sum over their number; where one is
  -- missing, before the last or at the last, it is none; and a window that is longer than all the
  -- values up to the position has none.
  pub sma_optional-nth :
      (before after earlier later : List (Option F)) (slice : List F) (value : F) (last : Option F)
      (k : ℕ)
      → let known = before ++ map some slice in
        let gap = earlier ++ (none ∷ later) in
        (nth (length known) (sma_optional (known ++ (some value ∷ after)) (suc (length slice)))
          ≡ some (some (d.div (sum (slice ++ (value ∷ []))) (d.of_int (pos (suc (length slice)))))))
        × (nth
              (length (before ++ gap))
              (sma_optional ((before ++ gap) ++ (last ∷ after)) (suc (length gap)))
            ≡ some none)
        × (nth
              (length (before ++ earlier))
              (sma_optional ((before ++ earlier) ++ (none ∷ after)) (suc (length earlier)))
            ≡ some none)
        × (nth
              (length before)
              (sma_optional (before ++ (last ∷ after)) (suc (suc (length before + k))))
            ≡ some none)
  sma_optional-nth before after earlier later slice value last k = (
    sma_optional-known before after slice value,
    sma_optional-missing before (earlier ++ (none ∷ later)) after last
        (gap_none earlier later last),
    sma_optional-missing before earlier after none (all_some-none earlier []),
    sma_optional-early before after last _ (omega arith),
  )
