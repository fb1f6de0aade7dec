-- ===== src/Technical/Reversal.antt =====
-- The reversal that `cross_technical` of src/platform/technical.rs calls confirmed, with the bounds
-- that its conditions have, written out on the values that a chart shows.
use stocks.Base.{
  ◌≡◌, refl, ◌⊎◌, inl, inr, Bool, true, false, ◌&&◌, ◌||◌, Option, none, some, is_some_and, arith,
  false≢true,
}
use stocks.Float.{F64, nought}
use stocks.Technical.Types.{IntervalTechnical, DailyTechnical, MacdTechnical}
use stocks.Technical.Cross.{
  sma_pct, vwap_pct, above_or_near_200, extended_from_trend, oscillator_extended, pso_extreme,
  pulled_back, oversold_at, pso_turning_at, macd_turning_of, crosses_up, minus_lit, at_least,
  at_most, above, below, between, fast_oversold_at, below_short_mas, below_vwap, testing_vwap,
}

-- There is a value, and it passes the test; no value passes it.
abbrev pub Holds : {A : Type 0} → (A → Bool) → Option A → Type 0
Holds p none = ⊥
Holds p (some v) = p v ≡ true

abbrev pub Fails : {A : Type 0} → (A → Bool) → Option A → Type 0
Fails p none = Unit
Fails p (some v) = p v ≡ false

holds : {A : Type 0} (p : A → Bool) (o : Option A) → is_some_and p o ≡ true → Holds p o
holds p none h = false≢true h
holds p (some v) h = h

fails : {A : Type 0} (p : A → Bool) (o : Option A) → is_some_and p o ≡ false → Fails p o
fails p none h = tt
fails p (some v) h = h

either : (a b : Bool) → (a || b) ≡ true → (a ≡ true) ⊎ (b ≡ true)
either true b h = inl refl
either false b h = inr h

both : (a b : Bool) → (a && b) ≡ true → (a ≡ true) × (b ≡ true)
both a b h = ground arith

passes : {A : Type 0} (p : A → Bool) (o : Option A) → Holds p o → is_some_and p o ≡ true
passes p none h = elim h [ ]
passes p (some v) h = h

one_of : (a b c : Bool) → (a || b || c) ≡ true → (a ≡ true) ⊎ ((b ≡ true) ⊎ (c ≡ true))
one_of true b c h = inl refl
one_of false true c h = inr (inl refl)
one_of false false c h = inr (inr h)

neither : (a b : Bool) → (a || b) ≡ false → (a ≡ false) × (b ≡ false)
neither a b h = ground arith

calm_parts :
    (rsi pso pso32 k average rise : Bool)
    → (rsi || (pso || pso32) || (k && average && rise)) ≡ false
    → (rsi ≡ false) × (pso ≡ false) × (pso32 ≡ false) × (k ≡ true → average ≡ true → rise ≡ false)
calm_parts rsi pso pso32 k average rise h = ground arith

module _ {F : Type 0} ⦃d : F64 F⦄ where
  -- The stochastic has crossed its average from below: it is above it.
  abbrev pub IsAbove : Option F → Option F → Type 0
  IsAbove (some k) (some average) = d.lt average k ≡ true
  IsAbove (some k) none = ⊥
  IsAbove none average = ⊥

  -- The oscillators of the day turn up: the PSO has risen by more than 0.03, or the stochastic is
  -- not above 45 and lies above its average.
  abbrev pub IsTurning : IntervalTechnical F → Type 0
  IsTurning i =
      Holds (λ v. d.lt (d.lit 3 2) v) i.pso_delta
      ⊎ (Holds (λ v. d.le v (d.lit 45 0)) i.stochastic_k14
          × IsAbove i.stochastic_k14 i.stochastic_d3)

  -- The histogram of the MACD has risen.
  abbrev pub IsRising : Option (MacdTechnical F) → Type 0
  IsRising none = ⊥
  IsRising (some macd) = Holds (λ v. d.lt nought v) macd.histogram_delta

  -- No oscillator of the day is at its upper end.
  pub record IsCalm (i : IntervalTechnical F) : Type 0 where
    pub rsi : Fails (λ v. d.le (d.lit 70 0) v) i.rsi14
    pub pso : Fails (λ v. d.le (d.lit 9 1) v) i.pso
    pub pso32 : Fails (λ v. d.le (d.lit 9 1) v) i.pso32
    pub stochastic :
        Holds (λ v. d.le (d.lit 85 0) v) i.stochastic_k14
        → Holds (λ v. d.le (d.lit 80 0) v) i.stochastic_d3
        → Fails (λ v. d.le (d.lit 2 1) v) i.pso

  -- A pullback, of the price or of the oscillators.
  pub data IsPullback (t : DailyTechnical F) (i : IntervalTechnical F) : Type 0 where
    below_averages :
        Holds (λ v. d.lt v nought) (sma_pct t 20)
        → Holds (λ v. d.lt v nought) (sma_pct t 50)
        → IsPullback t i
    below_vwaps :
        Holds (λ v. d.lt v nought) (vwap_pct t 20)
        → Holds (λ v. d.lt v nought) (vwap_pct t 50)
        → IsPullback t i
    at_vwap20 :
        Holds (λ v. d.le (minus_lit 15 1) v && d.le v (d.lit 15 1)) (vwap_pct t 20) → IsPullback t i
    at_vwap50 :
        Holds (λ v. d.le (minus_lit 15 1) v && d.le v (d.lit 15 1)) (vwap_pct t 50) → IsPullback t i
    low_rsi : Holds (λ v. d.le v (d.lit 35 0)) i.rsi14 → IsPullback t i
    low_stochastic : Holds (λ v. d.le v (d.lit 20 0)) i.stochastic_k14 → IsPullback t i
    low_pso : Holds (λ v. d.le v (minus_lit 9 1)) i.pso → IsPullback t i
    low_pso32 : Holds (λ v. d.le v (minus_lit 9 1)) i.pso32 → IsPullback t i

  at_vwap :
      (t : DailyTechnical F) (i : IntervalTechnical F) → testing_vwap t ≡ true → IsPullback t i
  at_vwap t i h =
      elim (either (between (minus_lit 15 1) (d.lit 15 1) (vwap_pct t 20))
        (between (minus_lit 15 1) (d.lit 15 1) (vwap_pct t 50)) h) [
          | inl near ↦ at_vwap20 (holds _ (vwap_pct t 20) near)
          | inr near ↦ at_vwap50 (holds _ (vwap_pct t 50) near)
        ]

  pulled_of :
      (t : DailyTechnical F) (i : IntervalTechnical F) → pulled_back t ≡ true → IsPullback t i
  pulled_of t i h = elim (one_of (below_short_mas t) (below_vwap t) (testing_vwap t) h) [
    | inl averages ↦
        let (short, long) =
          both (below nought (sma_pct t 20)) (below nought (sma_pct t 50)) averages in
        below_averages (holds _ (sma_pct t 20) short) (holds _ (sma_pct t 50) long)
    | inr (inl under) ↦
        let (short, long) =
          both (below nought (vwap_pct t 20)) (below nought (vwap_pct t 50)) under in
        below_vwaps (holds _ (vwap_pct t 20) short) (holds _ (vwap_pct t 50) long)
    | inr (inr at) ↦ at_vwap t i at
  ]

  fast_of :
      (t : DailyTechnical F) (i : IntervalTechnical F) → fast_oversold_at i ≡ true → IsPullback t i
  fast_of t i h =
      elim (one_of (at_most (d.lit 35 0) i.rsi14) (at_most (d.lit 20 0) i.stochastic_k14)
        (at_most (minus_lit 9 1) i.pso) h) [
          | inl rsi ↦ low_rsi (holds _ i.rsi14 rsi)
          | inr (inl k) ↦ low_stochastic (holds _ i.stochastic_k14 k)
          | inr (inr pso) ↦ low_pso (holds _ i.pso pso)
        ]

  pso_turning_at-IsTurning : (i : IntervalTechnical F) → pso_turning_at i ≡ true → IsTurning i
  pso_turning_at-IsTurning i h = elim (either _ _ h) [
    | inl rise ↦ inl (holds _ i.pso_delta rise)
    | inr cross ↦
        let (low, up) = both _ _ cross in
        inr (holds _ i.stochastic_k14 low, crossed i.stochastic_k14 i.stochastic_d3 up)
  ]
    where
      crossed : (k average : Option F) → crosses_up average k ≡ true → IsAbove k average
      crossed (some k) (some average) e = e
      crossed (some k) none e = false≢true e
      crossed none (some average) e = false≢true e
      crossed none none e = false≢true e

  macd_turning_of-IsRising :
      (macd : Option (MacdTechnical F)) → macd_turning_of macd ≡ true → IsRising macd
  macd_turning_of-IsRising none h = false≢true h
  macd_turning_of-IsRising (some macd) h = holds _ macd.histogram_delta h

  oscillator_extended-IsCalm : (i : IntervalTechnical F) → oscillator_extended i ≡ false → IsCalm i
  unfolding oscillator_extended pso_extreme
  oscillator_extended-IsCalm i h =
      let parts =
        calm_parts (at_least (d.lit 70 0) i.rsi14) (at_least (d.lit 9 1) i.pso)
          (at_least (d.lit 9 1) i.pso32) (at_least (d.lit 85 0) i.stochastic_k14)
          (at_least (d.lit 80 0) i.stochastic_d3) (at_least (d.lit 2 1) i.pso) h in
      record {
        rsi = fails _ i.rsi14 parts.0;
        pso = fails _ i.pso parts.1;
        pso32 = fails _ i.pso32 parts.2;
        stochastic = λ k s.
            fails _ i.pso (parts.3 (passes _ i.stochastic_k14 k) (passes _ i.stochastic_d3 s));
      }

  pulled_back-IsPullback :
      (t : DailyTechnical F) (i : IntervalTechnical F)
      → (pulled_back t || oversold_at i) ≡ true
      → IsPullback t i
  pulled_back-IsPullback t i h = elim (either (pulled_back t) (oversold_at i) h) [
    | inl pulled ↦ pulled_of t i pulled
    | inr oversold ↦ elim (either (fast_oversold_at i) (at_most (minus_lit 9 1) i.pso32) oversold) [
      | inl fast ↦ fast_of t i fast
      | inr slow ↦ low_pso32 (holds _ i.pso32 slow)
    ]
  ]

  -- A chart that may be bought into again, with how far its price is from the 200-day average.
  pub record IsReversal (t : DailyTechnical F) (i : IntervalTechnical F) : Type 0 where
    pub near_200 : Holds (λ v. d.le (minus_lit 2 0) v) (sma_pct t 200)
    pub not_far : Fails (λ v. d.lt (d.lit 20 0) v) (sma_pct t 200)
    pub off_high : Fails (λ v. d.le (minus_lit 2 0) v) t.pct_vs_252d_high
    pub calm : IsCalm i
    pub pulled : IsPullback t i
    pub turning : IsTurning i
    pub rising : IsRising t.macd

  -- No such chart without the intervals of a day.
  abbrev pub IsReversalIn : DailyTechnical F → Option (IntervalTechnical F) → Type 0
  IsReversalIn t none = ⊥
  IsReversalIn t (some i) = IsReversal t i

  pub is_reversal :
      (t : DailyTechnical F) (interval : Option (IntervalTechnical F))
      → above_or_near_200 t ≡ true
      → extended_from_trend t ≡ false
      → is_some_and oscillator_extended interval ≡ false
      → (pulled_back t || is_some_and oversold_at interval) ≡ true
      → is_some_and pso_turning_at interval ≡ true
      → macd_turning_of t.macd ≡ true
      → IsReversalIn t interval
  is_reversal t none near extended calm sale turning rising = false≢true turning
  is_reversal t (some i) near extended calm sale turning rising =
      let (far, high) =
        neither (above (d.lit 20 0) (sma_pct t 200)) (at_least (minus_lit 2 0) t.pct_vs_252d_high)
          extended in
      record {
        near_200 = holds _ (sma_pct t 200) near;
        not_far = fails _ (sma_pct t 200) far;
        off_high = fails _ t.pct_vs_252d_high high;
        calm = oscillator_extended-IsCalm i calm;
        pulled = pulled_back-IsPullback t i sale;
        turning = pso_turning_at-IsTurning i turning;
        rising = macd_turning_of-IsRising t.macd rising;
      }
