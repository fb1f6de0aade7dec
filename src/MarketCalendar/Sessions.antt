-- ===== src/MarketCalendar/Sessions.antt =====
-- src/platform/market_calendar.rs: up to 212 days before a day there is a session.
use stocks.Base.{
  ℕ, suc, ◌+◌, ◌-◌, ◌*◌, ◌≤◌, ◌<◌, ◌≡◌, ◌⊎◌, inl, inr, refl, ap, Bool, true, false, ◌||◌, Option,
  some, List, [], ◌∷◌, ◌++◌, leb, ltb, ◌==◌, length, length-append, any-append, not, arith,
  Bool-cases, if◌then◌else◌,
}
use stocks.MarketCalendar.{
  NaiveDates, IsGregorian, max_year, holds, either, sat, sun, nyse_holidays, is_nyse_holiday,
  is_us_equity_session,
}
use stocks.MarketCalendar.Holidays.{nyse_holidays_total}

-- The sequence without its entry i.
skip : (ℕ → ℕ) → ℕ → ℕ → ℕ
skip s i j = if ltb j i then s j else s (suc j)

-- Pigeonhole: of more different days than the list has entries, the list does not hold one.
pub missed :
    (days : List ℕ) (s : ℕ → ℕ)
    → ((i j : ℕ) → s i ≡ s j → i ≡ j)
    → (i : ℕ) × (i ≤ length days) × (holds (s i) days ≡ false)
unfolding skip
missed [] s inj = (0, omega arith, refl)
missed (d ∷ days) s inj =
    let (i, le, e) = missed days s inj in
    elim (Bool-cases (d == s i)) [
      | inr ne ↦ (i, omega arith, rw (ne, e) refl)
      | inl eq ↦
          let (j, le', e') = missed days (skip s i) (λ a b p. grind arith) in
          elim (Bool-cases (ltb j i)) [
            | inl before ↦ (j, omega arith, ground (arith, inj i j))
            | inr after ↦ (suc j, omega arith, ground (arith, inj i (suc j)))
          ]
    ]

-- Up to 30 weeks before a day; beyond, days after it, so that no day comes twice.
weeks_before : ℕ → ℕ → ℕ
weeks_before d i = if leb i 30 then d - 7 * i else d + i

weeks_before_inj : (d i j : ℕ) → 210 < d → weeks_before d i ≡ weeks_before d j → i ≡ j
unfolding weeks_before
weeks_before_inj d i j far e = ground arith

holds-append : (day : ℕ) (xs ys : List ℕ) → holds day (xs ++ ys) ≡ (holds day xs || holds day ys)
holds-append day xs ys = any-append (λ d. d == day) xs ys

either_lem :
    (day : ℕ) (these later : Option (List ℕ)) (xs ys : List ℕ)
    → these ≡ some xs
    → later ≡ some ys
    → either day these later ≡ some (holds day xs || holds day ys)
either_lem day these later xs ys p q = rw (p, q) refl

module _ {chrono : NaiveDates} (h : IsGregorian chrono) where
  -- The search visits no day on which an `expect` fails.
  pub is_us_equity_session_total :
      (day : ℕ)
      → 1 ≤ day
      → chrono.year day + 1 ≤ max_year
      → (b : Bool) × (is_us_equity_session chrono day ≡ some b)
  unfolding is_us_equity_session is_nyse_holiday
  is_us_equity_session_total day pos high =
      let (xs, p, _) = nyse_holidays_total h (chrono.year day) (h.year_pos day pos) (omega arith) in
      let (ys, q, _) = nyse_holidays_total h (chrono.year day + 1) (omega arith) high in
      let e = either_lem day _ _ xs ys p q in
      elim (Bool-cases (chrono.weekday day == sat || chrono.weekday day == sun)) [
        | inl off ↦ (false, rw off refl)
        | inr on ↦ (not (holds day xs || holds day ys), rw (on, e) refl)
      ]

  weekday-week : (d i : ℕ) → 7 * i ≤ d → chrono.weekday (d - 7 * i) ≡ chrono.weekday d
  weekday-week d i le = omega (arith, h.weekday_lem d, h.weekday_lem (d - 7 * i))

  -- A weekday that no list of its year and of the next holds is a session.
  open_day :
      (y day : ℕ) (xs ys zs : List ℕ)
      → nyse_holidays chrono y ≡ some xs
      → nyse_holidays chrono (y + 1) ≡ some ys
      → nyse_holidays chrono (y + 2) ≡ some zs
      → (chrono.year day ≡ y) ⊎ (chrono.year day ≡ y + 1)
      → chrono.weekday day ≤ 4
      → holds day (xs ++ (ys ++ zs)) ≡ false
      → is_us_equity_session chrono day ≡ some true
  unfolding is_us_equity_session is_nyse_holiday
  open_day y day xs ys zs p q r (inl here) work not_in =
      let e = either_lem day _ _ xs ys p q in
      rw here (ground (arith, e, holds-append day xs (ys ++ zs), holds-append day ys zs))
  open_day y day xs ys zs p q r (inr next) work not_in =
      let two : y + 1 + 1 ≡ y + 2 = omega arith in
      let e = either_lem day _ _ ys zs q r in
      rw (next, two) (ground (arith, e, holds-append day xs (ys ++ zs), holds-append day ys zs))

  whole : (d : ℕ) → 365 ≤ d → d - 365 + 365 ≡ d
  whole d far = omega arith

  -- The year of a day of the 365 days up to d.
  year_near :
      (d n : ℕ)
      → 365 ≤ d
      → n ≤ 365
      → (chrono.year (d - n) ≡ chrono.year (d - 365))
        ⊎ (chrono.year (d - n) ≡ chrono.year (d - 365) + 1)
  year_near d n far le = omega (
    arith,
    h.year_mono (d - 365) (d - n) (omega arith),
    h.year_mono (d - n) d (omega arith),
    h.year_step (d - 365),
    ap chrono.year (whole d far),
  )

  -- Of lists with at most ten days each, three do not hold the same weekday of 31 weeks.
  week_missed :
      (d : ℕ) (xs ys zs : List ℕ)
      → 366 ≤ d
      → length xs ≤ 10
      → length ys ≤ 10
      → length zs ≤ 10
      → (i : ℕ) × (i ≤ 30) × (holds (d - 7 * i) (xs ++ (ys ++ zs)) ≡ false)
  unfolding weeks_before
  week_missed d xs ys zs far a b c =
      let (i, le, e) =
        missed (xs ++ (ys ++ zs)) (weeks_before d) (λ i j. weeks_before_inj d i j (omega arith)) in
      let few : i ≤ 30 = omega (arith, le, length-append xs (ys ++ zs), length-append ys zs) in
      (i, few, at_week i few e)
    where
      at_week :
          (i : ℕ)
          → i ≤ 30
          → holds (weeks_before d i) (xs ++ (ys ++ zs)) ≡ false
          → holds (d - 7 * i) (xs ++ (ys ++ zs)) ≡ false
      at_week i few e = ground (arith, e)

  -- Among the same weekdays of 31 weeks there is a session: they lie in two years, whose lists and
  -- the next hold at most thirty days.
  week_session :
      (d : ℕ)
      → 366 ≤ d
      → chrono.year d + 2 ≤ max_year
      → chrono.weekday d ≤ 4
      → (i : ℕ) × (i ≤ 30) × (is_us_equity_session chrono (d - 7 * i) ≡ some true)
  week_session d far high work =
      let y = chrono.year (d - 365) in
      let low = h.year_pos (d - 365) (omega arith) in
      let below = h.year_mono (d - 365) d (omega arith) in
      let (xs, p, n) = nyse_holidays_total h y low (omega arith) in
      let (ys, q, m) = nyse_holidays_total h (y + 1) (omega arith) (omega arith) in
      let (zs, r, k) = nyse_holidays_total h (y + 2) (omega arith) (omega arith) in
      let (i, few, none_of) = week_missed d xs ys zs far n m k in
      let same = weekday-week d i (omega arith) in
      let years = year_near d (7 * i) (omega arith) (omega arith) in
      (i, few, open_day y (d - 7 * i) xs ys zs p q r years (rw same work) none_of)

  -- The same, from any day: two days back at most there is a weekday.
  pub session_before :
      (d : ℕ)
      → 368 ≤ d
      → chrono.year d + 2 ≤ max_year
      → (n : ℕ) × (n ≤ 212) × (is_us_equity_session chrono (d - n) ≡ some true)
  session_before d far high =
      let k = if ltb 4 (chrono.weekday d) then chrono.weekday d - 4 else 0 in
      let few : (k ≤ 2) × (chrono.weekday (d - k) ≤ 4) =
        ground (arith, h.weekday_lem d, h.weekday_lem (d - k)) in
      let (i, le, e) =
        week_session (d - k) (omega arith) (omega (arith, h.year_mono (d - k) d (omega arith)))
          few.1 in
      let same : d - k - 7 * i ≡ d - (k + 7 * i) = omega arith in
      (k + 7 * i, omega arith, rw same at e)
