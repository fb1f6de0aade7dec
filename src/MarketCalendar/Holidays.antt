-- ===== src/MarketCalendar/Holidays.antt =====
-- The rules for the holidays, in src/platform/market_calendar.rs.
use stocks.Base.{
  ℕ, ◌+◌, ◌-◌, ◌*◌, ◌%◌, ◌≤◌, ◌<◌, ◌≡◌, refl, inl, inr, Option, some, List, [], ◌∷◌, if◌then◌else◌,
  leb, length, arith, Bool-cases,
}
use stocks.MarketCalendar.{
  NaiveDates, IsGregorian, max_year, month_length, computus, observed, nth_after, last_before, mon,
  thu, good_friday, observed_fixed, nth_weekday, last_weekday, all_of, holiday_dates, nyse_holidays,
}
use stocks.MarketCalendar.Easter.{computus_range}

module _ {chrono : NaiveDates} (h : IsGregorian chrono) where
  -- A fixed holiday is observed on a day from Monday to Friday, at most a day from its date.
  observed_lem :
      (actual : ℕ)
      → 1 ≤ actual
      → (chrono.weekday (observed chrono actual) ≤ 4)
        × (actual ≤ observed chrono actual + 1)
        × (observed chrono actual ≤ actual + 1)
  unfolding observed
  observed_lem actual pos =
      ground (arith, h.weekday_lem actual, h.weekday_lem (actual + 1), h.weekday_lem (actual - 1))

  -- The nth weekday of a month falls on that weekday, in the nth run of seven days of the month.
  nth_after_lem :
      (weekday nth first : ℕ)
      → weekday ≤ 6
      → 1 ≤ nth
      → (chrono.weekday (nth_after chrono weekday nth first) ≡ weekday)
        × (first + 7 * (nth - 1) ≤ nth_after chrono weekday nth first)
        × (nth_after chrono weekday nth first < first + 7 * nth)
  unfolding nth_after
  nth_after_lem weekday nth first w n = ground (
    arith,
    h.weekday_lem first,
    h.weekday_lem (first + ((7 + weekday - chrono.weekday first) % 7 + 7 * (nth - 1))),
  )

  -- The last weekday of a month falls on that weekday, within the seven days before the next month.
  last_before_lem :
      (weekday next_month : ℕ)
      → weekday ≤ 6
      → 8 ≤ next_month
      → (chrono.weekday (last_before chrono weekday next_month) ≡ weekday)
        × (next_month ≤ last_before chrono weekday next_month + 7)
        × (last_before chrono weekday next_month < next_month)
  unfolding last_before
  last_before_lem weekday next_month w n = ground (
    arith,
    h.weekday_lem (next_month - 1),
    h.weekday_lem (next_month - 1 - (7 + chrono.weekday (next_month - 1) - weekday) % 7),
  )

abbrev IsDate : Option ℕ → Type 0
IsDate o = (day : ℕ) × (o ≡ some day)

abbrev AreDates : List (Option ℕ) → Type 0
AreDates [] = Unit
AreDates (o ∷ os) = IsDate o × AreDates os

all_of-length :
    (os : List (Option ℕ))
    → AreDates os
    → (days : List ℕ) × (all_of os ≡ some days) × (length days ≡ length os)
all_of-length [] u = ([], refl, refl)
all_of-length (o ∷ os) ((day, e), rest) =
    let (days, all, n) = all_of-length os rest in (day ∷ days, rw (e, all) refl, omega (arith, n))

module _ {chrono : NaiveDates} (h : IsGregorian chrono) (y : ℕ) (low : 1 ≤ y)
    (high : y ≤ max_year) where
  observed_fixed-IsDate :
      (m d : ℕ)
      → (1 ≤ m) × (m ≤ 12) × (1 ≤ d) × (d ≤ month_length m)
      → IsDate (observed_fixed chrono y m d)
  unfolding observed_fixed
  observed_fixed-IsDate m d (a, b, c, e) =
      let (day, eq) = h.from_ymd_lem y m d low high a b c e in (observed chrono day, rw eq refl)

  nth_weekday-IsDate : (m w n : ℕ) → (1 ≤ m) × (m ≤ 12) → IsDate (nth_weekday chrono y m w n)
  unfolding nth_weekday
  nth_weekday-IsDate m w n (a, b) =
      let (day, eq) = h.from_ymd_lem y m 1 low high a b (omega arith) (ground arith) in
      (nth_after chrono w n day, rw eq refl)

  last_weekday-IsDate : (w : ℕ) → IsDate (last_weekday chrono y 5 w)
  unfolding last_weekday
  last_weekday-IsDate w =
      let (day, eq) =
        h.from_ymd_lem y 6 1 low high (omega arith) (omega arith) (omega arith) (omega arith) in
      (last_before chrono w day, rw eq refl)

  good_friday-IsDate : IsDate (good_friday chrono y)
  unfolding good_friday
  good_friday-IsDate =
      let (day, eq) =
        h.from_ymd_lem y (computus y).month (computus y).day low high
          (ground (arith, computus_range y)) (ground (arith, computus_range y))
          (ground (arith, computus_range y)) (ground (arith, computus_range y)) in
      (day - 2, rw eq refl)

  last-AreDates :
      AreDates (if leb 2_022 y then observed_fixed chrono y 6 19 ∷ [] else [])
      × (length (if leb 2_022 y then observed_fixed chrono y 6 19 ∷ [] else []) ≤ 1)
  last-AreDates = elim (Bool-cases (leb 2_022 y)) [
    | inl e ↦ rw e ((observed_fixed-IsDate 6 19 (omega arith), tt), omega arith)
    | inr e ↦ rw e (tt, omega arith)
  ]

  holiday_dates-AreDates :
      AreDates (holiday_dates chrono y) × (length (holiday_dates chrono y) ≤ 10)
  unfolding holiday_dates
  holiday_dates-AreDates = (
    (
      observed_fixed-IsDate 1 1 (omega arith),
      (
        nth_weekday-IsDate 1 mon 3 (omega arith),
        (
          nth_weekday-IsDate 2 mon 3 (omega arith),
          (
            good_friday-IsDate,
            (
              last_weekday-IsDate mon,
              (
                observed_fixed-IsDate 7 4 (omega arith),
                (
                  nth_weekday-IsDate 9 mon 1 (omega arith),
                  (
                    nth_weekday-IsDate 11 thu 4 (omega arith),
                    (observed_fixed-IsDate 12 25 (omega arith), last-AreDates.0),
                  ),
                ),
              ),
            ),
          ),
        ),
      ),
    ),
    omega (arith, last-AreDates.1),
  )

  -- In every year that the calendar has, the list of holidays is computed: no `expect` fails, and
  -- there are at most ten.
  pub nyse_holidays_total :
      (days : List ℕ) × (nyse_holidays chrono y ≡ some days) × (length days ≤ 10)
  unfolding nyse_holidays
  nyse_holidays_total =
      let (dates, most) = holiday_dates-AreDates in
      let (days, e, n) = all_of-length (holiday_dates chrono y) dates in
      (days, e, omega (arith, n, most))
