-- ===== src/MarketCalendar.antt =====
-- src/platform/market_calendar.rs: the sessions of the US equity market. A date is its day number in
-- the common era, the first of January of year 1 being day 1, so that adding days is `+`; it is not
-- negative. The calendar itself is that of the crate `chrono`, a parameter: `NaiveDates`.
-- `none` stands for the panic of an `expect` on a date that does not exist.
pub mod Holidays
pub mod Easter
pub mod Sessions
pub mod Latest
pub mod Tests
use stocks.Base.{
  ℕ, zero, suc, ◌+◌, ◌-◌, ◌*◌, ◌/◌, ◌%◌, ◌≤◌, ◌≡◌, Bool, true, false, not, ◌&&◌, ◌||◌, Option, none,
  some, List, [], ◌∷◌, ◌++◌, if◌then◌else◌, ltb, leb, ◌==◌, any,
}

-- `NaiveDate` of chrono: `from_ymd_opt`, `year` (of years that are not negative) and
-- `weekday().num_days_from_monday()`.
pub record NaiveDates : Type 0 where
  pub from_ymd : ℕ → ℕ → ℕ → Option ℕ
  pub year : ℕ → ℕ
  pub weekday : ℕ → ℕ

-- A length that the month has in every year.
abbrev pub month_length : ℕ → ℕ
month_length m = if m == 2 then 28 else if m == 4 || m == 6 || m == 9 || m == 11 then 30 else 31

-- The last year of `NaiveDate`.
abbrev pub max_year : ℕ
max_year = 262_142

-- What the proleptic Gregorian calendar promises: dates exist, a year has at least 365 days, and
-- day 1 was a Monday.
pub record IsGregorian (chrono : NaiveDates) : Type 0 where
  pub from_ymd_lem :
      (y m d : ℕ)
      → 1 ≤ y
      → y ≤ max_year
      → 1 ≤ m
      → m ≤ 12
      → 1 ≤ d
      → d ≤ month_length m
      → (day : ℕ) × (chrono.from_ymd y m d ≡ some day)
  pub year_mono : (d e : ℕ) → d ≤ e → chrono.year d ≤ chrono.year e
  pub year_step : (d : ℕ) → chrono.year (d + 365) ≤ chrono.year d + 1
  pub year_pos : (d : ℕ) → 1 ≤ d → 1 ≤ chrono.year d
  pub weekday_lem : (d : ℕ) → chrono.weekday d ≡ (d + 6) % 7

abbrev pub mon : ℕ
mon = 0

abbrev pub thu : ℕ
thu = 3

abbrev pub sat : ℕ
sat = 5

abbrev pub sun : ℕ
sun = 6

-- The month and the day of the month of Easter Sunday.
pub record MonthDay : Type 0 where
  pub month : ℕ
  pub day : ℕ

-- The computus. The source computes on `i32`; `Easter.computus_exact` shows that no difference
-- is below 0.
pub computus : ℕ → MonthDay
computus year =
    let a = year % 19 in
    let b = year / 100 in
    let c = year % 100 in
    let d = b / 4 in
    let e = b % 4 in
    let f = (b + 8) / 25 in
    let g = (b - f + 1) / 3 in
    let h = (19 * a + b - d - g + 15) % 30 in
    let i = c / 4 in
    let k = c % 4 in
    let l = (32 + 2 * e + 2 * i - h - k) % 7 in
    let m = (a + 11 * h + 22 * l) / 451 in
    record { month = (h + l - 7 * m + 114) / 31; day = (h + l - 7 * m + 114) % 31 + 1 }

-- What a match on the weekday of a fixed holiday adds to it.
pub observed : NaiveDates → ℕ → ℕ
observed chrono actual =
    if chrono.weekday actual == sat
    then actual - 1
    else if chrono.weekday actual == sun
    then actual + 1
    else actual

pub nth_after : NaiveDates → ℕ → ℕ → ℕ → ℕ
nth_after chrono weekday nth first =
    first + ((7 + weekday - chrono.weekday first) % 7 + 7 * (nth - 1))

pub last_before : NaiveDates → ℕ → ℕ → ℕ
last_before chrono weekday next_month =
    let last = next_month - 1 in last - (7 + chrono.weekday last - weekday) % 7

abbrev pub expect : (ℕ → ℕ) → Option ℕ → Option ℕ
expect f none = none
expect f (some day) = some (f day)

unfoldable pub good_friday : NaiveDates → ℕ → Option ℕ
unfolding computus
good_friday chrono year =
    expect (λ easter. easter - 2) (chrono.from_ymd year (computus year).month (computus year).day)

unfoldable pub observed_fixed : NaiveDates → ℕ → ℕ → ℕ → Option ℕ
unfolding observed
observed_fixed chrono year month day = expect (observed chrono) (chrono.from_ymd year month day)

unfoldable pub nth_weekday : NaiveDates → ℕ → ℕ → ℕ → ℕ → Option ℕ
unfolding nth_after
nth_weekday chrono year month weekday nth =
    expect (nth_after chrono weekday nth) (chrono.from_ymd year month 1)

unfoldable pub last_weekday : NaiveDates → ℕ → ℕ → ℕ → Option ℕ
unfolding last_before
last_weekday chrono year month weekday =
    expect (last_before chrono weekday)
      (if month == 12 then chrono.from_ymd (year + 1) 1 1 else chrono.from_ymd year (month + 1) 1)

-- A vector of which every element is an `expect`.
abbrev pub all_of : List (Option ℕ) → Option (List ℕ)
all_of [] = some []
all_of (none ∷ days) = none
all_of (some day ∷ days) = elim (all_of days) [ none ↦ none | some rest ↦ some (day ∷ rest) ]

-- The expressions in the vector, and the one that is pushed from 2022 on.
unfoldable pub holiday_dates : NaiveDates → ℕ → List (Option ℕ)
holiday_dates chrono year =
    observed_fixed chrono year 1 1
    ∷ nth_weekday chrono year 1 mon 3
    ∷ nth_weekday chrono year 2 mon 3
    ∷ good_friday chrono year
    ∷ last_weekday chrono year 5 mon
    ∷ observed_fixed chrono year 7 4
    ∷ nth_weekday chrono year 9 mon 1
    ∷ nth_weekday chrono year 11 thu 4
    ∷ observed_fixed chrono year 12 25
    ∷ (if leb 2_022 year then observed_fixed chrono year 6 19 ∷ [] else [])

pub nyse_holidays : NaiveDates → ℕ → Option (List ℕ)
nyse_holidays chrono year = all_of (holiday_dates chrono year)

-- `contains`.
abbrev pub holds : ℕ → List ℕ → Bool
holds day days = any (λ d. d == day) days

-- The second list is only computed where the first does not hold the day.
abbrev pub either : ℕ → Option (List ℕ) → Option (List ℕ) → Option Bool
either day none later = none
either day (some these) none = if holds day these then some true else none
either day (some these) (some later) = some (holds day these || holds day later)

unfoldable pub is_nyse_holiday : NaiveDates → ℕ → Option Bool
unfolding nyse_holidays
is_nyse_holiday chrono day =
    either day (nyse_holidays chrono (chrono.year day)) (nyse_holidays chrono (chrono.year day + 1))

abbrev pub negated : Option Bool → Option Bool
negated none = none
negated (some b) = some (not b)

unfoldable pub is_us_equity_session : NaiveDates → ℕ → Option Bool
unfolding is_nyse_holiday
is_us_equity_session chrono day =
    if chrono.weekday day == sat || chrono.weekday day == sun
    then some false
    else negated (is_nyse_holiday chrono day)

-- How the search for a session ends: at a day, in a panic, or, of the model alone, out of fuel.
pub data Search : Type 0 where
  at : ℕ → Search
  panicked out_of_fuel : Search

-- `while !is_us_equity_session(day) { day -= 1 }`.
pub previous_us_equity_session : NaiveDates → ℕ → ℕ → Search
previous_us_equity_session chrono zero day = out_of_fuel
previous_us_equity_session chrono (suc fuel) day =
    let earlier = previous_us_equity_session chrono fuel (day - 1) in
    elim (is_us_equity_session chrono day) [
      | none ↦ panicked
      | some b ↦ if b then at day else earlier
    ]

-- 22:00 UTC, in seconds of the day.
abbrev pub cutoff : ℕ
cutoff = 22 * 3_600

-- `now` is a day and a second of that day.
unfoldable pub expected_latest_us_equity_session : NaiveDates → ℕ → ℕ → ℕ → Search
unfolding previous_us_equity_session
expected_latest_us_equity_session chrono fuel today second =
    previous_us_equity_session chrono fuel (if ltb second cutoff then today - 1 else today)
