-- ===== src/MarketCalendar/Tests.antt =====
-- The sessions of some days of the Gregorian calendar.
use stocks.Base.{
  ℕ, zero, suc, ◌+◌, ◌-◌, ◌*◌, ◌/◌, ◌%◌, ◌≤◌, ◌≡◌, ◌⊎◌, refl, Bool, Option, some, none, arith, ltb,
  leb, ◌==◌, ◌&&◌, ◌||◌, not, if◌then◌else◌,
}
use stocks.MarketCalendar.{
  NaiveDates, IsGregorian, max_year, month_length, computus, holiday_dates, observed_fixed,
  nth_weekday, good_friday, last_weekday, is_us_equity_session, at, previous_us_equity_session,
  expected_latest_us_equity_session,
}
use stocks.MarketCalendar.Easter.{computus_range}
use stocks.MarketCalendar.Latest.{IsLatest, previous_us_equity_session_lem}

abbrev pub days_before_year : ℕ → ℕ
days_before_year y = (y - 1) * 365 + (y - 1) / 4 - (y - 1) / 100 + (y - 1) / 400

abbrev pub is_leap : ℕ → Bool
is_leap y = y % 4 == 0 && (not (y % 100 == 0) || y % 400 == 0)

abbrev pub days_in_month : ℕ → ℕ → ℕ
days_in_month y m =
    if m == 2
    then (if is_leap y then 29 else 28)
    else if m == 4 || m == 6 || m == 9 || m == 11
    then 30
    else 31

unfoldable pub days_before_month : ℕ → ℕ → ℕ
days_before_month y zero = 0
days_before_month y (suc zero) = 0
days_before_month y (suc (suc m)) = days_before_month y (suc m) + days_in_month y (suc m)

unfoldable pub gregorian_day : ℕ → ℕ → ℕ → Option ℕ
gregorian_day y m d =
    if leb 1 y && leb y max_year && leb 1 m && leb m 12 && leb 1 d && leb d (days_in_month y m)
    then some (days_before_year y + days_before_month y m + d)
    else none

-- How many of the years from 1 to n have begun by the day.
unfoldable pub years_begun : ℕ → ℕ → ℕ
years_begun zero day = 0
years_begun (suc n) day = years_begun n day + (if ltb (days_before_year (suc n)) day then 1 else 0)

-- `year` is right up to the year 3000.
abbrev pub gregorian : NaiveDates
gregorian = record {
  from_ymd = gregorian_day;
  year = years_begun 3_000;
  weekday = λ d. (d + 6) % 7;
}

gregorian_day_lem :
    (y m d : ℕ)
    → 1 ≤ y
    → y ≤ max_year
    → 1 ≤ m
    → m ≤ 12
    → 1 ≤ d
    → d ≤ month_length m
    → (day : ℕ) × (gregorian_day y m d ≡ some day)
unfolding gregorian_day
gregorian_day_lem y m d a b c e f g = (days_before_year y + days_before_month y m + d, ground arith)

years_begun_mono : (n d e : ℕ) → d ≤ e → years_begun n d ≤ years_begun n e
unfolding years_begun
years_begun_mono zero d e le = omega arith
years_begun_mono (suc n) d e le = ground (arith, years_begun_mono n d e)

year_long : (y : ℕ) → days_before_year (suc y) + 365 ≤ days_before_year (suc (suc y))
year_long y = omega arith

years_begun_step : (n d : ℕ) → years_begun (suc n) (d + 365) ≤ years_begun n d + 1
unfolding years_begun
years_begun_step zero d = ground arith
years_begun_step (suc n) d = ground (arith, years_begun_step n d, year_long n)

years_begun_le : (n d : ℕ) → years_begun n d ≤ years_begun (suc n) d
unfolding years_begun
years_begun_le n d = ground arith

years_begun_pos : (n d : ℕ) → 1 ≤ d → 1 ≤ years_begun (suc n) d
unfolding years_begun
years_begun_pos zero d pos = ground arith
years_begun_pos (suc n) d pos = ground (arith, years_begun_pos n d pos)

gregorian-IsGregorian : IsGregorian gregorian
gregorian-IsGregorian = record {
  from_ymd_lem = gregorian_day_lem;
  year_mono = years_begun_mono 3_000;
  year_step = λ d. step d;
  year_pos = years_begun_pos 2_999;
  weekday_lem = λ d. refl;
}
  where
    step : (d : ℕ) → years_begun 3_000 (d + 365) ≤ years_begun 3_000 d + 1
    step d = omega (arith, years_begun_step 2_999 d, years_begun_le 2_999 d)

-- 5 July 2026, a Sunday.
abbrev sunday : ℕ
sunday = 739_802

-- The tests of src/platform/market_calendar.rs.
holidays_roll_back_to_prior_session : previous_us_equity_session gregorian 213 739_946 ≡ at 739_945
unfolding previous_us_equity_session is_us_equity_session holiday_dates observed_fixed gregorian_day
    years_begun nth_weekday good_friday last_weekday days_before_month
holidays_roll_back_to_prior_session = refl

monday_premarket_expects_prior_friday :
    expected_latest_us_equity_session gregorian 213 739_768 36_000 ≡ at 739_765
unfolding expected_latest_us_equity_session previous_us_equity_session is_us_equity_session
    holiday_dates observed_fixed gregorian_day years_begun nth_weekday good_friday last_weekday
    days_before_month
monday_premarket_expects_prior_friday = refl

after_cutoff_expects_same_trading_day :
    expected_latest_us_equity_session gregorian 213 739_768 81_000 ≡ at 739_768
unfolding expected_latest_us_equity_session previous_us_equity_session is_us_equity_session
    holiday_dates observed_fixed gregorian_day years_begun nth_weekday good_friday last_weekday
    days_before_month
after_cutoff_expects_same_trading_day = refl

easter_2026 : computus 2_026 ≡ record { month = 4; day = 5 }
unfolding computus
easter_2026 = refl

computus_range_example :
    (((computus 2_026).month ≡ 3) × (22 ≤ (computus 2_026).day) × ((computus 2_026).day ≤ 31))
    ⊎ (((computus 2_026).month ≡ 4) × (1 ≤ (computus 2_026).day) × ((computus 2_026).day ≤ 25))
computus_range_example = computus_range 2_026

year_of_sunday : gregorian.year sunday + 2 ≤ max_year
unfolding years_begun
year_of_sunday = omega arith

previous_us_equity_session_lem_example :
    (found : ℕ) × (previous_us_equity_session gregorian 213 sunday ≡ at found)
    × IsLatest gregorian sunday found
    × (sunday ≤ found + 212)
previous_us_equity_session_lem_example =
    previous_us_equity_session_lem gregorian-IsGregorian 213 sunday (omega arith) (omega arith)
      year_of_sunday
