-- ===== src/MarketCalendar/Easter.antt =====
-- The computus of `good_friday` in src/platform/market_calendar.rs.
use stocks.Base.{ℕ, ◌+◌, ◌-◌, ◌*◌, ◌/◌, ◌%◌, ◌≤◌, ◌≡◌, ◌⊎◌, arith}
use stocks.MarketCalendar.{computus}

-- For every year, the computus gives a day from 22 March to 25 April: a date that exists in every
-- year, so that the `expect` of `good_friday` does not fail.
pub computus_range :
    (year : ℕ)
    → (((computus year).month ≡ 3) × (22 ≤ (computus year).day) × ((computus year).day ≤ 31))
      ⊎ (((computus year).month ≡ 4) × (1 ≤ (computus year).day) × ((computus year).day ≤ 25))
unfolding computus
computus_range year = ground arith

-- What the computus subtracts is never larger than what it subtracts from, so that the model's
-- numbers are those of the source.
pub computus_exact :
    (year : ℕ)
    → let a = year % 19 in
      let b = year / 100 in
      let c = year % 100 in
      let f = (b + 8) / 25 in
      let g = (b - f + 1) / 3 in
      let h = (19 * a + b - b / 4 - g + 15) % 30 in
      let l = (32 + 2 * (b % 4) + 2 * (c / 4) - h - c % 4) % 7 in
      let m = (a + 11 * h + 22 * l) / 451 in
      (f ≤ b)
      × (b / 4 + g ≤ 19 * a + b)
      × (h + c % 4 ≤ 32 + 2 * (b % 4) + 2 * (c / 4))
      × (7 * m ≤ h + l + 114)
computus_exact year = (omega arith, omega arith, omega arith, omega arith)
