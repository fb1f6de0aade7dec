-- ===== src/MarketCalendar/Latest.antt =====
-- The loop of `previous_us_equity_session`, in src/platform/market_calendar.rs, ends at a session.
use stocks.Base.{
  ℕ, zero, suc, ◌+◌, ◌-◌, ◌≤◌, ◌<◌, ◌≡◌, ◌⊎◌, inl, inr, refl, ◌∙◌, true, false, false≢true, some,
  ltb, arith, Bool-cases, if◌then◌else◌,
}
use stocks.MarketCalendar.{
  NaiveDates, IsGregorian, max_year, is_us_equity_session, at, previous_us_equity_session, cutoff,
  expected_latest_us_equity_session,
}
use stocks.MarketCalendar.Sessions.{is_us_equity_session_total, session_before}

-- `found` is the last session up to `day`.
pub record IsLatest (chrono : NaiveDates) (day found : ℕ) : Type 0 where
  pub not_later : found ≤ day
  pub is_session : is_us_equity_session chrono found ≡ some true
  pub none_between : (e : ℕ) → found < e → e ≤ day → is_us_equity_session chrono e ≡ some false

IsLatest-back :
    (chrono : NaiveDates) (day found : ℕ)
    → 1 ≤ day
    → is_us_equity_session chrono day ≡ some false
    → IsLatest chrono (day - 1) found
    → IsLatest chrono day found
IsLatest-back chrono day found pos off l = record {
  not_later = omega (arith, l.not_later);
  is_session = l.is_session;
  none_between = λ e after le. between e after le (ground arith);
}
  where
    between :
        (e : ℕ)
        → found < e
        → e ≤ day
        → (e ≡ day) ⊎ (e ≤ day - 1)
        → is_us_equity_session chrono e ≡ some false
    between e after le (inl same) = rw same off
    between e after le (inr before) = l.none_between e after before

IsLatest-self :
    (chrono : NaiveDates) (day : ℕ)
    → is_us_equity_session chrono day ≡ some true
    → IsLatest chrono day day
IsLatest-self chrono day on = record {
  not_later = omega arith;
  is_session = on;
  none_between = λ e after le. absurd (omega arith);
}

-- No session up to the day is later.
IsLatest-le :
    (chrono : NaiveDates) (day found e : ℕ)
    → IsLatest chrono day found
    → e ≤ day
    → is_us_equity_session chrono e ≡ some true
    → e ≤ found
IsLatest-le chrono day found e l le on = grind (arith, l.none_between e)

-- Where the day is no session and the day n before is one, n is positive.
days_left :
    (chrono : NaiveDates) (day n : ℕ)
    → is_us_equity_session chrono day ≡ some false
    → is_us_equity_session chrono (day - n) ≡ some true
    → (1 ≤ n) × (day - 1 - (n - 1) ≡ day - n)
days_left chrono day zero off on =
    let whole : day - 0 ≡ day = omega arith in absurd (false≢true (cc))
days_left chrono day (suc n) off on = (omega arith, omega arith)

-- A round of the loop.
round_stops :
    (chrono : NaiveDates) (fuel day : ℕ)
    → is_us_equity_session chrono day ≡ some true
    → previous_us_equity_session chrono (suc fuel) day ≡ at day
unfolding previous_us_equity_session
round_stops chrono fuel day on = rw (on, previous_us_equity_session) refl

round_goes_back :
    (chrono : NaiveDates) (fuel day : ℕ)
    → is_us_equity_session chrono day ≡ some false
    → previous_us_equity_session chrono (suc fuel) day
      ≡ previous_us_equity_session chrono fuel (day - 1)
unfolding previous_us_equity_session
round_goes_back chrono fuel day off = rw (off, previous_us_equity_session) refl

module _ {chrono : NaiveDates} (h : IsGregorian chrono) where
  -- With more fuel than there are days back to some session, the loop ends at the last one.
  reaches :
      (fuel n day : ℕ)
      → n < fuel
      → n < day
      → chrono.year day + 1 ≤ max_year
      → is_us_equity_session chrono (day - n) ≡ some true
      → (found : ℕ) × (previous_us_equity_session chrono fuel day ≡ at found)
        × IsLatest chrono day found
  unfolding previous_us_equity_session
  reaches zero n day lt pos high e = absurd (omega arith)
  reaches (suc fuel) n day lt pos high e =
      let (b, is) = is_us_equity_session_total h day (omega arith) high in
      elim (Bool-cases b) [
        | inl yes_b ↦
            let on : is_us_equity_session chrono day ≡ some true = rw yes_b at is in
            (day, round_stops chrono fuel day on, IsLatest-self chrono day on)
        | inr no_b ↦
            let off : is_us_equity_session chrono day ≡ some false = rw no_b at is in
            let (more, same) = days_left chrono day n off e in
            let (found, run, l) =
              reaches fuel (n - 1) (day - 1) (omega arith) (omega arith)
                (omega (arith, h.year_mono (day - 1) day (omega arith))) (rw same e) in
            (
              found,
              round_goes_back chrono fuel day off ∙ run,
              IsLatest-back chrono day found (omega arith) off l,
            )
      ]

  -- From any day of the years from 2 to the last but two of the calendar, the loop ends: it comes
  -- after fewer than 213 rounds to the last session up to that day, and no `expect` fails.
  pub previous_us_equity_session_lem :
      (fuel day : ℕ)
      → 213 ≤ fuel
      → 368 ≤ day
      → chrono.year day + 2 ≤ max_year
      → (found : ℕ) × (previous_us_equity_session chrono fuel day ≡ at found)
        × IsLatest chrono day found
        × (day ≤ found + 212)
  previous_us_equity_session_lem fuel day enough far high =
      let (n, few, e) = session_before h day far high in
      let (found, run, l) = reaches fuel n day (omega arith) (omega arith) (omega arith) e in
      (found, run, l, omega (arith, IsLatest-le chrono day found (day - n) l (omega arith) e))

  -- The session that is expected is the last one up to today, after 22:00 UTC, and the last one
  -- before today until then. With fuel for 213 rounds the search always gives it.
  pub expected_latest_lem :
      (fuel today second : ℕ)
      → 213 ≤ fuel
      → 369 ≤ today
      → chrono.year today + 2 ≤ max_year
      → (found : ℕ) × (expected_latest_us_equity_session chrono fuel today second ≡ at found)
        × IsLatest chrono (if ltb second cutoff then today - 1 else today) found
  unfolding expected_latest_us_equity_session
  expected_latest_lem fuel today second enough far high = elim (Bool-cases (ltb second cutoff)) [
    | inl early ↦
        let (found, run, l, _) =
          previous_us_equity_session_lem fuel (today - 1) enough (omega arith)
            (omega (arith, h.year_mono (today - 1) today (omega arith))) in
        (found, rw early run, rw early l)
    | inr late ↦
        let (found, run, l, _) =
          previous_us_equity_session_lem fuel today enough (omega arith) high in
        (found, rw late run, rw late l)
  ]
