-- ===== src/Automation/Runner/Session.antt =====
-- src/automation/mod.rs: the state of the trading session that the runner hands to the policy proof.
-- An instant is a day and a second of the day, as in src/platform/market_calendar.rs, whose
-- `nth_weekday` the file repeats; none stands for a panic of the calendar.
use stocks.Base.{
  ℕ, ◌+◌, ◌*◌, ◌≤◌, ◌<◌, ◌≡◌, refl, Bool, true, false, ◌&&◌, Option, none, some, String,
  if◌then◌else◌, ltb, leb, arith, false≢true,
}
use mathlib.Core.Option.{some-injective}
use stocks.Automation.Policy.Types.{SessionPolicyState}
use stocks.MarketCalendar.{NaiveDates, is_us_equity_session, nth_weekday, sun}

abbrev pub at_time : ℕ → ℕ → ℕ
at_time hour minute = (hour * 60 + minute) * 60

abbrev pub within : ℕ → Option ℕ → Option ℕ → Option Bool
within day (some start) (some end) = some (leb start day && ltb day end)
within day (some start) none = none
within day none end = none

unfoldable pub is_us_eastern_dst : NaiveDates → ℕ → Option Bool
unfolding nth_weekday
is_us_eastern_dst chrono day =
    within day (nth_weekday chrono (chrono.year day) 3 sun 2)
      (nth_weekday chrono (chrono.year day) 11 sun 1)

-- The open and the close of a session, and the reasons that name them.
pub record Bounds : Type 0 where
  pub opens : ℕ
  pub closes : ℕ
  pub opens_text : String
  pub closes_text : String

abbrev pub bounds_of : Bool → Bounds
bounds_of dst =
    if dst
    then record {
      opens = at_time 13 30;
      closes = at_time 20 0;
      opens_text = "regular session opens at 13:30:00 UTC";
      closes_text = "regular session closed at 20:00:00 UTC";
    }
    else record {
      opens = at_time 14 30;
      closes = at_time 21 0;
      opens_text = "regular session opens at 14:30:00 UTC";
      closes_text = "regular session closed at 21:00:00 UTC";
    }

abbrev pub regular_session : ℕ → Bounds → SessionPolicyState
regular_session second bounds =
    if ltb second bounds.opens
    then record { is_open = false; label = "pre_market"; reason = some bounds.opens_text }
    else if leb bounds.closes second
    then record { is_open = false; label = "after_hours"; reason = some bounds.closes_text }
    else record { is_open = true; label = "regular"; reason = none }

abbrev pub not_session : SessionPolicyState
not_session = record { is_open = false; label = "closed"; reason = some "not_us_equity_session" }

abbrev pub session_of : ℕ → Option Bool → Option Bool → Option SessionPolicyState
session_of second none dst = none
session_of second (some false) dst = some not_session
session_of second (some true) none = none
session_of second (some true) (some dst) = some (regular_session second (bounds_of dst))

unfoldable pub session_policy_state : NaiveDates → ℕ → ℕ → Option SessionPolicyState
unfolding is_us_eastern_dst
session_policy_state chrono day second =
    session_of second (is_us_equity_session chrono day) (is_us_eastern_dst chrono day)

-- An open session is one of a session day, from 9:30 to 16:00 of New York.
pub record IsOpenAt (chrono : NaiveDates) (day second : ℕ) : Type 0 where
  pub session_day : is_us_equity_session chrono day ≡ some true
  pub dst : Bool
  pub summer : is_us_eastern_dst chrono day ≡ some dst
  pub opened : (bounds_of dst).opens ≤ second
  pub not_closed : second < (bounds_of dst).closes

opened_bounds :
    (second : ℕ) (dst : Bool)
    → (regular_session second (bounds_of dst)).is_open ≡ true
    → ((bounds_of dst).opens ≤ second) × (second < (bounds_of dst).closes)
opened_bounds second true h = ground arith
opened_bounds second false h = ground arith

open_parts :
    (chrono : NaiveDates) (day second : ℕ) (is_day dst : Option Bool) (session : SessionPolicyState)
    → is_us_equity_session chrono day ≡ is_day
    → is_us_eastern_dst chrono day ≡ dst
    → session_of second is_day dst ≡ some session
    → session.is_open ≡ true
    → IsOpenAt chrono day second
open_parts chrono day second none dst session p q e h = cc
open_parts chrono day second (some false) dst session p q e h =
    let same : not_session ≡ session = some-injective _ _ e in
    absurd (false≢true (rw (← same) at h))
open_parts chrono day second (some true) none session p q e h = cc
open_parts chrono day second (some true) (some dst) session p q e h =
    let same : regular_session second (bounds_of dst) ≡ session = some-injective _ _ e in
    let (opens, closes) = opened_bounds second dst (rw (← same) at h) in
    record { session_day = p; dst = dst; summer = q; opened = opens; not_closed = closes }

-- The session is open only on a session day of the exchange, from 13:30 to before 20:00 UTC in the
-- summer time of New York and from 14:30 to before 21:00 UTC else.
pub session_policy_state-IsOpenAt :
    (chrono : NaiveDates) (day second : ℕ) (session : SessionPolicyState)
    → session_policy_state chrono day second ≡ some session
    → session.is_open ≡ true
    → IsOpenAt chrono day second
unfolding session_policy_state
session_policy_state-IsOpenAt chrono day second session e h =
    open_parts chrono day second (is_us_equity_session chrono day) (is_us_eastern_dst chrono day)
      session refl refl e h
