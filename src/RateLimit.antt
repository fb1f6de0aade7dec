-- ===== src/RateLimit.antt =====
-- src/ingest/rate_limit.rs: the limiter that all calls of one provider share. Instants and durations
-- are numbers of nanoseconds, and an instant has no upper bound. The state is behind a mutex, so one
-- acquisition of the lock is one event; a trace of events is an interleaving of the callers.
pub mod Spacing
pub mod Backoff
mod Tests
use stocks.Base.{
  ℕ, ◌+◌, ◌-◌, ◌*◌, ◌^◌, Bool, true, false, ◌&&◌, List, [], ◌∷◌, Option, none, some, if◌then◌else◌,
  leb, ltb, ◌==◌, unwrap_or,
}
use stocks.Base.Int.{ℤ, ◌+ℤ◌}
use stocks.Time.{DateTime, Span}
use Prim.Native.Nat.{max, min}

pub record State : Type 0 where
  pub next_allowed : ℕ
  pub backoff : ℕ
  pub retry_after_at : Option DateTime

pub record ProviderLimiter : Type 0 where
  pub min_delay : ℕ
  pub default_backoff : ℕ
  pub max_backoff : ℕ

unfoldable pub new : ℕ → State
new now = record { next_allowed = now; backoff = 0; retry_after_at = none }

-- `Duration::MAX`: 2 ^ 64 seconds less a nanosecond.
abbrev pub max_duration : ℕ
max_duration = 2 ^ 64 * 1_000_000_000 - 1

-- `saturating_mul(2)`.
unfoldable pub saturating_double : ℕ → ℕ
saturating_double n = min (n * 2) max_duration

-- One pass of the loop of `wait`: the time to sleep, none where the call may go.
unfoldable pub attempt : ProviderLimiter → ℕ → State → State × Option ℕ
attempt limiter now state =
    if leb state.next_allowed now
    then (record state { next_allowed = now + limiter.min_delay }, none)
    else (state, some (state.next_allowed - now))

-- `StatusCode::TOO_MANY_REQUESTS` and `StatusCode::is_success`.
abbrev pub is_too_many : ℕ → Bool
is_too_many status = status == 429

abbrev pub is_success : ℕ → Bool
is_success status = leb 200 status && ltb status 300

unfoldable pub computed : ProviderLimiter → State → ℕ
unfolding saturating_double
computed limiter state =
    if state.backoff == 0
    then limiter.default_backoff
    else min (saturating_double state.backoff) limiter.max_backoff

unfoldable pub wait_of : ProviderLimiter → Option ℕ → State → ℕ
wait_of limiter retry_after state =
    min (unwrap_or retry_after (computed limiter state)) limiter.max_backoff

-- `from_std` stands for `chrono::Duration::from_std`, none where the duration is too long.
module _ (from_std : ℕ → Option Span) where
  abbrev pub retry_at : DateTime → Option Span → Option DateTime
  retry_at utc_now none = none
  retry_at utc_now (some span) = some (utc_now +ℤ span)

  unfoldable pub backoff : ProviderLimiter → ℕ → DateTime → Option ℕ → State → State
  backoff limiter now utc_now retry_after state =
      let wait = wait_of limiter retry_after state in
      record {
        backoff = wait;
        retry_after_at = retry_at utc_now (from_std wait);
        next_allowed = max state.next_allowed (now + wait);
      }

  unfoldable pub observe_status : ProviderLimiter → ℕ → DateTime → ℕ → Option ℕ → State → State
  observe_status limiter now utc_now status retry_after state =
      if is_too_many status
      then backoff limiter now utc_now retry_after state
      else if is_success status
      then record state { backoff = 0; retry_after_at = none }
      else state

-- One acquisition of the lock, with what the clocks read and what the caller passes.
pub data Event : Type 0 where
  call : ℕ → Event
  answer : ℕ → DateTime → ℕ → Option ℕ → Event

module _ (from_std : ℕ → Option Span) (limiter : ProviderLimiter) where
  abbrev pub apply : Event → State → State
  apply (call now) state = (attempt limiter now state).0
  apply (answer now utc_now status retry_after) state =
      observe_status from_std limiter now utc_now status retry_after state

  abbrev pub run : List Event → State → State
  run [] state = state
  run (e ∷ es) state = run es (apply e state)

  abbrev pub granted : Event → State → Bool
  granted (call now) state = leb state.next_allowed now
  granted (answer _ _ _ _) state = false

  abbrev pub time_of : Event → ℕ
  time_of (call now) = now
  time_of (answer now _ _ _) = now

  -- The times at which calls went out.
  unfoldable pub grants : List Event → State → List ℕ
  grants [] state = []
  grants (e ∷ es) state =
      let rest = grants es (apply e state) in if granted e state then time_of e ∷ rest else rest
