-- ===== src/RateLimit/Tests.antt =====
-- Runs of the limiter, with the settings of the provider "fmp" of src/ingest/rate_limit.rs.
use Prim.Native.Nat.{min}
use stocks.Base.{ℕ, ◌+◌, ◌*◌, ◌^◌, ◌≤◌, ◌≡◌, refl, List, [], ◌∷◌, Option, none, some, arith}
use stocks.Base.Int.{pos}
use stocks.Time.{Span}
use stocks.RateLimit.{
  State, ProviderLimiter, new, attempt, wait_of, Event, call, answer, run, grants, observe_status,
  backoff, computed,
}
use stocks.RateLimit.Spacing.{IsSpaced, grants-IsSpaced, grants-after_429}
use stocks.RateLimit.Backoff.{refusals, run-IsBounded, run-refusals}

abbrev fmp : ProviderLimiter
fmp = record {
  min_delay = 750_000_000;
  default_backoff = 60_000_000_000;
  max_backoff = 900_000_000_000;
}

abbrev always : ℕ → Option Span
always n = some (pos n)

abbrev fresh : State
fresh = record { next_allowed = 1_000; backoff = 0; retry_after_at = none }

-- Two callers, an answer 429, and a call that comes too early.
abbrev trace : List Event
trace =
    call 1_000
    ∷ call 2_000
    ∷ call 750_001_000
    ∷ answer 750_002_000 (pos 0) 429 none
    ∷ call 1_600_000_000
    ∷ call 60_750_002_000
    ∷ []

trace-grants : grants always fmp trace fresh ≡ 1_000 ∷ 750_001_000 ∷ 60_750_002_000 ∷ []
unfolding grants attempt observe_status backoff wait_of computed
trace-grants = refl

grants-IsSpaced_example : IsSpaced 750_000_000 1_000 (grants always fmp trace fresh)
grants-IsSpaced_example = grants-IsSpaced always fmp trace fresh

grants-after_429_example :
    IsSpaced 750_000_000
      (5_000 + wait_of fmp (some 42_000_000_000) fresh)
      (grants always fmp (answer 5_000 (pos 0) 429 (some 42_000_000_000) ∷ trace) fresh)
grants-after_429_example =
    grants-after_429 always fmp 5_000 (pos 0) (some 42_000_000_000) trace fresh

sleeps : (attempt fmp 400 fresh).1 ≡ some 600
unfolding attempt
sleeps = refl

run-IsBounded_example : (run always fmp trace (new 1_000)).backoff ≤ 900_000_000_000
run-IsBounded_example = run-IsBounded always fmp 1_000 trace

run-refusals_example :
    (run always fmp (refusals 5_000 (pos 0) 6) fresh).backoff
    ≡ min (60_000_000_000 * 2 ^ 5) 900_000_000_000
run-refusals_example =
    run-refusals always fmp 5 5_000 (pos 0) fresh (omega arith) (omega arith) refl
