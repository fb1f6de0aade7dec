-- ===== src/RateLimit/Backoff.antt =====
-- How the backoff of src/ingest/rate_limit.rs grows, and that it stays bounded.
use Prim.Native.Nat.{min}
use stocks.Base.{ℕ, suc, ◌<◌, ap, ◌∙◌, ◌*◌, ◌^◌, ◌≤◌, ◌≡◌, List, [], ◌∷◌, Option, none, arith}
use stocks.Time.{DateTime, Span}
use stocks.RateLimit.{
  State, ProviderLimiter, new, saturating_double, attempt, computed, wait_of, backoff,
  observe_status, Event, call, answer, apply, run, max_duration,
}

-- `n` answers 429 in a row, each without a retry time.
abbrev pub refusals : ℕ → DateTime → ℕ → List Event
refusals now utc ℕ.zero = []
refusals now utc (ℕ.suc n) = answer now utc 429 none ∷ refusals now utc n

module _ (from_std : ℕ → Option Span) (limiter : ProviderLimiter) where
  abbrev pub IsBounded : State → Type 0
  IsBounded s = s.backoff ≤ limiter.max_backoff

  apply-IsBounded : (e : Event) (s : State) → IsBounded s → IsBounded (apply from_std limiter e s)
  unfolding attempt observe_status backoff wait_of
  apply-IsBounded (call now) s h = ground arith
  apply-IsBounded (answer now utc status retry) s h = ground arith

  run-IsBounded' :
      (es : List Event) (s : State) → IsBounded s → IsBounded (run from_std limiter es s)
  run-IsBounded' [] s h = h
  run-IsBounded' (e ∷ es) s h =
      run-IsBounded' es (apply from_std limiter e s) (apply-IsBounded e s h)

  -- From a new limiter on, the backoff never exceeds the maximum, in any interleaving of calls and
  -- answers.
  pub run-IsBounded :
      (now : ℕ) (es : List Event)
      → (run from_std limiter es (new now)).backoff ≤ limiter.max_backoff
  unfolding new
  run-IsBounded now es = run-IsBounded' es (new now) (omega arith)

  backoff-doubles :
      (x now : ℕ) (utc : DateTime) (s : State)
      → limiter.max_backoff ≤ max_duration
      → 0 < x
      → s.backoff ≡ min x limiter.max_backoff
      → (apply from_std limiter (answer now utc 429 none) s).backoff
        ≡ min (x * 2) limiter.max_backoff
  unfolding observe_status backoff wait_of computed saturating_double
  backoff-doubles x now utc s h p e = ground arith

  backoff-first :
      (now : ℕ) (utc : DateTime) (s : State)
      → s.backoff ≡ 0
      → (apply from_std limiter (answer now utc 429 none) s).backoff
        ≡ min limiter.default_backoff limiter.max_backoff
  unfolding observe_status backoff wait_of computed
  backoff-first now utc s e = ground arith

  doubled : (x n : ℕ) → x * 2 * 2 ^ n ≡ x * 2 ^ suc n
  doubled x n = grind arith

  refusals_from :
      (n x now : ℕ) (utc : DateTime) (s : State)
      → limiter.max_backoff ≤ max_duration
      → 0 < x
      → s.backoff ≡ min x limiter.max_backoff
      → (run from_std limiter (refusals now utc n) s).backoff ≡ min (x * 2 ^ n) limiter.max_backoff
  refusals_from ℕ.zero x now utc s h p e = omega arith
  refusals_from (ℕ.suc n) x now utc s h p e =
      refusals_from n (x * 2) now utc (apply from_std limiter (answer now utc 429 none) s) h
        (omega arith) (backoff-doubles x now utc s h p e)
      ∙ ap (λ y. min y limiter.max_backoff) (doubled x n)

  -- For every limiter with a positive default and a maximum that is a duration, n + 1 answers 429 in a
  -- row, without a retry time and from a state without backoff, set the backoff to the default doubled
  -- n times, cut off at the maximum.
  pub run-refusals :
      (n now : ℕ) (utc : DateTime) (s : State)
      → limiter.max_backoff ≤ max_duration
      → 0 < limiter.default_backoff
      → s.backoff ≡ 0
      → (run from_std limiter (refusals now utc (suc n)) s).backoff
        ≡ min (limiter.default_backoff * 2 ^ n) limiter.max_backoff
  run-refusals n now utc s h p e =
      refusals_from n limiter.default_backoff now utc _ h p (backoff-first now utc s e)
