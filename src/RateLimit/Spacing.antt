-- ===== src/RateLimit/Spacing.antt =====
-- How far apart the limiter of src/ingest/rate_limit.rs keeps the calls of a provider.
use stocks.Base.{
  ℕ, ◌+◌, ◌≤◌, ◌≡◌, inl, inr, true, List, [], ◌∷◌, Option, none, some, arith, Bool-cases,
}
use stocks.Time.{DateTime, Span}
use stocks.RateLimit.{
  State, ProviderLimiter, attempt, wait_of, backoff, observe_status, Event, call, answer, apply,
  granted, time_of, grants,
}

-- Each entry is at least `gap` after the one before, the first at least at `start`.
abbrev pub IsSpaced : ℕ → ℕ → List ℕ → Type 0
IsSpaced gap start [] = Unit
IsSpaced gap start (t ∷ ts) = (start ≤ t) × IsSpaced gap (t + gap) ts

IsSpaced-weaken : (gap a b : ℕ) (ts : List ℕ) → a ≤ b → IsSpaced gap b ts → IsSpaced gap a ts
IsSpaced-weaken gap a b [] h s = tt
IsSpaced-weaken gap a b (t ∷ ts) h (k, s) = (omega arith, s)

module _ (from_std : ℕ → Option Span) (limiter : ProviderLimiter) where
  -- The next allowed instant never moves back.
  apply-next_allowed :
      (e : Event) (s : State) → s.next_allowed ≤ (apply from_std limiter e s).next_allowed
  unfolding attempt observe_status backoff
  apply-next_allowed (call now) s = ground arith
  apply-next_allowed (answer now utc status retry) s = ground arith

  -- A call that goes out moves it on by the delay.
  apply-granted :
      (e : Event) (s : State)
      → granted from_std limiter e s ≡ true
      → (s.next_allowed ≤ time_of from_std limiter e)
        × ((apply from_std limiter e s).next_allowed
            ≡ time_of from_std limiter e + limiter.min_delay)
  unfolding attempt
  apply-granted (call now) s h = (ground arith, ground arith)
  apply-granted (answer now utc status retry) s h = ground arith

  -- For every interleaving of calls and answers, at whatever times, the first call goes out no
  -- earlier than the state allows and each later one at least the minimum delay after the one before.
  pub grants-IsSpaced :
      (es : List Event) (s : State)
      → IsSpaced limiter.min_delay s.next_allowed (grants from_std limiter es s)
  unfolding grants
  grants-IsSpaced [] s = tt
  grants-IsSpaced (e ∷ es) s = elim (Bool-cases (granted from_std limiter e s)) [
    | inl h ↦
        let (early, next) = apply-granted e s h in
        rw h (early, rw next at (grants-IsSpaced es (apply from_std limiter e s)))
    | inr h ↦ rw h (
        IsSpaced-weaken _ _ _ _ (apply-next_allowed e s)
          (grants-IsSpaced es (apply from_std limiter e s)))
  ]

  -- For every state, an answer 429 at the instant `now` keeps all calls that go out after it, in any
  -- interleaving, from `now` plus the wait on: the one the provider asks for, or the computed one, but
  -- never above the maximum.
  pub grants-after_429 :
      (now : ℕ) (utc : DateTime) (retry : Option ℕ) (es : List Event) (s : State)
      → IsSpaced limiter.min_delay
          (now + wait_of limiter retry s)
          (grants from_std limiter (answer now utc 429 retry ∷ es) s)
  unfolding grants observe_status backoff
  grants-after_429 now utc retry es s =
      IsSpaced-weaken _ _ _ _ later
        (grants-IsSpaced es (apply from_std limiter (answer now utc 429 retry) s))
    where
      later :
          now + wait_of limiter retry s
          ≤ (apply from_std limiter (answer now utc 429 retry) s).next_allowed
      later = omega arith

-- A call that must sleep is told how long: at any state, if `attempt` at `now` says to sleep, then an
-- attempt when that time is over goes out, where no other event came between.
attempt-attempt :
    (limiter : ProviderLimiter) (now sleep_for : ℕ) (s : State)
    → (attempt limiter now s).1 ≡ some sleep_for
    → (attempt limiter (now + sleep_for) (attempt limiter now s).0).1 ≡ none
unfolding attempt
attempt-attempt limiter now sleep_for s h = ground arith
