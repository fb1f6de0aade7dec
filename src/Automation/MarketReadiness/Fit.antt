-- ===== src/Automation/MarketReadiness/Fit.antt =====
-- When src/automation/market_readiness.rs calls a symbol's market data ready.
use mathlib.Core.Bool.{false≢true}
use stocks.Base.{
  ℕ, ◌≤◌, ◌<◌, ◌≡◌, refl, sym, ◌↔◌, inl, inr, Bool, true, false, not, List, [], ◌∷◌, Option, none,
  some, String, arith, eq_iff, flatten, flatten-eq-nil, is_empty, is_empty_iff, is_some, find, All,
  Bool-cases,
}
use stocks.Base.Int.{ℤ, pos, max_ℤ, ◌≤ℤ◌}
use stocks.Float.{F64, nought}
use stocks.Time.{DateTime, days, since}
use stocks.Reasons.{when, sort_dedup}
use stocks.Reasons.Laws.{sort_dedup-eq-nil, when-eq-nil, when-ltb-eq-nil}
use stocks.Automation.MarketReadiness.{
  MarketReadinessInput, NoTradeWindow, window_contains, bar_blockers, positive, gap_pct,
  gap_exceeds, is_halted, status_of, pushed, evaluate_market_readiness,
}
use stocks.Reasons.Gates.{when-not-eq-nil}

-- For every window and time of day, a window that ends no earlier than it starts contains the times
-- from its start to its end, and a window across midnight all times but those strictly between its
-- end and its start.
window_contains_iff :
    (w : NoTradeWindow) (time : ℕ)
    → (w.start_utc ≤ w.end_utc
        → (window_contains w time ≡ true) ↔ ((w.start_utc ≤ time) × (time ≤ w.end_utc)))
      × (w.end_utc < w.start_utc
          → (window_contains w time ≡ true) ↔ (¬ ((w.end_utc < time) × (time < w.start_utc))))
unfolding window_contains
window_contains_iff w time = (λ h. ground arith, λ h. ground arith)

-- A fresh bar: one that is there and no older than the limit, which is at least a day.
abbrev pub IsFreshBar : DateTime → Option DateTime → ℤ → Type 0
IsFreshBar now none max_age_days = ⊥
IsFreshBar now (some latest) max_age_days = since now latest ≤ℤ days (max_ℤ max_age_days (pos 1))

module _ {F : Type 0} ⦃d : F64 F⦄ where
  abbrev pub HasPrice : Option F → Type 0
  HasPrice none = ⊥
  HasPrice (some price) = d.lt nought price ≡ true

  pub record IsFit (input : MarketReadinessInput F) : Type 0 where
    pub priced : HasPrice input.latest_price
    pub fresh : IsFreshBar input.now input.latest_bar_at input.max_age_days
    pub small_gap :
        gap_exceeds
          (gap_pct (positive input.latest_price) (positive input.previous_close))
          input.max_gap_pct
        ≡ false
    pub opened : input.session_open ≡ true
    pub trading : is_halted input.halt_state ≡ false
    pub adjusted : input.corporate_actions_adjusted ≡ true
    pub outside : All (λ w. window_contains w input.now_time ≡ false) input.no_trade_windows_utc

not_some-find :
    (p : NoTradeWindow → Bool) (ws : List NoTradeWindow) (reason : String)
    → (when (is_some (find p ws)) reason ≡ []) ↔ All (λ w. p w ≡ false) ws
not_some-find p [] reason = (λ e. tt, λ h. refl)
not_some-find p (w ∷ ws) reason = elim (Bool-cases (p w)) [
  | inl e ↦ rw e (λ h. absurd (cc), λ h. absurd (false≢true (sym h.0)))
  | inr e ↦
      rw e (λ h. (refl, (not_some-find p ws reason).0 h), λ h. (not_some-find p ws reason).1 h.1)
]

bar_blockers-eq-nil :
    (now : DateTime) (latest : Option DateTime) (n : ℤ)
    → (bar_blockers now latest n ≡ []) ↔ IsFreshBar now latest n
unfolding bar_blockers
bar_blockers-eq-nil now none n = (λ e. cc, λ h. absurd h)
bar_blockers-eq-nil now (some latest) n =
    when-ltb-eq-nil (days (max_ℤ n (pos 1))) (since now latest) _

status_iff : (b : Bool) → (status_of b ≡ "ready") ↔ (b ≡ true)
status_iff true = (λ h. refl, λ h. refl)
status_iff false =
    (λ h. absurd (false≢true ((eq_iff "blocked" "ready").1 h)), λ h. absurd (false≢true h))

module _ {F : Type 0} ⦃d : F64 F⦄ where
  priced-eq-nil :
      (price : Option F) (reason : String)
      → (when (not (is_some (positive price))) reason ≡ []) ↔ HasPrice price
  unfolding positive
  priced-eq-nil none reason = (λ e. cc, λ h. absurd h)
  priced-eq-nil (some price) reason = ground arith

  pushed_iff : (input : MarketReadinessInput F) → All (λ xs. xs ≡ []) (pushed input) ↔ IsFit input
  pushed_iff input = (
    λ (price, (bar, (gap, (session, (halt, (actions, (windows, _))))))). record {
      priced = (priced-eq-nil _ _).0 price;
      fresh = (bar_blockers-eq-nil _ _ _).0 bar;
      small_gap = (when-eq-nil _ _).0 gap;
      opened = (when-not-eq-nil _ _).0 session;
      trading = (when-eq-nil _ _).0 halt;
      adjusted = (when-not-eq-nil _ _).0 actions;
      outside = (not_some-find _ _ _).0 windows;
    },
    λ f. (
      (priced-eq-nil _ _).1 f.priced,
      (
        (bar_blockers-eq-nil _ _ _).1 f.fresh,
        (
          (when-eq-nil _ _).1 f.small_gap,
          (
            (when-not-eq-nil _ _).1 f.opened,
            (
              (when-eq-nil _ _).1 f.trading,
              ((when-not-eq-nil _ _).1 f.adjusted, ((not_some-find _ _ _).1 f.outside, tt)),
            ),
          ),
        ),
      ),
    ),
  )

  -- For every input, market data is "ready" exactly when it has a positive price, a bar no older than
  -- the limit of at least one day, no gap above the limit, an open session, no halt, adjusted
  -- corporate actions, and a time outside every no-trade window.
  pub evaluate_market_readiness-ready_iff :
      (input : MarketReadinessInput F)
      → ((evaluate_market_readiness input).status ≡ "ready") ↔ IsFit input
  unfolding evaluate_market_readiness
  evaluate_market_readiness-ready_iff input =
      let reasons = sort_dedup (flatten (pushed input)) in
      (
        λ h. (pushed_iff input).0 (
            (flatten-eq-nil (pushed input)).0
              ((sort_dedup-eq-nil _).0 ((is_empty_iff _).0 ((status_iff (is_empty reasons)).0 h)))),
        λ f. (status_iff (is_empty reasons)).1 (
            (is_empty_iff _).1 (
              (sort_dedup-eq-nil _).1
                ((flatten-eq-nil (pushed input)).1 ((pushed_iff input).1 f)))),
      )
