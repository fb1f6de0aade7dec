-- ===== src/Automation/Simulator/Faults.antt =====
-- What the digital broker of src/automation/simulator.rs does not touch.
use mathlib.Core.Path.{subst}
use stocks.Base.{
  ◌≡◌, ◌≢◌, refl, ◌∙◌, map, any, inl, inr, Bool, true, false, List, [], ◌∷◌, Option, none, some,
  Bool-cases,
}
use stocks.Float.{F64, nought, micro, sum}
use stocks.Automation.Simulator.Fills.{fraction_of}
use stocks.Automation.Simulator.Orders.{orders_from, run_orders, run_profit, run_partial}
use stocks.Automation.Simulator.Legs.{OrderLeg, SimulatedFill, normalize_position}
use stocks.Automation.Simulator.{
  simulated_incident, trade, open_status, open_reasons, noop_outcome, filled_outcome, fill_all,
  start, legs_of, unless_incident, incident_outcome, blocked_outcome, reconcile_simulated,
}
use stocks.Automation.Simulator.Types.{
  ReconciliationInput, ReconciliationOutcome, SimulatedIncident,
}

closed_status : (b : Bool) → b ≡ false → (open_status b ≡ "reconciled") × (open_reasons b ≡ [])
closed_status b e = rw e (refl, refl)

waiting_status :
    (b : Bool)
    → b ≡ true
    → (open_status b ≡ "submitted") × (open_reasons b ≡ "partial_fill_open" ∷ [])
waiting_status b e = rw e (refl, refl)

module _ {F : Type 0} ⦃d : F64 F⦄ where
  -- Nothing was ordered or filled, and the position is the normalized one.
  pub record IsUntouched (input : ReconciliationInput F) (o : ReconciliationOutcome F)
      : Type 0 where
    pub no_orders : o.orders ≡ []
    pub no_fills : o.fills ≡ []
    pub same_position : o.final_position ≡ normalize_position input.current_position
    pub no_profit : o.realized_pnl_delta ≡ nought

  -- A leg that stays open: its fill is short of its quantity by more than the tolerance.
  abbrev pub is_open : ReconciliationInput F → OrderLeg F → Bool
  is_open input l = d.lt (d.add (d.mul l.quantity (fraction_of input)) micro) l.quantity

  -- Each leg has its order, numbered from 0; the profit is that of the fills, added up; and the
  -- outcome waits for a fill exactly where a leg stays open.
  pub record IsBooked (input : ReconciliationInput F) (o : ReconciliationOutcome F) : Type 0 where
    pub ordered : o.orders ≡ orders_from input (fraction_of input) 0 (legs_of input)
    pub profit :
        o.realized_pnl_delta ≡ sum (map (λ (f : SimulatedFill F). f.realized_pnl_delta) o.fills)
    pub closed :
        any (is_open input) (legs_of input) ≡ false
        → (o.status ≡ "reconciled") × (o.blocked_reasons ≡ [])
    pub waits :
        any (is_open input) (legs_of input) ≡ true
        → (o.status ≡ "submitted") × (o.blocked_reasons ≡ "partial_fill_open" ∷ [])

  booked : (input : ReconciliationInput F) → IsBooked input (fill_all input (legs_of input))
  unfolding filled_outcome
  booked input =
      let price = d.max input.market_price nought in
      let first = start (normalize_position input.current_position) in
      let partial = run_partial input (fraction_of input) price (legs_of input) first in
      record {
        ordered = run_orders input (fraction_of input) price (legs_of input) first;
        profit = run_profit input (fraction_of input) price (legs_of input) first refl;
        closed = λ e. closed_status _ (partial ∙ e);
        waits = λ e. waiting_status _ (partial ∙ e);
      }

  -- What each status promises.
  pub data IsFaithful (input : ReconciliationInput F) (o : ReconciliationOutcome F) : Type 0 where
    blocked :
        d.le (d.max input.market_price nought) micro ≡ true
        → o.status ≡ "blocked"
        → o.blocked_reasons ≡ "missing_latest_price" ∷ []
        → o.incident ≡ none
        → IsUntouched input o
        → IsFaithful input o
    incident :
        (i : SimulatedIncident)
        → d.le (d.max input.market_price nought) micro ≡ false
        → simulated_incident input ≡ some i
        → o.status ≡ "incident"
        → o.blocked_reasons ≡ i.kind ∷ []
        → o.incident ≡ some i
        → IsUntouched input o
        → IsFaithful input o
    noop :
        d.le (d.max input.market_price nought) micro ≡ false
        → simulated_incident input ≡ none
        → legs_of input ≡ []
        → o.status ≡ "noop"
        → o.blocked_reasons ≡ []
        → o.incident ≡ none
        → IsUntouched input o
        → IsFaithful input o
    traded :
        d.le (d.max input.market_price nought) micro ≡ false
        → simulated_incident input ≡ none
        → legs_of input ≢ []
        → o.incident ≡ none
        → IsBooked input o
        → IsFaithful input o

  trade-IsFaithful :
      (input : ReconciliationInput F) (ls : List (OrderLeg F))
      → d.le (d.max input.market_price nought) micro ≡ false
      → simulated_incident input ≡ none
      → legs_of input ≡ ls
      → IsFaithful input (trade input ls)
  unfolding trade noop_outcome filled_outcome
  trade-IsFaithful input [] p n e =
      noop p n e refl refl refl
        (record { no_orders = refl; no_fills = refl; same_position = refl; no_profit = refl })
  trade-IsFaithful input (l ∷ ls) p n e =
      let some_legs = λ (none_left : legs_of input ≡ []). absurd (cc) in
      traded p n some_legs refl
        (subst (λ legs. IsBooked input (fill_all input legs)) e (booked input))

  unless_incident-IsFaithful :
      (input : ReconciliationInput F) (o : Option SimulatedIncident)
      → d.le (d.max input.market_price nought) micro ≡ false
      → simulated_incident input ≡ o
      → IsFaithful input (unless_incident input o)
  unfolding unless_incident incident_outcome
  unless_incident-IsFaithful input (some i) p e =
      incident i p e refl refl refl
        (record { no_orders = refl; no_fills = refl; same_position = refl; no_profit = refl })
  unless_incident-IsFaithful input none p e = trade-IsFaithful input (legs_of input) p e refl

  -- For every input: without a price the outcome is "blocked", whatever fault is set; else an incident
  -- is reported as such; else without legs it is a "noop"; and in these three nothing is ordered, filled
  -- or realized and the position is the normalized one. Else there are legs: each of them has its
  -- order, in their order, filled or not; the realized profit is that of the fills, added up; and the
  -- status is "submitted", with a partial fill open, where the fill of a leg is short of its quantity
  -- by more than the tolerance, and "reconciled" where that of none is.
  pub reconcile_simulated-IsFaithful :
      (input : ReconciliationInput F) → IsFaithful input (reconcile_simulated input)
  unfolding reconcile_simulated blocked_outcome
  reconcile_simulated-IsFaithful input =
      elim (Bool-cases (d.le (d.max input.market_price nought) micro)) [
        | inl p ↦ rw p (
            blocked p refl refl refl (record {
              no_orders = refl;
              no_fills = refl;
              same_position = refl;
              no_profit = refl;
            }))
        | inr p ↦ rw p (unless_incident-IsFaithful input _ p refl)
      ]
