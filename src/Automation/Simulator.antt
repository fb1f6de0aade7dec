-- ===== src/Automation/Simulator.antt =====
-- src/automation/simulator.rs, second part: the digital broker. One reconciliation reads a desired
-- position, a held position and the configured faults, and gives fills, orders and the position
-- afterwards. Left out: the snapshots, which repeat these values in JSON, the idempotency key and
-- the incident's detail text.
pub mod Types
pub mod Legs
pub mod Faults
pub mod Fills
pub mod Orders
mod Tests
use stocks.Base.{
  ℕ, Bool, true, false, not, ◌&&◌, ◌||◌, List, [], ◌∷◌, ◌++◌, Option, none, some, String, str_eq,
  if◌then◌else◌, length, is_empty, ltb,
}
use stocks.Base.Int.{ℤ, pos, ltb_ℤ, max_ℤ}
use stocks.Float.{F64, nought, one, micro, clamp}
use stocks.Time.{DateTime, since, num_seconds}
use stocks.Automation.Allocator.{Uuid}
use stocks.Automation.Policy.Types.{TargetSide, flat, long, short}
use stocks.Automation.Simulator.Legs.{
  SimulatedPosition, OrderLeg, SimulatedFill, side_eq, normalize_position, build_legs, apply_leg,
  order_action, round_cents, unrealized_pnl,
}
use stocks.Automation.Simulator.Types.{
  SimulatedFault, SimulationConfig, SimulatedIncident, ReconciliationInput, Bracket, Order,
  ReconciliationOutcome, no_fault, reject, disconnect, stale_snapshot, unknown_order_status,
}

abbrev pub stale_incident : SimulatedIncident
stale_incident = record {
  severity = "warning";
  kind = "stale_broker_data";
  title = "Simulated broker snapshot is stale";
}

abbrev pub reject_incident : Bool → SimulatedIncident
reject_incident repeated = record {
  severity = if repeated then "critical" else "warning";
  kind = if repeated then "repeated_order_reject" else "order_rejected";
  title = if repeated then "Repeated simulated order reject" else "Simulated order rejected";
}

-- The match on the configured fault.
unfoldable pub fault_incident : SimulatedFault → ℕ → Option SimulatedIncident
fault_incident no_fault prior = none
fault_incident stale_snapshot prior = some stale_incident
fault_incident reject prior = some (reject_incident (ltb 0 prior))
fault_incident disconnect prior = some (record {
  severity = "critical";
  kind = "broker_disconnect";
  title = "Simulated broker disconnected";
})
fault_incident unknown_order_status prior = some (record {
  severity = "warning";
  kind = "unknown_order_status";
  title = "Simulated order status unknown";
})

-- The broker was seen, and longer ago than allowed.
unfoldable pub is_stale : Option DateTime → DateTime → ℤ → Bool
is_stale none now max_age = false
is_stale (some seen_at) now max_age =
    ltb_ℤ (max_ℤ max_age (pos 0)) (num_seconds (since now seen_at))

abbrev pub open_status : Bool → String
open_status any_partial = if any_partial then "submitted" else "reconciled"

abbrev pub open_reasons : Bool → List String
open_reasons any_partial = if any_partial then "partial_fill_open" ∷ [] else []

module _ {F : Type 0} ⦃d : F64 F⦄ where
  unfoldable pub simulated_incident : ReconciliationInput F → Option SimulatedIncident
  simulated_incident input =
      let config = input.config in
      if is_stale config.broker_last_seen_at input.now config.max_snapshot_age_secs
      then some stale_incident
      else fault_incident config.fault config.prior_reject_count

  abbrev pub bracket_prices : TargetSide → F → F → F → F × F
  bracket_prices long price stop_pct target_pct =
      (d.mul price (d.sub one stop_pct), d.mul price (d.add one target_pct))
  bracket_prices short price stop_pct target_pct =
      (d.mul price (d.add one stop_pct), d.mul price (d.sub one target_pct))
  bracket_prices flat price stop_pct target_pct = (price, price)

  unfoldable pub bracket : ReconciliationInput F → OrderLeg F → Option (Bracket F)
  bracket input l =
      if not (str_eq l.kind "enter" || str_eq l.kind "increase")
      then none
      else let prices =
          bracket_prices l.side input.market_price (d.max input.config.bracket_stop_loss_pct nought)
            (d.max input.config.bracket_take_profit_pct nought) in
        some
          (record { stop_price = round_cents prices.0; take_profit_price = round_cents prices.1 })

  unfoldable pub order : ReconciliationInput F → OrderLeg F → F → ℕ → Order F
  order input l filled_quantity idx = record {
    client_order_id = (input.desired_position_id, idx);
    action = order_action l;
    position_side = l.side;
    leg_kind = l.kind;
    quantity = l.quantity;
    filled_quantity = filled_quantity;
    price = input.market_price;
    status = if d.le l.quantity (d.add filled_quantity micro) then "filled" else "partially_filled";
    bracket = bracket input l;
  }

-- The variables of the loop over the legs.
pub record Progress (F : Type 0) : Type 0 where
  pub position : SimulatedPosition F
  pub fills : List (SimulatedFill F)
  pub orders : List (Order F)
  pub realized_pnl_delta : F
  pub any_partial : Bool

module _ {F : Type 0} ⦃d : F64 F⦄ where
  abbrev pub start : SimulatedPosition F → Progress F
  start current = record {
    position = current;
    fills = [];
    orders = [];
    realized_pnl_delta = nought;
    any_partial = false;
  }

  -- One pass of the loop, in which the index is the number of orders so far.
  unfoldable pub step : ReconciliationInput F → F → F → OrderLeg F → Progress F → Progress F
  step input fraction market_price l p =
      let fill_quantity = d.mul l.quantity fraction in
      let partial = d.lt (d.add fill_quantity micro) l.quantity in
      let orders = p.orders ++ (order input l fill_quantity (length p.orders) ∷ []) in
      let filled = apply_leg p.position l fill_quantity market_price in
      if d.lt micro fill_quantity
      then record {
        position = filled.0;
        fills = p.fills ++ (filled.1 ∷ []);
        orders = orders;
        realized_pnl_delta = d.add p.realized_pnl_delta filled.1.realized_pnl_delta;
        any_partial = p.any_partial || partial;
      }
      else record p { orders = orders; any_partial = p.any_partial || partial }

  unfoldable pub run : ReconciliationInput F → F → F → List (OrderLeg F) → Progress F → Progress F
  run input fraction market_price [] p = p
  run input fraction market_price (l ∷ ls) p =
      run input fraction market_price ls (step input fraction market_price l p)

  unfoldable pub incident_outcome :
      ReconciliationInput F → SimulatedIncident → ReconciliationOutcome F
  incident_outcome input incident = record {
    status = "incident";
    orders = [];
    blocked_reasons = incident.kind ∷ [];
    fills = [];
    final_position = normalize_position input.current_position;
    realized_pnl_delta = nought;
    unrealized_pnl = unrealized_pnl (normalize_position input.current_position) input.market_price;
    incident = some incident;
  }

  unfoldable pub blocked_outcome : ReconciliationInput F → String → ReconciliationOutcome F
  blocked_outcome input reason = record {
    status = "blocked";
    orders = [];
    blocked_reasons = reason ∷ [];
    fills = [];
    final_position = normalize_position input.current_position;
    realized_pnl_delta = nought;
    unrealized_pnl = nought;
    incident = none;
  }

  unfoldable pub noop_outcome : SimulatedPosition F → F → ReconciliationOutcome F
  noop_outcome current market_price = record {
    status = "noop";
    orders = [];
    blocked_reasons = [];
    fills = [];
    final_position = current;
    realized_pnl_delta = nought;
    unrealized_pnl = unrealized_pnl current market_price;
    incident = none;
  }

  unfoldable pub filled_outcome : Progress F → F → ReconciliationOutcome F
  filled_outcome p market_price = record {
    status = open_status p.any_partial;
    orders = p.orders;
    blocked_reasons = open_reasons p.any_partial;
    fills = p.fills;
    final_position = p.position;
    realized_pnl_delta = p.realized_pnl_delta;
    unrealized_pnl = unrealized_pnl p.position market_price;
    incident = none;
  }

  unfoldable pub target_quantity : ReconciliationInput F → F
  target_quantity input =
      let market_price = d.max input.market_price nought in
      if side_eq input.target_side flat || d.le market_price micro
      then nought
      else d.div (d.max input.target_notional_usd nought) market_price

  -- The legs of an input, from the normalized position.
  abbrev pub legs_of : ReconciliationInput F → List (OrderLeg F)
  legs_of input =
      build_legs (normalize_position input.current_position) input.target_side
        (target_quantity input)

  -- The branch with legs to fill.
  abbrev pub fill_all : ReconciliationInput F → List (OrderLeg F) → ReconciliationOutcome F
  fill_all input legs =
      let market_price = d.max input.market_price nought in
      filled_outcome
        (run input (clamp nought one input.config.fill_fraction) market_price legs
          (start (normalize_position input.current_position)))
        market_price

  unfoldable pub trade : ReconciliationInput F → List (OrderLeg F) → ReconciliationOutcome F
  trade input legs =
      if is_empty legs
      then noop_outcome (normalize_position input.current_position)
          (d.max input.market_price nought)
      else fill_all input legs

  unfoldable pub unless_incident :
      ReconciliationInput F → Option SimulatedIncident → ReconciliationOutcome F
  unless_incident input (some incident) = incident_outcome input incident
  unless_incident input none = trade input (legs_of input)

  unfoldable pub reconcile_simulated : ReconciliationInput F → ReconciliationOutcome F
  reconcile_simulated input =
      if d.le (d.max input.market_price nought) micro
      then blocked_outcome input "missing_latest_price"
      else unless_incident input (simulated_incident input)
