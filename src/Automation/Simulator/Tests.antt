-- ===== src/Automation/Simulator/Tests.antt =====
-- Runs of the digital broker: entering, flipping with a partial fill, and leaving a position.
use stocks.Base.{◌≡◌, refl, List, [], ◌∷◌, none}
use stocks.Base.Int.{pos}
use stocks.Float.Micros.{Micros, micros_f64, Micros-IsIeee}
use stocks.Automation.Policy.Types.{TargetSide, flat, long, short}
use stocks.Automation.Simulator.Legs.{OrderLeg, leg, default_position, normalize_position}
use stocks.Automation.Simulator.{
  reconcile_simulated, target_quantity, simulated_incident, is_stale, fault_incident,
}
use stocks.Automation.Simulator.Types.{SimulatedFault, SimulationConfig, ReconciliationInput}
use stocks.Automation.Simulator.Faults.{IsFaithful, reconcile_simulated-IsFaithful}
use stocks.Automation.Simulator.Fills.{
  IsTradable, entered, reconcile_simulated-enter, reconcile_simulated-full,
  reconcile_simulated-exit,
}

abbrev config : Micros → SimulatedFault → SimulationConfig Micros
config fraction fault = record {
  fill_fraction = fraction;
  fault = fault;
  bracket_stop_loss_pct = pos 80_000;
  bracket_take_profit_pct = pos 160_000;
  max_snapshot_age_secs = pos 120;
  broker_last_seen_at = none;
  prior_reject_count = 0;
}

-- Ten shares are held long at 40 dollars, and the price is 50 dollars.
abbrev input : TargetSide → Micros → SimulatedFault → ReconciliationInput Micros
input side fraction fault = record {
  desired_position_id = 1;
  proof_id = 2;
  sleeve_id = 3;
  symbol = "MU";
  environment_scope = "shadow";
  target_side = side;
  target_notional_usd = pos 400_000_000;
  market_price = pos 50_000_000;
  current_position = record { side = long; quantity = pos 10_000_000; avg_price = pos 40_000_000 };
  now = pos 0;
  config = config fraction fault;
}

abbrev half : Micros
half = pos 500_000

abbrev whole : Micros
whole = pos 1_000_000

no_incident :
    (side : TargetSide) (fraction : Micros)
    → simulated_incident (input side fraction SimulatedFault.no_fault) ≡ none
unfolding simulated_incident is_stale fault_incident
no_incident side fraction = refl

tradable :
    (side : TargetSide) (fraction : Micros)
    → IsTradable (input side fraction SimulatedFault.no_fault)
tradable side fraction = (refl, no_incident side fraction)

reconcile_simulated-IsFaithful_example :
    IsFaithful
      (input short whole SimulatedFault.reject)
      (reconcile_simulated (input short whole SimulatedFault.reject))
reconcile_simulated-IsFaithful_example =
    reconcile_simulated-IsFaithful (input short whole SimulatedFault.reject)

-- Half of a flip from ten long to eight short: four short are left, and no share is long.
reconcile_simulated-enter_example :
    (reconcile_simulated (input short half SimulatedFault.no_fault)).final_position
    ≡ entered (input short half SimulatedFault.no_fault) (pos 4_000_000)
unfolding target_quantity normalize_position
reconcile_simulated-enter_example =
    reconcile_simulated-enter (input short half SimulatedFault.no_fault) (tradable short half) refl
      refl refl

reconcile_simulated-full_example :
    (reconcile_simulated (input short whole SimulatedFault.no_fault)).final_position
    ≡ entered (input short whole SimulatedFault.no_fault) (pos 8_000_000)
unfolding target_quantity normalize_position
reconcile_simulated-full_example =
    reconcile_simulated-full Micros-IsIeee (input short whole SimulatedFault.no_fault)
      (tradable short whole) refl refl refl refl

reconcile_simulated-exit_example :
    (reconcile_simulated (input flat whole SimulatedFault.no_fault)).final_position
    ≡ default_position
unfolding normalize_position
reconcile_simulated-exit_example =
    reconcile_simulated-exit Micros-IsIeee (input flat whole SimulatedFault.no_fault)
      (tradable flat whole) refl refl refl

abbrev legs : List (OrderLeg Micros)
legs = leg long (pos 10_000_000) "exit" ∷ leg short (pos 8_000_000) "enter" ∷ []

abbrev flip : ReconciliationInput Micros
flip = input short half SimulatedFault.no_fault
