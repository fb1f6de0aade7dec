-- ===== src/Automation/Simulator/Types.antt =====
-- The records of src/automation/simulator.rs that go in and out of a reconciliation.
use stocks.Base.{ℕ, Option, List, String}
use stocks.Base.Int.{ℤ}
use stocks.Time.{DateTime}
use stocks.Automation.Allocator.{Uuid}
use stocks.Automation.Policy.Types.{TargetSide}
use stocks.Automation.Simulator.Legs.{SimulatedPosition, SimulatedFill}

pub data SimulatedFault : Type 0 where
  no_fault reject disconnect stale_snapshot unknown_order_status : SimulatedFault

pub record SimulationConfig (F : Type 0) : Type 0 where
  pub fill_fraction : F
  pub fault : SimulatedFault
  pub bracket_stop_loss_pct : F
  pub bracket_take_profit_pct : F
  pub max_snapshot_age_secs : ℤ
  pub broker_last_seen_at : Option DateTime
  pub prior_reject_count : ℕ

pub record SimulatedIncident : Type 0 where
  pub severity : String
  pub kind : String
  pub title : String

pub record ReconciliationInput (F : Type 0) : Type 0 where
  pub desired_position_id : Uuid
  pub proof_id : Uuid
  pub sleeve_id : Uuid
  pub symbol : String
  pub environment_scope : String
  pub target_side : TargetSide
  pub target_notional_usd : F
  pub market_price : F
  pub current_position : SimulatedPosition F
  pub now : DateTime
  pub config : SimulationConfig F

-- `bracket_json`.
pub record Bracket (F : Type 0) : Type 0 where
  pub stop_price : F
  pub take_profit_price : F

-- `order_json`; the client order id is the pair of its two parts.
pub record Order (F : Type 0) : Type 0 where
  pub client_order_id : Uuid × ℕ
  pub action : String
  pub position_side : TargetSide
  pub leg_kind : String
  pub quantity : F
  pub filled_quantity : F
  pub price : F
  pub status : String
  pub bracket : Option (Bracket F)

pub record ReconciliationOutcome (F : Type 0) : Type 0 where
  pub status : String
  pub orders : List (Order F)
  pub blocked_reasons : List String
  pub fills : List (SimulatedFill F)
  pub final_position : SimulatedPosition F
  pub realized_pnl_delta : F
  pub unrealized_pnl : F
  pub incident : Option SimulatedIncident
