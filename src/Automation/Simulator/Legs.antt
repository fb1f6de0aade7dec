-- ===== src/Automation/Simulator/Legs.antt =====
-- src/automation/simulator.rs, first part: positions, the legs of an order, and filling one leg.
use stocks.Base.{Bool, true, false, ◌&&◌, ◌||◌, List, [], ◌∷◌, String, str_eq, if◌then◌else◌}
use stocks.Float.{F64, nought, micro}
use stocks.Automation.Policy.Types.{TargetSide, flat, long, short}

-- Equality of sides.
abbrev pub side_eq : TargetSide → TargetSide → Bool
side_eq flat flat = true
side_eq long long = true
side_eq short short = true
side_eq _ _ = false

pub record SimulatedPosition (F : Type 0) : Type 0 where
  pub side : TargetSide
  pub quantity : F
  pub avg_price : F

pub record OrderLeg (F : Type 0) : Type 0 where
  pub side : TargetSide
  pub quantity : F
  pub kind : String

pub record SimulatedFill (F : Type 0) : Type 0 where
  pub side : TargetSide
  pub quantity : F
  pub price : F
  pub notional_usd : F
  pub realized_pnl_delta : F
  pub leg_kind : String

module _ {F : Type 0} ⦃d : F64 F⦄ where
  abbrev pub default_position : SimulatedPosition F
  default_position = record { side = flat; quantity = nought; avg_price = nought }

  unfoldable pub normalize_position : SimulatedPosition F → SimulatedPosition F
  normalize_position position =
      if side_eq position.side flat || d.le position.quantity micro || d.le position.avg_price micro
      then default_position
      else record {
        side = position.side;
        quantity = d.max position.quantity nought;
        avg_price = d.max position.avg_price nought;
      }

  abbrev pub leg : TargetSide → F → String → OrderLeg F
  leg side quantity kind = record { side = side; quantity = quantity; kind = kind }

  unfoldable pub build_legs : SimulatedPosition F → TargetSide → F → List (OrderLeg F)
  build_legs current target_side target =
      let target_quantity = d.max target nought in
      if side_eq target_side flat
      then if side_eq current.side flat then [] else leg current.side current.quantity "exit" ∷ []
      else if side_eq current.side flat
      then leg target_side target_quantity "enter" ∷ []
      else if side_eq current.side target_side
      then if d.le (d.abs (d.sub current.quantity target_quantity)) micro
        then []
        else if d.lt current.quantity target_quantity
        then leg target_side (d.sub target_quantity current.quantity) "increase" ∷ []
        else leg target_side (d.sub current.quantity target_quantity) "reduce" ∷ []
      else leg current.side current.quantity "exit" ∷ leg target_side target_quantity "enter" ∷ []

  unfoldable pub realized_pnl : TargetSide → F → F → F → F
  realized_pnl long quantity avg_price fill_price = d.mul (d.sub fill_price avg_price) quantity
  realized_pnl short quantity avg_price fill_price = d.mul (d.sub avg_price fill_price) quantity
  realized_pnl flat quantity avg_price fill_price = nought

  unfoldable pub unrealized_pnl : SimulatedPosition F → F → F
  unrealized_pnl position market_price = realized_pnl_of position.side
    where
      realized_pnl_of : TargetSide → F
      realized_pnl_of long = d.mul (d.sub market_price position.avg_price) position.quantity
      realized_pnl_of short = d.mul (d.sub position.avg_price market_price) position.quantity
      realized_pnl_of flat = nought

  unfoldable pub signed_quantity : TargetSide → F → F
  signed_quantity long quantity = quantity
  signed_quantity short quantity = d.neg quantity
  signed_quantity flat quantity = nought

  -- The arm "increase" of `apply_leg`.
  unfoldable pub increased : SimulatedPosition F → F → F → SimulatedPosition F
  increased position fill_quantity market_price =
      let new_qty = d.add position.quantity fill_quantity in
      record position {
        quantity = new_qty;
        avg_price =
            if d.le new_qty micro
            then nought
            else d.div
                (d.add (d.mul position.quantity position.avg_price)
                  (d.mul fill_quantity market_price))
                new_qty;
      }

  abbrev pub closed_qty : SimulatedPosition F → F → F
  closed_qty position fill_quantity = d.min fill_quantity position.quantity

  -- The arm "reduce" | "exit" of `apply_leg`.
  unfoldable pub decreased : SimulatedPosition F → F → SimulatedPosition F
  decreased position fill_quantity =
      let remaining = d.max (d.sub position.quantity (closed_qty position fill_quantity)) nought in
      if d.le remaining micro then default_position else record position { quantity = remaining }

  -- The position afterwards and the realized profit.
  unfoldable pub moved : SimulatedPosition F → OrderLeg F → F → F → SimulatedPosition F × F
  moved position l fill_quantity market_price =
      if str_eq l.kind "enter"
      then (record { side = l.side; quantity = fill_quantity; avg_price = market_price }, nought)
      else if str_eq l.kind "increase" && side_eq position.side l.side
      then (increased position fill_quantity market_price, nought)
      else if (str_eq l.kind "reduce" || str_eq l.kind "exit") && side_eq position.side l.side
      then (
        decreased position fill_quantity,
        realized_pnl position.side (closed_qty position fill_quantity) position.avg_price
            market_price,
      )
      else (position, nought)

  unfoldable pub apply_leg :
      SimulatedPosition F → OrderLeg F → F → F → SimulatedPosition F × SimulatedFill F
  apply_leg position l fill market_price =
      let fill_quantity = d.max fill nought in
      let after = moved position l fill_quantity market_price in
      (
        after.0,
        record {
          side = l.side;
          quantity = fill_quantity;
          price = market_price;
          notional_usd = d.mul fill_quantity market_price;
          realized_pnl_delta = after.1;
          leg_kind = l.kind;
        },
      )

  unfoldable pub order_action : OrderLeg F → String
  order_action l =
      let opens = str_eq l.kind "enter" || str_eq l.kind "increase" in
      let closes = str_eq l.kind "reduce" || str_eq l.kind "exit" in
      if side_eq l.side long && opens
      then "buy"
      else if side_eq l.side long && closes
      then "sell"
      else if side_eq l.side short && opens
      then "sell_short"
      else if side_eq l.side short && closes
      then "buy_to_cover"
      else "none"

  unfoldable pub round_cents : F → F
  round_cents value = d.div (d.round (d.mul value (d.lit 100 0))) (d.lit 100 0)
