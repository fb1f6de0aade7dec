-- ===== src/Automation/Simulator/Fills.antt =====
-- Where the digital broker of src/automation/simulator.rs leaves a position.
use stocks.Base.{
  ◌≡◌, refl, ◌∙◌, ap, ◌⊎◌, inl, inr, true, false, ◌||◌, List, [], ◌∷◌, none, arith, Bool-cases,
}
use stocks.Float.{F64, IsIeee, nought, one, micro, clamp}
use stocks.Automation.Policy.Types.{TargetSide, flat}
use stocks.Automation.Simulator.Legs.{
  SimulatedPosition, OrderLeg, side_eq, normalize_position, default_position, leg, build_legs,
  apply_leg, moved, decreased,
}
use stocks.Automation.Simulator.{
  Progress, simulated_incident, step, run, filled_outcome, noop_outcome, target_quantity, legs_of,
  fill_all, trade, unless_incident, reconcile_simulated,
}
use stocks.Automation.Simulator.Types.{ReconciliationInput}

side_eq-flat :
    (s t : TargetSide) → side_eq t flat ≡ false → side_eq s flat ≡ true → side_eq s t ≡ false
side_eq-flat s t h k = ground arith

side_eq_refl : (s : TargetSide) → side_eq s s ≡ true
side_eq_refl s = ground arith

module _ {F : Type 0} ⦃d : F64 F⦄ where
  abbrev pub price_of : ReconciliationInput F → F
  price_of input = d.max input.market_price nought

  abbrev pub fraction_of : ReconciliationInput F → F
  fraction_of input = clamp nought one input.config.fill_fraction

  abbrev pub current_of : ReconciliationInput F → SimulatedPosition F
  current_of input = normalize_position input.current_position

  -- The input has a price and no incident.
  abbrev pub IsTradable : ReconciliationInput F → Type 0
  IsTradable input = (d.le (price_of input) micro ≡ false) × (simulated_incident input ≡ none)

  reconcile_simulated-trade :
      (input : ReconciliationInput F)
      → IsTradable input
      → reconcile_simulated input ≡ trade input (legs_of input)
  unfolding reconcile_simulated unless_incident
  reconcile_simulated-trade input (p, n) = rw (p, n) refl

  trade-cons :
      (input : ReconciliationInput F) (ls : List (OrderLeg F)) (l : OrderLeg F)
      → trade input (l ∷ ls) ≡ fill_all input (l ∷ ls)
  unfolding trade
  trade-cons input ls l = refl

  -- The legs towards a side that is not held.
  build_legs-enter :
      (current : SimulatedPosition F) (side : TargetSide) (q : F)
      → side_eq side flat ≡ false
      → side_eq current.side side ≡ false
      → (build_legs current side q ≡ leg side (d.max q nought) "enter" ∷ [])
        ⊎ (build_legs current side q
            ≡ leg current.side current.quantity "exit" ∷ leg side (d.max q nought) "enter" ∷ [])
  unfolding build_legs
  build_legs-enter current side q h k = elim (Bool-cases (side_eq current.side flat)) [
    | inl e ↦ inl (rw (h, e) refl)
    | inr e ↦ inr (rw (h, e, k) refl)
  ]

  -- A leg "enter" of more than the tolerance sets the position.
  step-enter :
      (input : ReconciliationInput F) (f price : F) (side : TargetSide) (q : F) (p : Progress F)
      → d.lt micro (d.mul q f) ≡ true
      → (step input f price (leg side q "enter") p).position
        ≡ (record { side = side; quantity = d.max (d.mul q f) nought; avg_price = price })
  unfolding step apply_leg moved
  step-enter input f price side q p h = rw h refl

  fill_all-enter :
      (input : ReconciliationInput F) (ls : List (OrderLeg F)) (side : TargetSide) (q : F)
      → (ls ≡ leg side q "enter" ∷ []) ⊎ ((x : OrderLeg F) × (ls ≡ x ∷ leg side q "enter" ∷ []))
      → d.lt micro (d.mul q (fraction_of input)) ≡ true
      → (trade input ls).final_position ≡ (record {
        side = side;
        quantity = d.max (d.mul q (fraction_of input)) nought;
        avg_price = price_of input;
      })
  unfolding trade filled_outcome run
  fill_all-enter input ls side q (inl e) h =
      rw e (step-enter input (fraction_of input) (price_of input) side q _ h)
  fill_all-enter input ls side q (inr (x, e)) h =
      rw e (step-enter input (fraction_of input) (price_of input) side q _ h)

  -- A position in the side `side`, entered at the input's price.
  abbrev pub entered : ReconciliationInput F → F → SimulatedPosition F
  entered input quantity = record {
    side = input.target_side;
    quantity = quantity;
    avg_price = price_of input;
  }

  -- For every tradable input whose target side is neither flat nor held, and whose order to enter
  -- fills by more than the tolerance, the position afterwards is the filled part of the target alone:
  -- nothing is left of the former side, even where the order to exit it filled only in part.
  pub reconcile_simulated-enter :
      (input : ReconciliationInput F)
      → IsTradable input
      → side_eq input.target_side flat ≡ false
      → side_eq (current_of input).side input.target_side ≡ false
      → d.lt micro (d.mul (d.max (target_quantity input) nought) (fraction_of input)) ≡ true
      → (reconcile_simulated input).final_position
        ≡ entered input
            (d.max (d.mul (d.max (target_quantity input) nought) (fraction_of input)) nought)
  reconcile_simulated-enter input tradable h k l =
      ap (λ o. o.final_position) (reconcile_simulated-trade input tradable)
      ∙ fill_all-enter input (legs_of input) input.target_side
          (d.max (target_quantity input) nought)
          (legs (build_legs-enter (current_of input) input.target_side (target_quantity input) h k))
          l
    where
      legs :
          (legs_of input
              ≡ leg input.target_side (d.max (target_quantity input) nought) "enter" ∷ [])
            ⊎ (legs_of input
                ≡ leg (current_of input).side (current_of input).quantity "exit"
                  ∷ leg input.target_side (d.max (target_quantity input) nought) "enter"
                  ∷ [])
          → (legs_of input
              ≡ leg input.target_side (d.max (target_quantity input) nought) "enter" ∷ [])
            ⊎ ((x : OrderLeg F) × (legs_of input
                  ≡ x ∷ leg input.target_side (d.max (target_quantity input) nought) "enter" ∷ []))
      legs (inl e) = inl e
      legs (inr e) = inr (_, e)

  -- The legs towards flat.
  build_legs-exit :
      (current : SimulatedPosition F) (side : TargetSide) (q : F)
      → side_eq side flat ≡ true
      → (side_eq current.side flat ≡ true → build_legs current side q ≡ [])
        × (side_eq current.side flat ≡ false
            → build_legs current side q ≡ leg current.side current.quantity "exit" ∷ [])
  unfolding build_legs
  build_legs-exit current side q h = (λ e. rw (h, e) refl, λ e. rw (h, e) refl)

  trade-nil : (input : ReconciliationInput F) → (trade input []).final_position ≡ current_of input
  unfolding trade noop_outcome
  trade-nil input = refl

  normalize_position-flat :
      (p : SimulatedPosition F)
      → side_eq (normalize_position p).side flat ≡ true
      → normalize_position p ≡ default_position
  unfolding normalize_position
  normalize_position-flat p h = ground arith

module _ {F : Type 0} ⦃d : F64 F⦄ (ieee : IsIeee d) where
  -- A leg that fills whole is not partial.
  step_any_partial :
      (input : ReconciliationInput F) (f price : F) (l : OrderLeg F) (p : Progress F)
      → f ≡ one
      → (step input f price l p).any_partial ≡ p.any_partial
  unfolding step
  step_any_partial input f price l p e = elim (Bool-cases (d.lt micro (d.mul l.quantity f))) [
    | inl h ↦ rw h whole
    | inr h ↦ rw h whole
  ]
    where
      whole : (p.any_partial || d.lt (d.add (d.mul l.quantity f) micro) l.quantity) ≡ p.any_partial
      whole = rw (e, ieee.mul_one l.quantity, ieee.lt_add_micro l.quantity) (ground arith)

  run_any_partial :
      (input : ReconciliationInput F) (f price : F) (ls : List (OrderLeg F)) (p : Progress F)
      → f ≡ one
      → (run input f price ls p).any_partial ≡ p.any_partial
  unfolding run
  run_any_partial input f price [] p e = refl
  run_any_partial input f price (l ∷ ls) p e =
      run_any_partial input f price ls (step input f price l p) e
      ∙ step_any_partial input f price l p e

  -- Under full fills no trade stays open.
  trade_status :
      (input : ReconciliationInput F) (ls : List (OrderLeg F))
      → fraction_of input ≡ one
      → ((trade input ls).status ≡ "noop") ⊎ ((trade input ls).status ≡ "reconciled")
  unfolding trade filled_outcome noop_outcome
  trade_status input [] e = inl refl
  trade_status input (l ∷ ls) e =
      inr (rw (run_any_partial input (fraction_of input) (price_of input) (l ∷ ls) _ e) refl)

  -- Under IEEE arithmetic, for every tradable input that fills in full, whose target side is neither
  -- flat nor held and whose target quantity is above the tolerance, the position afterwards is the
  -- target: its side, its quantity and the market price.
  pub reconcile_simulated-full :
      (input : ReconciliationInput F)
      → IsTradable input
      → fraction_of input ≡ one
      → side_eq input.target_side flat ≡ false
      → side_eq (current_of input).side input.target_side ≡ false
      → d.lt micro (target_quantity input) ≡ true
      → (reconcile_simulated input).final_position ≡ entered input (target_quantity input)
  reconcile_simulated-full input tradable full h k l =
      reconcile_simulated-enter input tradable h k (rw filled l)
      ∙ ap (entered input) (ap (λ q. d.max q nought) filled ∙ positive)
    where
      positive : d.max (target_quantity input) nought ≡ target_quantity input
      positive = ieee.max_of_lt _ _ (
          ieee.lt_of_lt_of_le nought micro (target_quantity input) ieee.zero_lt_micro
            (ieee.le_of_lt _ _ l))

      filled :
          d.mul (d.max (target_quantity input) nought) (fraction_of input) ≡ target_quantity input
      filled = rw (full, positive) (ieee.mul_one (target_quantity input))

  -- An exit of the whole quantity leaves nothing.
  decreased-default :
      (position : SimulatedPosition F) (q : F)
      → q ≡ position.quantity
      → decreased position q ≡ default_position
  unfolding decreased
  decreased-default position q e =
      rw (e, ieee.min_self position.quantity, ieee.sub_self position.quantity) refl

  trade-exit :
      (input : ReconciliationInput F)
      → fraction_of input ≡ one
      → d.lt micro (current_of input).quantity ≡ true
      → (trade input
          (leg (current_of input).side (current_of input).quantity "exit" ∷ [])).final_position
        ≡ default_position
  unfolding trade filled_outcome run step apply_leg moved
  trade-exit input full l =
      rw (full, ieee.mul_one (current_of input).quantity, l, side_eq_refl (current_of input).side)
        (decreased-default (current_of input) _ (
          ieee.max_of_lt _ _ (
            ieee.lt_of_lt_of_le nought micro (current_of input).quantity ieee.zero_lt_micro
              (ieee.le_of_lt _ _ l))))

  -- Under IEEE arithmetic, for every tradable input that fills in full and whose target is flat, the
  -- position afterwards is flat where more than the tolerance was held.
  pub reconcile_simulated-exit :
      (input : ReconciliationInput F)
      → IsTradable input
      → fraction_of input ≡ one
      → side_eq input.target_side flat ≡ true
      → d.lt micro (current_of input).quantity ≡ true
      → (reconcile_simulated input).final_position ≡ default_position
  reconcile_simulated-exit input tradable full h l =
      let legs = build_legs-exit (current_of input) input.target_side (target_quantity input) h in
      ap (λ o. o.final_position) (reconcile_simulated-trade input tradable)
      ∙ elim (Bool-cases (side_eq (current_of input).side flat)) [
        | inl e ↦
            ap (λ ls. (trade input ls).final_position) (legs.0 e)
            ∙ trade-nil input
            ∙ normalize_position-flat input.current_position e
        | inr e ↦ ap (λ ls. (trade input ls).final_position) (legs.1 e) ∙ trade-exit input full l
      ]
