-- ===== src/Automation/Simulator/Orders.antt =====
-- The orders of the digital broker of src/automation/simulator.rs.
use stocks.Base.{
  ℕ, suc, ◌+◌, ◌≡◌, refl, sym, ◌∙◌, inl, inr, List, [], ◌∷◌, ◌++◌, arith, length, length-append,
  append_nil, append_assoc, Bool-cases, map, any, ◌||◌,
}
use stocks.Float.{F64, micro, sum, sum_from}
use stocks.Automation.Simulator.Legs.{OrderLeg, SimulatedFill}
use stocks.Automation.Simulator.{Progress, order, step, run}
use stocks.Automation.Simulator.Types.{ReconciliationInput, Order}

module _ {F : Type 0} ⦃d : F64 F⦄ where
  -- The order of each leg, numbered from `idx`.
  abbrev pub orders_from : ReconciliationInput F → F → ℕ → List (OrderLeg F) → List (Order F)
  orders_from input fraction idx [] = []
  orders_from input fraction idx (l ∷ ls) =
      order input l (d.mul l.quantity fraction) idx ∷ orders_from input fraction (suc idx) ls

  step_orders :
      (input : ReconciliationInput F) (f price : F) (l : OrderLeg F) (p : Progress F)
      → (step input f price l p).orders
        ≡ p.orders ++ (order input l (d.mul l.quantity f) (length p.orders) ∷ [])
  unfolding step
  step_orders input f price l p = elim (Bool-cases (d.lt micro (d.mul l.quantity f))) [
    | inl h ↦ rw h refl
    | inr h ↦ rw h refl
  ]

  -- For every list of legs and state of the loop, the loop appends one order for each leg, in order,
  -- numbered on from the orders before; whether a leg fills does not matter.
  pub run_orders :
      (input : ReconciliationInput F) (f price : F) (ls : List (OrderLeg F)) (p : Progress F)
      → (run input f price ls p).orders ≡ p.orders ++ orders_from input f (length p.orders) ls
  unfolding run
  run_orders input f price [] p = sym (append_nil p.orders)
  run_orders input f price (l ∷ ls) p =
      run_orders input f price ls (step input f price l p)
      ∙ rw (step_orders input f price l p, length-append, count (length p.orders))
          (append_assoc p.orders _ _)
    where
      count : (n : ℕ) → n + 1 ≡ suc n
      count n = omega arith

  abbrev profits : List (SimulatedFill F) → List F
  profits fills = map (λ (f : SimulatedFill F). f.realized_pnl_delta) fills

  sum_from-append :
      (acc : F) (fill : SimulatedFill F) (fills : List (SimulatedFill F))
      → sum_from acc (profits (fills ++ (fill ∷ [])))
        ≡ d.add (sum_from acc (profits fills)) fill.realized_pnl_delta
  sum_from-append acc fill [] = refl
  sum_from-append acc fill (x ∷ fills) = sum_from-append (d.add acc x.realized_pnl_delta) fill fills

  -- The profit of the loop is that of its fills.
  abbrev HasProfit : Progress F → Type 0
  HasProfit p = p.realized_pnl_delta ≡ sum (profits p.fills)

  step_profit :
      (input : ReconciliationInput F) (f price : F) (l : OrderLeg F) (p : Progress F)
      → HasProfit p
      → HasProfit (step input f price l p)
  unfolding step
  step_profit input f price l p e = elim (Bool-cases (d.lt micro (d.mul l.quantity f))) [
    | inl h ↦ rw (h, sum_from-append, ← e) refl
    | inr h ↦ rw h e
  ]

  pub run_profit :
      (input : ReconciliationInput F) (f price : F) (ls : List (OrderLeg F)) (p : Progress F)
      → HasProfit p
      → HasProfit (run input f price ls p)
  unfolding run
  run_profit input f price [] p e = e
  run_profit input f price (l ∷ ls) p e =
      run_profit input f price ls (step input f price l p) (step_profit input f price l p e)

  step_partial :
      (input : ReconciliationInput F) (f price : F) (l : OrderLeg F) (p : Progress F)
      → (step input f price l p).any_partial
        ≡ (p.any_partial || d.lt (d.add (d.mul l.quantity f) micro) l.quantity)
  unfolding step
  step_partial input f price l p = elim (Bool-cases (d.lt micro (d.mul l.quantity f))) [
    | inl h ↦ rw h refl
    | inr h ↦ rw h refl
  ]

  pub run_partial :
      (input : ReconciliationInput F) (f price : F) (ls : List (OrderLeg F)) (p : Progress F)
      → (run input f price ls p).any_partial
        ≡ (p.any_partial || any (λ l. d.lt (d.add (d.mul l.quantity f) micro) l.quantity) ls)
  unfolding run
  run_partial input f price [] p = ground arith
  run_partial input f price (l ∷ ls) p =
      ground (
        arith,
        run_partial input f price ls (step input f price l p),
        step_partial input f price l p,
      )
