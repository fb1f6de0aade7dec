-- ===== src/Automation/Runner/Gate.antt =====
-- What a policy proof that src/automation/mod.rs assembles guarantees of risk and capital.
use mathlib.Core.Bool.{false≢true}
use stocks.Base.{
  ◌≡◌, ◌≢◌, sym, ◌∙◌, ap, ◌⊎◌, inl, inr, Bool, true, false, not, List, [], String, is_empty,
  is_empty_iff,
}
use stocks.Float.{F64}
use stocks.Automation.Allocator.{
  AllocationLimits, AllocationRequest, SleeveAllocation, evaluate_allocation,
}
use stocks.Automation.Policy.{evaluate_proof_policy}
use stocks.Automation.Policy.Types.{StrategyDecision, TradePermissionInput, ProofPolicyInput}
use stocks.Automation.Policy.Clear.{evaluate_proof_policy-IsClear_iff}
use stocks.Automation.Runner.{
  RiskConfig, config, config_invalid, config_unavailable, StoreReads, portfolio_of, allocation,
  intent_of, risk_state, risk_policy_state, capital_policy_state, risk_and_capital_policy_state,
}
use stocks.Risk.{evaluate}
use stocks.Risk.Veto.{IsOverLimit, evaluate-veto_iff}

quiet_veto :
    (veto : Bool) (reasons : List String)
    → veto ≡ not (is_empty reasons)
    → (veto ≡ false) ⊎ (reasons ≡ [])
    → veto ≡ false
quiet_veto veto reasons h (inl e) = e
quiet_veto veto reasons h (inr e) = h ∙ ap (λ rs. not (is_empty rs)) e

module _ {F : Type 0} ⦃d : F64 F⦄ where
  allowed_of_no_reasons :
      (request : AllocationRequest F) (sleeves : List (SleeveAllocation F))
      (limits : AllocationLimits F)
      → (evaluate_allocation request sleeves limits).blocked_reasons ≡ []
      → (evaluate_allocation request sleeves limits).allowed ≡ true
  unfolding evaluate_allocation
  allowed_of_no_reasons request sleeves limits h = (is_empty_iff _).1 h

  -- The overlay was asked, and no hard limit is exceeded.
  abbrev pub IsWithinLimits :
      StoreReads F → TradePermissionInput F → StrategyDecision F → RiskConfig F → Type 0
  IsWithinLimits reads permission decision (config cfg) =
      ¬ IsOverLimit (intent_of reads permission decision) reads.positions (portfolio_of reads).0 cfg
  IsWithinLimits reads permission decision _ = ⊥

  within_limits :
      (reads : StoreReads F) (permission : TradePermissionInput F) (decision : StrategyDecision F)
      (c : RiskConfig F)
      → let risk = risk_policy_state reads permission decision c in
        (risk.veto ≡ false) ⊎ (risk.reasons ≡ []) → IsWithinLimits reads permission decision c
  unfolding risk_policy_state risk_state
  within_limits reads permission decision config_invalid (inl h) = false≢true (sym h)
  within_limits reads permission decision config_invalid (inr h) = cc
  within_limits reads permission decision config_unavailable (inl h) = false≢true (sym h)
  within_limits reads permission decision config_unavailable (inr h) = cc
  within_limits reads permission decision (config cfg) h =
      let intent = intent_of reads permission decision in
      let port = (portfolio_of reads).0 in
      let (agrees, veto) = evaluate-veto_iff intent reads.positions port cfg in
      λ over. false≢true (
        sym (
          quiet_veto (evaluate intent reads.positions port cfg).veto
            (evaluate intent reads.positions port cfg).reasons agrees h)
        ∙ veto.1 over)

  -- For every policy input whose risk and capital states are those that the runner assembles from the
  -- store: if the proof is not "blocked", the risk configuration was readable, no hard limit of the
  -- overlay is exceeded by the intent, and the allocator allows the request.
  pub evaluate_proof_policy-assembled :
      (input : ProofPolicyInput F) (reads : StoreReads F) (permission : TradePermissionInput F)
      → (input.risk, input.capital) ≡ risk_and_capital_policy_state reads permission input.decision
      → (evaluate_proof_policy input).result ≢ "blocked"
      → IsWithinLimits reads permission input.decision reads.risk_config
        × ((allocation reads permission input.decision).allowed ≡ true)
  unfolding risk_and_capital_policy_state capital_policy_state allocation
  evaluate_proof_policy-assembled input reads permission e h =
      let clear = (evaluate_proof_policy-IsClear_iff input).0 h in
      let risk = ap (λ p. p.0) e in
      let capital = ap (λ p. p.1) e in
      (
        within_limits reads permission input.decision reads.risk_config (rw risk at clear.no_veto),
        allowed_of_no_reasons _ reads.sleeve_allocations reads.allocation_limits
            (sym (ap (λ c. c.allocator_blocked_reasons) capital) ∙ clear.allocated),
      )
