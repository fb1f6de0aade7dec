-- ===== src/Automation/Runner/Pass/Safe.antt =====
-- What an emitted position of src/automation/mod.rs has behind it.
use stocks.Base.{◌≡◌, ◌≢◌, refl, true, false, Option, none, some, eq_iff, str_eq}
use stocks.Float.{F64}
use stocks.Automation.Policy.{evaluate_proof_policy}
use stocks.Automation.Policy.Types.{StrategyDecision, ProofPolicyDecision, SessionPolicyState}
use stocks.Automation.Policy.Clear.{evaluate_proof_policy-IsClear_iff}
use stocks.Automation.Strategy.{evaluate_strategy}
use stocks.Automation.Strategy.Types.{SerdeJson, SerdeFloat}
use stocks.Automation.MarketReadiness.Fit.{IsFit}
use stocks.Automation.Runner.{allocation}
use stocks.Automation.Runner.Gate.{IsWithinLimits, evaluate_proof_policy-assembled}
use stocks.Automation.Runner.Session.{session_policy_state, IsOpenAt}
use stocks.Automation.Runner.Freshness.{SerdeBool, readiness_input, evaluate_proof_policy-IsFit}
use stocks.Automation.Runner.Pass.Types.{
  Chrono, AutomationStrategyCandidate, CandidateReads, DesiredPositionWrite, BlockedProofWrite,
  emitted, refused,
}
use stocks.Automation.Runner.Pass.{
  evaluation_input, run_candidate, outcome, proof_policy_input, proof_input_of, proof_input_in,
  proved,
}

refused_not_emitted :
    {F : Type 0} (refusal : BlockedProofWrite) (write : DesiredPositionWrite F)
    → refused refusal ≢ emitted write
refused_not_emitted refusal write e = cc

module _ {V F : Type 0} ⦃d : F64 F⦄ ⦃j : SerdeJson V⦄ ⦃f : SerdeFloat V F⦄ ⦃b : SerdeBool V⦄
    (chrono : Chrono) where
  -- What has been checked when a position is emitted, in the session of the moment.
  pub record IsCheckedIn (candidate : AutomationStrategyCandidate V F) (reads : CandidateReads F)
      (session : SessionPolicyState) : Type 0 where
    pub opened : IsOpenAt chrono.dates (chrono.day_of reads.now) (chrono.second_of reads.now)
    pub fit : IsFit (
        readiness_input chrono.parse_time chrono.time_of (evaluation_input candidate reads) session)
    pub within :
        IsWithinLimits reads.portfolio candidate.permission
          (evaluate_strategy (evaluation_input candidate reads))
          reads.portfolio.risk_config
    pub allocated :
        (allocation reads.portfolio candidate.permission
          (evaluate_strategy (evaluation_input candidate reads))).allowed
        ≡ true
    pub switched_on : reads.control.kill_switch_enabled ≡ false
    pub approved : candidate.permission.status ≡ "approved"

  not_blocked :
      (candidate : AutomationStrategyCandidate V F) (decision : StrategyDecision F)
      (proof : ProofPolicyDecision) (write : DesiredPositionWrite F)
      → outcome candidate decision proof ≡ emitted write
      → proof.result ≢ "blocked"
  unfolding outcome
  not_blocked candidate decision proof write e h =
      let same : str_eq proof.result "blocked" ≡ true = (eq_iff proof.result "blocked").1 h in
      refused_not_emitted _ write (rw same at e)

  checked_in :
      (candidate : AutomationStrategyCandidate V F) (reads : CandidateReads F)
      (write : DesiredPositionWrite F) (session : Option SessionPolicyState)
      → session_policy_state chrono.dates (chrono.day_of reads.now) (chrono.second_of reads.now)
        ≡ session
      → let input = evaluation_input candidate reads in
        let decision = evaluate_strategy input in
        proved candidate decision (proof_input_in chrono candidate reads input decision session)
          ≡ emitted write
        → (session : SessionPolicyState) × IsCheckedIn candidate reads session
  checked_in candidate reads write none s e = cc
  checked_in candidate reads write (some session) s e =
      let input = evaluation_input candidate reads in
      let decision = evaluate_strategy input in
      let proof_input = proof_input_of chrono candidate reads input decision session in
      let passes = not_blocked candidate decision (evaluate_proof_policy proof_input) write e in
      let clear = (evaluate_proof_policy-IsClear_iff proof_input).0 passes in
      let (opened, fit) =
        evaluate_proof_policy-IsFit chrono.parse_time chrono.time_of chrono.dates chrono.day_of
          chrono.second_of proof_input input s refl passes in
      let (within, allocated) =
        evaluate_proof_policy-assembled proof_input reads.portfolio candidate.permission refl
          passes in
      (
        session,
        record {
          opened = opened;
          fit = fit;
          within = within;
          allocated = allocated;
          switched_on = clear.switched_on;
          approved = clear.permitted.approved;
        },
      )

  -- A candidate from which a position is emitted was checked at that moment: the instant lies in the
  -- regular hours of a session day, the market data is fit, the risk configuration was readable and
  -- no hard limit of the overlay is exceeded, the allocator allows the request, the kill switch is
  -- off and the permission is approved.
  pub run_candidate-IsCheckedIn :
      (candidate : AutomationStrategyCandidate V F) (reads : CandidateReads F)
      (write : DesiredPositionWrite F)
      → run_candidate chrono candidate reads ≡ emitted write
      → (session : SessionPolicyState) × IsCheckedIn candidate reads session
  unfolding run_candidate proof_policy_input
  run_candidate-IsCheckedIn candidate reads write e =
      checked_in candidate reads write
        (session_policy_state chrono.dates (chrono.day_of reads.now) (chrono.second_of reads.now))
        refl e
