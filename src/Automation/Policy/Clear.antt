-- ===== src/Automation/Policy/Clear.antt =====
-- When the policy proof of src/automation/policy.rs lets a desired position pass.
use stocks.Base.{
  ◌≡◌, refl, ◌↔◌, ◌⊎◌, inl, inr, Bool, true, false, [], map, Option, none, some, String, eq_iff,
  arith, flatten, flatten-eq-nil, is_empty, is_empty_iff, All, ◌≢◌, sym, ◌∙◌,
}
use mathlib.Core.Bool.{false≢true}
use mathlib.Core.Option.{some-injective}
use stocks.Base.Text.{is_blank}
use stocks.Float.{F64}
use stocks.Time.{DateTime}
use stocks.Reasons.{sort_dedup}
use stocks.Reasons.Laws.{sort_dedup-eq-nil, when-eq-nil}
use stocks.Automation.Stage.{AutomationStage, try_from, is_runnable, allows_environment_scope}
use stocks.Automation.Policy.{
  is_blocked_kind, has_expired, stage_blockers, sleeve_blockers, risk_reason, permission_pushed,
  permission_blockers, over_cap, pushed, result_of, evaluate_proof_policy,
}
use stocks.Automation.Policy.Types.{StrategyDefinitionInput, TradePermissionInput, ProofPolicyInput}
use stocks.Reasons.Gates.{
  given-eq-nil, map-eq-nil, when_or-eq-nil, when-not-eq-nil, when_word-eq-nil, when_unless-eq-nil,
  when_differ-eq-nil,
}

-- The stage that a status names runs the environment.
pub record IsStaged (status scope : String) : Type 0 where
  pub stage : AutomationStage
  pub named : try_from status ≡ some stage
  pub runnable : is_runnable stage ≡ true
  pub allowed : allows_environment_scope stage scope ≡ true

pub record IsPermitted {F : Type 0} (definition : StrategyDefinitionInput)
    (permission : TradePermissionInput F) (now : DateTime) : Type 0 where
  pub approved : permission.status ≡ "approved"
  pub staged : IsStaged definition.status permission.environment_scope
  pub unfrozen : permission.manual_freeze ≡ false
  pub current : has_expired permission.expires_at now ≡ false
  pub same_strategy : permission.strategy_id ≡ definition.strategy_id
  pub same_version : permission.strategy_version ≡ definition.strategy_version

abbrev pub HasPermission :
    {F : Type 0} → StrategyDefinitionInput → Option (TradePermissionInput F) → DateTime → Type 0
HasPermission definition none now = ⊥
HasPermission definition (some permission) now = IsPermitted definition permission now

-- What each source of reasons must look like for a position to pass.
pub record IsClear {F : Type 0} ⦃d : F64 F⦄ (input : ProofPolicyInput F) : Type 0 where
  pub switched_on : input.control.kill_switch_enabled ≡ false
  pub permitted : HasPermission input.definition input.permission input.now
  pub configured : is_blank input.definition.config_hash ≡ false
  pub decided :
      (is_blocked_kind input.decision.kind ≡ false) ⊎ (input.decision.blocked_reasons ≡ [])
  pub fresh : input.data_freshness.stale ≡ false
  pub status_fresh : ¬ (input.data_freshness.status ≡ "stale")
  pub status_known : ¬ (input.data_freshness.status ≡ "missing")
  pub market_ready : input.data_freshness.market_readiness_blocked_reasons ≡ []
  pub session_open : input.session.is_open ≡ true
  pub no_veto : (input.risk.veto ≡ false) ⊎ (input.risk.reasons ≡ [])
  pub weight_fits :
      over_cap input.capital.target_weight_pct input.capital.max_allocation_pct ≡ false
  pub notional_fits :
      over_cap input.capital.target_notional_usd input.capital.max_notional_usd ≡ false
  pub allocated : input.capital.allocator_blocked_reasons ≡ []
  pub sleeve_unfrozen : ¬ (input.sleeve.status ≡ "frozen")
  pub sleeve_unclosed : ¬ (input.sleeve.status ≡ "closed")
  pub reconciled : input.broker.mismatch ≡ false
  pub broker_agrees : ¬ (input.broker.status ≡ "mismatch")

stage_blockers-eq-nil :
    (o : Option AutomationStage) (status scope : String)
    → try_from status ≡ o
    → (stage_blockers o scope ≡ []) ↔ IsStaged status scope
unfolding stage_blockers
stage_blockers-eq-nil none status scope e = (λ h. absurd (cc), λ s. absurd (let n = s.named in cc))
stage_blockers-eq-nil (some stage) status scope e = (
  λ h. record { stage = stage; named = e; runnable = ground arith; allowed = ground arith },
  λ s. back s.stage s.named s.runnable s.allowed,
)
  where
    back :
        (t : AutomationStage)
        → try_from status ≡ some t
        → is_runnable t ≡ true
        → allows_environment_scope t scope ≡ true
        → stage_blockers (some stage) scope ≡ []
    back t n r a = ground (arith, some-injective stage t (sym e ∙ n))

sleeve_blockers-eq-nil :
    (status : String)
    → (sleeve_blockers status ≡ []) ↔ ((¬ (status ≡ "frozen")) × (¬ (status ≡ "closed")))
unfolding sleeve_blockers
sleeve_blockers-eq-nil status = ground (arith, eq_iff status "frozen", eq_iff status "closed")

unblocked : (a b : Bool) → result_of a b ≢ "blocked" → a ≡ true
unblocked true b h = refl
unblocked false b h = absurd (h refl)

blocked : (a b : Bool) → a ≡ true → result_of a b ≢ "blocked"
blocked true true e h = false≢true ((eq_iff "passed" "blocked").1 h)
blocked true false e h = false≢true ((eq_iff "warning" "blocked").1 h)
blocked false b e h = false≢true e

passed : (a b : Bool) → (result_of a b ≡ "passed") ↔ ((a ≡ true) × (b ≡ true))
passed true true = (λ h. (refl, refl), λ e. refl)
passed true false =
    (λ h. absurd (false≢true ((eq_iff "warning" "passed").1 h)), λ (_, e). absurd (false≢true e))
passed false b =
    (λ h. absurd (false≢true ((eq_iff "blocked" "passed").1 h)), λ (e, _). absurd (false≢true e))

module _ {F : Type 0} ⦃d : F64 F⦄ where
  permission_blockers-eq-nil :
      (definition : StrategyDefinitionInput) (o : Option (TradePermissionInput F)) (now : DateTime)
      → (permission_blockers definition o now ≡ []) ↔ HasPermission definition o now
  unfolding permission_blockers
  permission_blockers-eq-nil definition none now = (λ e. cc, λ h. absurd h)
  permission_blockers-eq-nil definition (some p) now =
      let all = flatten-eq-nil (permission_pushed definition p now) in
      let staged =
        stage_blockers-eq-nil (try_from definition.status) definition.status p.environment_scope
          refl in
      let same =
        when_differ-eq-nil p.strategy_id definition.strategy_id p.strategy_version
          definition.strategy_version "permission_strategy_mismatch" in
      (
        λ e.
            let (approved, (stage, (freeze, (expiry, (strategy, _))))) = all.0 e in
            record {
              approved = (when_unless-eq-nil _ _ _).0 approved;
              staged = staged.0 stage;
              unfrozen = (when-eq-nil _ _).0 freeze;
              current = (when-eq-nil _ _).0 expiry;
              same_strategy = (same.0 strategy).0;
              same_version = (same.0 strategy).1;
            },
        λ h. all.1 (
          (when_unless-eq-nil p.status "approved" _).1 h.approved,
          (
            staged.1 h.staged,
            (
              (when-eq-nil _ _).1 h.unfrozen,
              ((when-eq-nil _ _).1 h.current, (same.1 (h.same_strategy, h.same_version), tt)),
            ),
          ),
        ),
      )

  pushed-IsClear : (input : ProofPolicyInput F) → All (λ xs. xs ≡ []) (pushed input) → IsClear input
  pushed-IsClear input
        ((
          switch,
          (
            permission,
            (
              config,
              (
                kind,
                (
                  fresh,
                  (
                    missing,
                    (
                      market,
                      (session, (veto, (weight, (notional, (allocator, (sleeve, (broker, _))))))),
                    ),
                  ),
                ),
              ),
            ),
          ),
        )) =
      let freshness =
        (when_or-eq-nil input.data_freshness.stale input.data_freshness.status "stale" _).0 fresh in
      let sleeves = (sleeve_blockers-eq-nil input.sleeve.status).0 sleeve in
      let agreement =
        (when_or-eq-nil input.broker.mismatch input.broker.status "mismatch" _).0 broker in
      record {
        switched_on = (when-eq-nil _ _).0 switch;
        permitted = (permission_blockers-eq-nil _ _ _).0 permission;
        configured = (when-eq-nil _ _).0 config;
        decided = (given-eq-nil _ _).0 kind;
        fresh = freshness.0;
        status_fresh = freshness.1;
        status_known = (when_word-eq-nil _ _ _).0 missing;
        market_ready = market;
        session_open = (when-not-eq-nil _ _).0 session;
        no_veto = vetoed ((given-eq-nil _ _).0 veto);
        weight_fits = (when-eq-nil _ _).0 weight;
        notional_fits = (when-eq-nil _ _).0 notional;
        allocated = allocator;
        sleeve_unfrozen = sleeves.0;
        sleeve_unclosed = sleeves.1;
        reconciled = agreement.0;
        broker_agrees = agreement.1;
      }
    where
      vetoed :
          (input.risk.veto ≡ false) ⊎ (map risk_reason input.risk.reasons ≡ [])
          → (input.risk.veto ≡ false) ⊎ (input.risk.reasons ≡ [])
      vetoed (inl e) = inl e
      vetoed (inr e) = inr ((map-eq-nil risk_reason input.risk.reasons).0 e)

  IsClear-pushed : (input : ProofPolicyInput F) → IsClear input → All (λ xs. xs ≡ []) (pushed input)
  IsClear-pushed input c = (
    (when-eq-nil _ _).1 c.switched_on,
    (
      (permission_blockers-eq-nil _ _ _).1 c.permitted,
      (
        (when-eq-nil _ _).1 c.configured,
        (
          (given-eq-nil _ _).1 c.decided,
          (
            (when_or-eq-nil _ _ "stale" _).1 (c.fresh, c.status_fresh),
            (
              (when_word-eq-nil _ "missing" _).1 c.status_known,
              (
                c.market_ready,
                (
                  (when-not-eq-nil _ _).1 c.session_open,
                  (
                    (given-eq-nil _ _).1 (quiet c.no_veto),
                    (
                      (when-eq-nil _ _).1 c.weight_fits,
                      (
                        (when-eq-nil _ _).1 c.notional_fits,
                        (
                          c.allocated,
                          (
                            (sleeve_blockers-eq-nil _).1 (c.sleeve_unfrozen, c.sleeve_unclosed),
                            (
                              (when_or-eq-nil _ _ "mismatch" _).1 (c.reconciled, c.broker_agrees),
                              tt,
                            ),
                          ),
                        ),
                      ),
                    ),
                  ),
                ),
              ),
            ),
          ),
        ),
      ),
    ),
  )
    where
      quiet :
          (input.risk.veto ≡ false) ⊎ (input.risk.reasons ≡ [])
          → (input.risk.veto ≡ false) ⊎ (map risk_reason input.risk.reasons ≡ [])
      quiet (inl e) = inl e
      quiet (inr e) = inr ((map-eq-nil risk_reason input.risk.reasons).1 e)

  no_reasons_iff :
      (input : ProofPolicyInput F)
      → (is_empty (sort_dedup (flatten (pushed input))) ≡ true) ↔ IsClear input
  no_reasons_iff input = (
    λ h.
        pushed-IsClear input
          ((flatten-eq-nil (pushed input)).0 ((sort_dedup-eq-nil _).0 ((is_empty_iff _).0 h))),
    λ c.
        (is_empty_iff _).1
          ((sort_dedup-eq-nil _).1 ((flatten-eq-nil (pushed input)).1 (IsClear-pushed input c))),
  )

  -- For every input, the policy proof is other than "blocked" exactly when each source of reasons
  -- is clear: the switch, the permission (approved, unfrozen, unexpired, of this strategy, its
  -- environment run by the stage), the configuration, data, session, risk, capital, sleeve and broker.
  pub evaluate_proof_policy-IsClear_iff :
      (input : ProofPolicyInput F)
      → ((evaluate_proof_policy input).result ≢ "blocked") ↔ IsClear input
  unfolding evaluate_proof_policy
  evaluate_proof_policy-IsClear_iff input =
      let reasons = is_empty (sort_dedup (flatten (pushed input))) in
      let quiet = is_empty input.risk.warnings in
      (
        λ h. (no_reasons_iff input).0 (unblocked reasons quiet h),
        λ c. blocked reasons quiet ((no_reasons_iff input).1 c),
      )

  -- For every input, the policy proof is "passed" exactly when all of this is clear and the risk
  -- overlay gave no warning.
  pub evaluate_proof_policy-passed_iff :
      (input : ProofPolicyInput F)
      → ((evaluate_proof_policy input).result ≡ "passed")
        ↔ (IsClear input × (input.risk.warnings ≡ []))
  unfolding evaluate_proof_policy
  evaluate_proof_policy-passed_iff input =
      let reasons = is_empty (sort_dedup (flatten (pushed input))) in
      let quiet = is_empty input.risk.warnings in
      (
        λ h.
            let (a, b) = (passed reasons quiet).0 h in
            ((no_reasons_iff input).0 a, (is_empty_iff _).0 b),
        λ (c, w). (passed reasons quiet).1 ((no_reasons_iff input).1 c, (is_empty_iff _).1 w),
      )
