-- ===== src/Automation/Strategy/Entry.antt =====
-- When a strategy of src/automation/mod.rs wants to be long.
use mathlib.Core.Bool.{false≢true}
use mathlib.Core.Option.{some-injective}
use stocks.Base.{
  ◌≡◌, ◌≢◌, refl, sym, ◌∙◌, ◌⊎◌, inl, inr, true, false, [], Option, none, some, String, str_eq,
  eq_iff, flatten, flatten-eq-nil, is_empty, is_empty_iff, append-eq-nil, Bool-cases,
}
use stocks.Base.Int.{◌≤ℤ◌}
use stocks.Float.{F64}
use stocks.Time.{days, since}
use stocks.Reasons.Laws.{when-eq-nil, when-ltb-eq-nil}
use stocks.Automation.Policy.{has_expired}
use stocks.Automation.Policy.Types.{
  TargetSide, flat, long, StrategyDecisionKind, TradePermissionInput,
}
use stocks.Automation.Strategy.{
  stance_list_contains, is_bullish, permission_pushed, max_age_days, technical_blockers,
  blocked_with, common_blocked_reasons, long_target, technical_target, timed_target, thesis_target,
  target_intent, blocked_decision, decide, evaluate_strategy,
}
use stocks.Automation.Strategy.Types.{
  SerdeJson, SerdeFloat, TechnicalFeature, ThesisFeature, StrategyEvaluationInput, Targeting, ok,
  err,
}
use stocks.Reasons.Gates.{when_unless-eq-nil, when_differ-eq-nil, when_either-eq-nil}

-- A result is no target, a flat one, or a long one under a condition.
abbrev Means : Type 0 → Targeting → Type 0
Means P (err reasons) = Unit
Means P (ok i) = (i.side ≡ flat) ⊎ ((i.side ≡ long) × P)

Means-map : (P Q : Type 0) (x : Targeting) → (P → Q) → Means P x → Means Q x
Means-map P Q (err r) g m = tt
Means-map P Q (ok i) g (inl e) = inl e
Means-map P Q (ok i) g (inr (e, p)) = inr (e, g p)

module _ {V F : Type 0} ⦃d : F64 F⦄ ⦃j : SerdeJson V⦄ ⦃f : SerdeFloat V F⦄ where
  -- The permission allows this strategy to run, in shadow.
  pub record IsRunnable (input : StrategyEvaluationInput V F) (p : TradePermissionInput F)
      : Type 0 where
    pub given : input.permission ≡ some p
    pub same_strategy : p.strategy_id ≡ input.definition.strategy_id
    pub same_version : p.strategy_version ≡ input.definition.strategy_version
    pub in_shadow : input.definition.status ≡ "shadow"
    pub approved : p.status ≡ "approved"
    pub scope : p.environment_scope ≡ "shadow"
    pub unfrozen : p.manual_freeze ≡ false
    pub current : has_expired p.expires_at input.now ≡ false

  -- The chart is there, recent and read.
  pub record IsReadable (input : StrategyEvaluationInput V F) (t : TechnicalFeature F)
      : Type 0 where
    pub given : input.features.technical ≡ some t
    pub recent : since input.now t.as_of ≤ℤ days (max_age_days input)
    pub known : t.state ≢ "unknown"
    pub no_wait : t.entry_stance ≢ "wait_data"

  pub record IsCleared (input : StrategyEvaluationInput V F) : Type 0 where
    pub permission : TradePermissionInput F
    pub technical : TechnicalFeature F
    pub runnable : IsRunnable input permission
    pub readable : IsReadable input technical

  technical-IsReadable :
      (input : StrategyEvaluationInput V F) (o : Option (TechnicalFeature F))
      → input.features.technical ≡ o
      → technical_blockers input o ≡ []
      → (t : TechnicalFeature F) × IsReadable input t
  unfolding technical_blockers
  technical-IsReadable input none e h = absurd (cc)
  technical-IsReadable input (some t) e h =
      let (stale, invalid) = append-eq-nil _ _ h in
      let (known, no_wait) =
        when_either-eq-nil t.state "unknown" t.entry_stance "wait_data" _ invalid in
      (
        t,
        record {
          given = e;
          recent =
              (when-ltb-eq-nil (days (max_age_days input)) (since input.now t.as_of) _).0 stale;
          known = known;
          no_wait = no_wait;
        },
      )

  permission-IsRunnable :
      (input : StrategyEvaluationInput V F) (p : TradePermissionInput F)
      → input.permission ≡ some p
      → flatten (permission_pushed input p) ≡ []
      → IsRunnable input p
  permission-IsRunnable input p e h =
      let (mismatch, (shadow, (approved, (scope, (freeze, (expiry, _)))))) =
        (flatten-eq-nil (permission_pushed input p)).0 h in
      let same =
        (when_differ-eq-nil p.strategy_id input.definition.strategy_id p.strategy_version
            input.definition.strategy_version _).0
          mismatch in
      record {
        given = e;
        same_strategy = same.0;
        same_version = same.1;
        in_shadow = (when_unless-eq-nil _ _ _).0 shadow;
        approved = (when_unless-eq-nil _ _ _).0 approved;
        scope = (when_unless-eq-nil _ _ _).0 scope;
        unfrozen = (when-eq-nil _ _).0 freeze;
        current = (when-eq-nil _ _).0 expiry;
      }

  blocked_with-IsCleared :
      (input : StrategyEvaluationInput V F) (o : Option (TradePermissionInput F))
      → input.permission ≡ o
      → blocked_with input o ≡ []
      → IsCleared input
  blocked_with-IsCleared input none e h = absurd (cc)
  blocked_with-IsCleared input (some p) e h =
      let (permission, chart) = append-eq-nil _ _ h in
      let (t, readable) = technical-IsReadable input input.features.technical refl chart in
      record {
        permission = p;
        technical = t;
        runnable = permission-IsRunnable input p e permission;
        readable = readable;
      }

  common-IsCleared :
      (input : StrategyEvaluationInput V F) → common_blocked_reasons input ≡ [] → IsCleared input
  unfolding common_blocked_reasons
  common-IsCleared input h = blocked_with-IsCleared input input.permission refl h

  -- The entry stance is one to be long at, and the permission is not for shorts alone.
  pub record IsTimed (input : StrategyEvaluationInput V F) : Type 0 where
    pub technical : TechnicalFeature F
    pub shown : input.features.technical ≡ some technical
    pub stance :
        stance_list_contains input.config "long_entry_stances" technical.entry_stance ≡ true
    pub permission : TradePermissionInput F
    pub given : input.permission ≡ some permission
    pub scope : permission.instrument_scope ≢ "equity_short_only"

  -- There is a thesis, in an actionable state and bullish.
  pub record IsBacked (input : StrategyEvaluationInput V F) : Type 0 where
    pub thesis : ThesisFeature F
    pub held : input.features.thesis ≡ some thesis
    pub actionable :
        stance_list_contains input.config "actionable_thesis_states" thesis.state ≡ true
    pub bullish : is_bullish thesis.direction ≡ true

  -- What the family of the strategy asks for.
  abbrev pub IsSignal : StrategyEvaluationInput V F → Type 0
  IsSignal input =
      ((input.definition.family ≡ "technical_timing") × IsTimed input)
      ⊎ ((input.definition.family ≡ "thesis_timing") × IsBacked input × IsTimed input)

  long_target-Means :
      (input : StrategyEvaluationInput V F) (t : TechnicalFeature F)
      (o : Option (TradePermissionInput F)) (code text : String)
      → input.features.technical ≡ some t
      → stance_list_contains input.config "long_entry_stances" t.entry_stance ≡ true
      → input.permission ≡ o
      → Means (IsTimed input) (long_target o code text)
  unfolding long_target
  long_target-Means input t none code text e s g = tt
  long_target-Means input t (some p) code text e s g =
      elim (Bool-cases (str_eq p.instrument_scope "equity_short_only")) [
        | inl h ↦ rw h tt
        | inr h ↦ rw h (
            inr (
              refl,
              record {
                technical = t;
                shown = e;
                stance = s;
                permission = p;
                given = g;
                scope =
                    λ k. false≢true (sym h ∙ (eq_iff p.instrument_scope "equity_short_only").1 k);
              },
            ))
      ]

  technical_target-Means :
      (input : StrategyEvaluationInput V F) (o : Option (TechnicalFeature F))
      → input.features.technical ≡ o
      → Means (IsTimed input) (technical_target input o)
  unfolding technical_target
  technical_target-Means input none e = tt
  technical_target-Means input (some t) e =
      elim (Bool-cases (stance_list_contains input.config "long_entry_stances" t.entry_stance)) [
        | inl s ↦ rw s (long_target-Means input t input.permission _ _ e s refl)
        | inr s ↦ rw s (inl refl)
      ]

  timed_target-Means :
      (input : StrategyEvaluationInput V F) (o : Option (TechnicalFeature F))
      → input.features.technical ≡ o
      → Means (IsTimed input) (timed_target input o)
  unfolding timed_target
  timed_target-Means input none e = tt
  timed_target-Means input (some t) e =
      elim (Bool-cases (stance_list_contains input.config "long_entry_stances" t.entry_stance)) [
        | inl s ↦ rw s (long_target-Means input t input.permission _ _ e s refl)
        | inr s ↦ rw s (inl refl)
      ]

  thesis_target-Means :
      (input : StrategyEvaluationInput V F) (o : Option (ThesisFeature F))
      → input.features.thesis ≡ o
      → Means (IsBacked input × IsTimed input) (thesis_target input o)
  unfolding thesis_target
  thesis_target-Means input none e = inl refl
  thesis_target-Means input (some th) e =
      elim (Bool-cases (stance_list_contains input.config "actionable_thesis_states" th.state)) [
        | inr a ↦ rw a (inl refl)
        | inl a ↦ elim (Bool-cases (is_bullish th.direction)) [
          | inr b ↦ rw (a, b) (inl refl)
          | inl b ↦
              rw (a, b)
                (Means-map (IsTimed input) _ _
                  (λ t. (record { thesis = th; held = e; actionable = a; bullish = b }, t))
                  (timed_target-Means input input.features.technical refl))
        ]
      ]

  target_intent-Means :
      (input : StrategyEvaluationInput V F) → Means (IsSignal input) (target_intent input)
  unfolding target_intent
  target_intent-Means input =
      elim (Bool-cases (str_eq input.definition.family "technical_timing")) [
        | inl k ↦ rw k (
            Means-map (IsTimed input) _ _
              (λ t. inl ((eq_iff input.definition.family "technical_timing").0 k, t))
              (technical_target-Means input input.features.technical refl))
        | inr k ↦ elim (Bool-cases (str_eq input.definition.family "thesis_timing")) [
          | inl l ↦
              rw (k, l)
                (Means-map (IsBacked input × IsTimed input) _ _
                  (λ t. inr ((eq_iff input.definition.family "thesis_timing").0 l, t.0, t.1))
                  (thesis_target-Means input input.features.thesis refl))
          | inr l ↦ rw (k, l) tt
        ]
      ]

  decide-Means :
      (input : StrategyEvaluationInput V F) (P : Type 0) (x : Targeting) (side : TargetSide)
      → Means P x
      → (decide input x).target_side ≡ some side
      → (side ≡ flat) ⊎ ((side ≡ long) × P)
  unfolding decide blocked_decision
  decide-Means input P (err reasons) side m h = absurd (cc)
  decide-Means input P (ok i) side m h =
      let same : i.side ≡ side = some-injective _ _ h in
      elim m [ inl e ↦ inl (sym same ∙ e) | inr e ↦ inr (sym same ∙ e.0, e.1) ]

  -- For every input, a strategy that wants a side wants to be flat or long, never short; and it wants
  -- to be long only where its permission lets it run in shadow, the chart is recent and read, the
  -- entry stance is one to be long at, the scope is not for shorts alone, and, in the family of thesis
  -- timing, a bullish thesis in an actionable state backs it.
  pub evaluate_strategy-long :
      (input : StrategyEvaluationInput V F) (side : TargetSide)
      → (evaluate_strategy input).target_side ≡ some side
      → (side ≡ flat) ⊎ ((side ≡ long) × IsCleared input × IsSignal input)
  unfolding evaluate_strategy blocked_decision
  evaluate_strategy-long input side h =
      elim (Bool-cases (is_empty (common_blocked_reasons input))) [
        | inl e ↦
            elim (decide-Means input (IsSignal input) (target_intent input) side
              (target_intent-Means input) (rw e at h)) [
                | inl k ↦ inl k
                | inr (k, signal) ↦ inr (k, common-IsCleared input ((is_empty_iff _).0 e), signal)
              ]
        | inr e ↦ absurd (none_of (rw e at h))
      ]
    where
      none_of : ◌≡◌ {A = Option TargetSide} none (some side) → ⊥
      none_of k = cc

  -- For every input whose definition is not in the stage "shadow", so for a strategy that was promoted
  -- to paper or live trading as well, the decision is "blocked" and wants no side.
  pub evaluate_strategy-not_shadow :
      (input : StrategyEvaluationInput V F)
      → input.definition.status ≢ "shadow"
      → ((evaluate_strategy input).kind ≡ StrategyDecisionKind.blocked)
        × ((evaluate_strategy input).target_side ≡ none)
  unfolding evaluate_strategy blocked_decision
  evaluate_strategy-not_shadow input n =
      elim (Bool-cases (is_empty (common_blocked_reasons input))) [
        | inl e ↦ absurd (n (common-IsCleared input ((is_empty_iff _).0 e)).runnable.in_shadow)
        | inr e ↦ rw e (refl, refl)
      ]
