-- ===== src/Risk/Veto.antt =====
-- What the risk overlay of src/risk/mod.rs vetoes, and what it only warns of.
use stocks.Base.{
  ◌≡◌, refl, ◌∙◌, ◌↔◌, ◌⊎◌, inl, inr, Bool, true, false, not, ◌&&◌, ◌||◌, List, [], ◌∷◌, ◌++◌,
  String, arith, any, is_empty, In, any_of_In, In-of_any, or_iff, Bool-cases, sym,
}
use stocks.Float.{F64}
use stocks.Risk.{
  DrawdownBrake, Config, Position, Intent, Portfolio, Decision, veto_when, warn_when, matches,
  scale_by, brake, brakes, single_name_exceeded, premium_exceeded, below_cash_floor,
  too_many_positions, evaluate,
}

veto_when_veto :
    {F : Type 0} (b : Bool) (r : String) (e : Decision F) → (veto_when b r e).veto ≡ (e.veto || b)
unfolding veto_when
veto_when_veto b r e = ground arith

warn_when_veto :
    {F : Type 0} (b : Bool) (r : String) (e : Decision F) → (warn_when b r e).veto ≡ e.veto
unfolding warn_when
warn_when_veto b r e = ground arith

-- A decision vetoes exactly with a reason.
abbrev pub Agrees : {F : Type 0} → Decision F → Type 0
Agrees e = e.veto ≡ not (is_empty e.reasons)

is_empty-snoc : (xs : List String) (x : String) → is_empty (xs ++ (x ∷ [])) ≡ false
is_empty-snoc [] x = refl
is_empty-snoc (y ∷ ys) x = refl

veto_when-Agrees :
    {F : Type 0} (b : Bool) (r : String) (e : Decision F) → Agrees e → Agrees (veto_when b r e)
unfolding veto_when
veto_when-Agrees true r e h = rw (is_empty-snoc e.reasons r) refl
veto_when-Agrees false r e h = h

warn_when-Agrees :
    {F : Type 0} (b : Bool) (r : String) (e : Decision F) → Agrees e → Agrees (warn_when b r e)
unfolding warn_when
warn_when-Agrees true r e h = h
warn_when-Agrees false r e h = h

module _ {F : Type 0} ⦃d : F64 F⦄ where
  abbrev pub halts : Portfolio F → DrawdownBrake F → Bool
  halts port b = matches port b && b.halt_new

  scale_by_veto : (b : DrawdownBrake F) (e : Decision F) → (scale_by b e).veto ≡ e.veto
  unfolding scale_by
  scale_by_veto b e = ground arith

  brake_veto :
      (port : Portfolio F) (b : DrawdownBrake F) (e : Decision F)
      → (brake port b e).veto ≡ (e.veto || halts port b)
  unfolding brake
  brake_veto port b e = ground (
    arith,
    scale_by_veto b (veto_when b.halt_new "drawdown_brake_halt" e),
    veto_when_veto b.halt_new "drawdown_brake_halt" e,
  )

  brakes_veto :
      (port : Portfolio F) (bs : List (DrawdownBrake F)) (e : Decision F)
      → (brakes port bs e).veto ≡ (e.veto || any (halts port) bs)
  unfolding brakes
  brakes_veto port [] e = ground arith
  brakes_veto port (b ∷ bs) e =
      ground (arith, brakes_veto port bs (brake port b e), brake_veto port b e)

  scale_by-Agrees : (b : DrawdownBrake F) (e : Decision F) → Agrees e → Agrees (scale_by b e)
  unfolding scale_by
  scale_by-Agrees b e h = ground arith

  brake-Agrees :
      (port : Portfolio F) (b : DrawdownBrake F) (e : Decision F)
      → Agrees e
      → Agrees (brake port b e)
  unfolding brake
  brake-Agrees port b e h = elim (Bool-cases (matches port b)) [
    | inl m ↦ rw m (scale_by-Agrees b _ (veto_when-Agrees b.halt_new _ e h))
    | inr m ↦ rw m h
  ]

  brakes-Agrees :
      (port : Portfolio F) (bs : List (DrawdownBrake F)) (e : Decision F)
      → Agrees e
      → Agrees (brakes port bs e)
  unfolding brakes
  brakes-Agrees port [] e h = h
  brakes-Agrees port (b ∷ bs) e h = brakes-Agrees port bs (brake port b e) (brake-Agrees port b e h)

  -- One of the hard limits is exceeded, or a brake that holds halts new entries.
  abbrev pub IsOverLimit : Intent F → List (Position F) → Portfolio F → Config F → Type 0
  IsOverLimit intent positions port cfg =
      (single_name_exceeded intent positions port cfg ≡ true)
      ⊎ (premium_exceeded intent positions port cfg ≡ true)
      ⊎ (below_cash_floor intent port cfg ≡ true)
      ⊎ ((b : DrawdownBrake F) × In b cfg.drawdown_brake × (halts port b ≡ true))
      ⊎ (too_many_positions intent positions cfg ≡ true)

  evaluate_veto :
      (intent : Intent F) (positions : List (Position F)) (port : Portfolio F) (cfg : Config F)
      → (evaluate intent positions port cfg).veto ≡ (
          (((single_name_exceeded intent positions port cfg
                || premium_exceeded intent positions port cfg)
              || below_cash_floor intent port cfg)
            || any (halts port) cfg.drawdown_brake)
          || too_many_positions intent positions cfg)
  unfolding evaluate
  evaluate_veto intent positions port cfg =
      rw (
        veto_when_veto, warn_when_veto, brakes_veto, veto_when_veto, veto_when_veto, veto_when_veto,
      )

  evaluate-Agrees :
      (intent : Intent F) (positions : List (Position F)) (port : Portfolio F) (cfg : Config F)
      → Agrees (evaluate intent positions port cfg)
  unfolding evaluate
  evaluate-Agrees intent positions port cfg = veto_when-Agrees _ _ _ (
      warn_when-Agrees _ _ _ (
        brakes-Agrees port cfg.drawdown_brake _
          (veto_when-Agrees _ _ _ (veto_when-Agrees _ _ _ (veto_when-Agrees _ _ _ refl)))))

  -- For every intent, the overlay vetoes exactly with a reason, and exactly when a hard limit is
  -- exceeded: the single-name, premium, cash or position-count limit, or a brake that halts. The
  -- sub-sector limit is none of them.
  pub evaluate-veto_iff :
      (intent : Intent F) (positions : List (Position F)) (port : Portfolio F) (cfg : Config F)
      → Agrees (evaluate intent positions port cfg)
        × (((evaluate intent positions port cfg).veto ≡ true)
            ↔ IsOverLimit intent positions port cfg)
  evaluate-veto_iff intent positions port cfg =
      (evaluate-Agrees intent positions port cfg, (to, from))
    where
      to : (evaluate intent positions port cfg).veto ≡ true → IsOverLimit intent positions port cfg
      to h = elim ((or_iff _ _).0 (sym (evaluate_veto intent positions port cfg) ∙ h)) [
        | inl g ↦ elim ((or_iff _ _).0 g) [
          | inl k ↦ elim ((or_iff _ _).0 k) [
            | inl l ↦ elim ((or_iff _ _).0 l) [ inl m ↦ inl m | inr m ↦ inr (inl m) ]
            | inr m ↦ inr (inr (inl m))
          ]
          | inr m ↦ inr (inr (inr (inl (In-of_any (halts port) cfg.drawdown_brake m))))
        ]
        | inr m ↦ inr (inr (inr (inr m)))
      ]

      from :
          IsOverLimit intent positions port cfg → (evaluate intent positions port cfg).veto ≡ true
      from h = evaluate_veto intent positions port cfg ∙ over h
        where
          over :
              IsOverLimit intent positions port cfg
              → ((((single_name_exceeded intent positions port cfg
                        || premium_exceeded intent positions port cfg)
                      || below_cash_floor intent port cfg)
                    || any (halts port) cfg.drawdown_brake)
                  || too_many_positions intent positions cfg)
                ≡ true
          over (inl m) = ground arith
          over (inr (inl m)) = ground arith
          over (inr (inr (inl m))) = ground arith
          over (inr (inr (inr (inl (b, i, m))))) =
              ground (arith, any_of_In (halts port) b cfg.drawdown_brake i m)
          over (inr (inr (inr (inr m)))) = ground arith
