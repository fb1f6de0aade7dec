-- ===== src/Risk/Scale.antt =====
-- How the drawdown brakes of src/risk/mod.rs scale a position, and that the sub-sector limit is soft.
use stocks.Base.{
  ◌≡◌, refl, ◌∙◌, ◌⊎◌, inl, inr, Bool, true, false, List, [], ◌∷◌, String, arith, In, and_true,
  Bool-cases, sym,
}
use mathlib.Core.Path.{subst}
use stocks.Float.{F64, IsIeee, nought, one}
use stocks.Risk.{
  DrawdownBrake, Config, Position, Intent, Portfolio, Decision, veto_when, warn_when, matches,
  scales, scale_by, brake, brakes, default_decision, single_name_exceeded, premium_exceeded,
  below_cash_floor, too_many_positions, evaluate,
}

veto_when_size_mult :
    {F : Type 0} (b : Bool) (r : String) (e : Decision F)
    → (veto_when b r e).size_mult ≡ e.size_mult
unfolding veto_when
veto_when_size_mult true r e = refl
veto_when_size_mult false r e = refl

warn_when_size_mult :
    {F : Type 0} (b : Bool) (r : String) (e : Decision F)
    → (warn_when b r e).size_mult ≡ e.size_mult
unfolding warn_when
warn_when_size_mult true r e = refl
warn_when_size_mult false r e = refl

-- All of a decision but the warnings.
abbrev pub hard : {F : Type 0} → Decision F → Bool × List String × F
hard e = (e.veto, e.reasons, e.size_mult)

-- A last check after a warning decides as without the warning.
hard-veto_when-warn_when :
    {F : Type 0} (b c : Bool) (r w : String) (e : Decision F)
    → hard (veto_when b r (warn_when c w e)) ≡ hard (veto_when b r e)
unfolding veto_when warn_when
hard-veto_when-warn_when true true r w e = refl
hard-veto_when-warn_when true false r w e = refl
hard-veto_when-warn_when false true r w e = refl
hard-veto_when-warn_when false false r w e = refl

module _ {F : Type 0} ⦃d : F64 F⦄ where
  -- For every intent, the sub-sector limit, whatever it is set to, changes neither the veto, nor the
  -- reasons, nor the size.
  pub evaluate-subsector_soft :
      (intent : Intent F) (positions : List (Position F)) (port : Portfolio F) (cfg : Config F)
      (limit : F)
      → hard (evaluate intent positions port (record cfg { subsector_cluster_pct = limit }))
        ≡ hard (evaluate intent positions port cfg)
  unfolding evaluate single_name_exceeded premium_exceeded below_cash_floor too_many_positions
  evaluate-subsector_soft intent positions port cfg limit =
      hard-veto_when-warn_when _ _ _ _ _ ∙ sym (hard-veto_when-warn_when _ _ _ _ _)

  -- A brake that holds at the drawdown, with a positive factor.
  abbrev pub IsActive : Portfolio F → DrawdownBrake F → Type 0
  IsActive port b = (matches port b ≡ true) × (d.lt nought b.size_mult ≡ true)

  -- The scale is the former one, or that of an active brake and smaller.
  abbrev pub IsScaled : Portfolio F → List (DrawdownBrake F) → F → F → Type 0
  IsScaled port bs old new =
      (new ≡ old)
      ⊎ ((d.lt new old ≡ true)
          × (b : DrawdownBrake F) × In b bs
          × IsActive port b
          × (new ≡ b.size_mult))

  -- No active brake among those passed is below the scale.
  abbrev pub IsLeast : Portfolio F → List (DrawdownBrake F) → F → Type 0
  IsLeast port bs size =
      (b : DrawdownBrake F) → In b bs → IsActive port b → d.lt b.size_mult size ≡ false

module _ {F : Type 0} ⦃d : F64 F⦄ (ieee : IsIeee d) where
  lt_trans : (x y z : F) → d.lt x y ≡ true → d.lt y z ≡ true → d.lt x z ≡ true
  lt_trans x y z h k = ieee.lt_of_lt_of_le x y z h (ieee.le_of_lt y z k)

  brake_size_mult :
      (port : Portfolio F) (b : DrawdownBrake F) (e : Decision F)
      → IsScaled port (b ∷ []) e.size_mult (brake port b e).size_mult
  unfolding brake scale_by
  brake_size_mult port b e = elim (Bool-cases (matches port b)) [
    | inr m ↦ rw m (inl refl)
    | inl m ↦ elim (Bool-cases (scales (veto_when b.halt_new "drawdown_brake_halt" e) b)) [
      | inr s ↦ rw (m, s) (inl (veto_when_size_mult b.halt_new _ e))
      | inl s ↦
          let (p, l) =
            and_true (d.lt nought b.size_mult)
              (d.lt b.size_mult (veto_when b.halt_new "drawdown_brake_halt" e).size_mult) s in
          let same = veto_when_size_mult b.halt_new "drawdown_brake_halt" e in
          let below = subst (λ z. d.lt b.size_mult z ≡ true) same l in
          rw (m, s) (inr (below, b, inl refl, (m, p), refl))
    ]
  ]

  brake_least :
      (port : Portfolio F) (b : DrawdownBrake F) (e : Decision F)
      → IsActive port b
      → d.lt b.size_mult (brake port b e).size_mult ≡ false
  unfolding brake scale_by
  brake_least port b e (m, p) =
      elim (Bool-cases (scales (veto_when b.halt_new "drawdown_brake_halt" e) b)) [
        | inl s ↦ rw (m, s) (ieee.lt_irrefl b.size_mult)
        | inr s ↦ rw (m, s) (not_below (veto_when b.halt_new "drawdown_brake_halt" e) s)
      ]
    where
      not_below : (f : Decision F) → scales f b ≡ false → d.lt b.size_mult f.size_mult ≡ false
      not_below f s = ground arith

  -- The scale only falls.
  not_below_of_scaled :
      (port : Portfolio F) (bs : List (DrawdownBrake F)) (x old new : F)
      → IsScaled port bs old new
      → d.lt x old ≡ false
      → d.lt x new ≡ false
  not_below_of_scaled port bs x old new (inl e) h = rw e h
  not_below_of_scaled port bs x old new (inr (l, _, _, _, _)) h = ground (arith, lt_trans x new old)

  IsScaled-trans :
      (port : Portfolio F) (b : DrawdownBrake F) (bs : List (DrawdownBrake F)) (x y z : F)
      → IsScaled port (b ∷ []) x y
      → IsScaled port bs y z
      → IsScaled port (b ∷ bs) x z
  IsScaled-trans port b bs x y z (inl e) (inl f) = inl (f ∙ e)
  IsScaled-trans port b bs x y z (inl e) (inr (l, c, i, a, f)) =
      inr (subst (λ w. d.lt z w ≡ true) e l, c, inr i, a, f)
  IsScaled-trans port b bs x y z (inr (l, c, i, a, f)) (inl g) =
      inr (subst (λ w. d.lt w x ≡ true) (sym g) l, c, here i, a, g ∙ f)
    where
      here : In c (b ∷ []) → In c (b ∷ bs)
      here (inl e) = inl e
      here (inr n) = absurd n
  IsScaled-trans port b bs x y z (inr (l, _, _, _, _)) (inr (k, c, i, a, f)) =
      inr (lt_trans z y x k l, c, inr i, a, f)

  brakes_size_mult :
      (port : Portfolio F) (bs : List (DrawdownBrake F)) (e : Decision F)
      → IsScaled port bs e.size_mult (brakes port bs e).size_mult
        × IsLeast port bs (brakes port bs e).size_mult
  unfolding brakes
  brakes_size_mult port [] e = (inl refl, λ b i. absurd i)
  brakes_size_mult port (b ∷ bs) e =
      let (scaled, least) = brakes_size_mult port bs (brake port b e) in
      (
        IsScaled-trans port b bs _ _ _ (brake_size_mult port b e) scaled,
        λ c i a. elim i [
          | inl same ↦ not_below_of_scaled port bs c.size_mult _ _ scaled (
              subst (λ z. d.lt z.size_mult (brake port b e).size_mult ≡ false) (sym same)
                (brake_least port b e (subst (IsActive port) same a)))
          | inr j ↦ least c j a
        ],
      )

  brakes_from_one :
      (port : Portfolio F) (bs : List (DrawdownBrake F)) (e : Decision F)
      → e.size_mult ≡ one
      → IsScaled port bs one (brakes port bs e).size_mult
        × IsLeast port bs (brakes port bs e).size_mult
  brakes_from_one port bs e h =
      let (scaled, least) = brakes_size_mult port bs e in
      (subst (λ z. IsScaled port bs z (brakes port bs e).size_mult) h scaled, least)

  -- Under IEEE comparison, the size of a decision is 1, or it is below 1 and the factor of an active
  -- brake (one that holds at the drawdown, with a positive factor); and no active brake is below it.
  pub evaluate-size_mult :
      (intent : Intent F) (positions : List (Position F)) (port : Portfolio F) (cfg : Config F)
      → IsScaled port cfg.drawdown_brake one (evaluate intent positions port cfg).size_mult
        × IsLeast port cfg.drawdown_brake (evaluate intent positions port cfg).size_mult
  unfolding evaluate
  evaluate-size_mult intent positions port cfg =
      rw (veto_when_size_mult, warn_when_size_mult)
        (brakes_from_one port cfg.drawdown_brake _ (
          veto_when_size_mult _ _ _
          ∙ veto_when_size_mult _ _ _
          ∙ veto_when_size_mult _ _ default_decision))
