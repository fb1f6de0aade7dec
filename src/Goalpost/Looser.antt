-- ===== src/Goalpost/Looser.antt =====
-- `expr_is_looser_than` of src/goalpost/mod.rs is a strict order, so that an update that changes
-- nothing passes.
use stocks.Base.{
  ◌≡◌, refl, String, Option, none, some, true, false, List, eq_iff, arith, Bool-cases, inl, inr,
}
use stocks.Float.{F64, IsIeee}
use stocks.Goalpost.Expr.{
  SimpleExpr, op_family, looser_bound, looser_expr, parse_simple_expr, looser_parsed,
  expr_is_looser_than,
}
use stocks.Goalpost.{Condition, quantitative, narrative, analyze}
use stocks.Goalpost.Integrity.{Stays, analyze-Stays}

module _ {F : Type 0} ⦃d : F64 F⦄ (h : IsIeee d) where
  lt_asymm : (x y : F) → d.lt x y ≡ true → d.lt y x ≡ false
  lt_asymm x y e = h.not_lt_of_le x y (h.le_of_lt x y e)

  looser_bound_asymm :
      (family : String) (x y : F) → looser_bound family x y ≡ true → looser_bound family y x ≡ false
  unfolding looser_bound
  looser_bound_asymm family x y e = ground (arith, lt_asymm x y, lt_asymm y x)

  looser_expr_family :
      (x y : SimpleExpr F)
      → looser_expr x y ≡ true
      → (op_family x.op ≡ op_family y.op) × (looser_bound (op_family x.op) x.bound y.bound ≡ true)
  unfolding looser_expr
  looser_expr_family x y e = ground (arith, eq_iff (op_family x.op) (op_family y.op))

  looser_expr_asymm : (x y : SimpleExpr F) → looser_expr x y ≡ true → looser_expr y x ≡ false
  looser_expr_asymm x y e = elim (Bool-cases (looser_expr y x)) [
    | inr no_looser ↦ no_looser
    | inl back ↦
        let (same, there) = looser_expr_family x y e in
        let (_, again) = looser_expr_family y x back in
        let not_again = looser_bound_asymm (op_family x.op) x.bound y.bound there in
        let again' : looser_bound (op_family x.op) y.bound x.bound ≡ true = rw same again in cc
  ]

  looser_parsed_asymm :
      (x y : Option (SimpleExpr F)) → looser_parsed x y ≡ true → looser_parsed y x ≡ false
  looser_parsed_asymm none none e = refl
  looser_parsed_asymm none (some y) e = refl
  looser_parsed_asymm (some x) none e = refl
  looser_parsed_asymm (some x) (some y) e = looser_expr_asymm x y e

  -- Where one expression is looser than another, the other is not looser than it.
  pub expr_is_looser_than_asymm :
      (parse : String → Option F) (new old : String)
      → expr_is_looser_than parse new old ≡ true
      → expr_is_looser_than parse old new ≡ false
  unfolding expr_is_looser_than
  expr_is_looser_than_asymm parse new old e =
      looser_parsed_asymm (parse_simple_expr parse new) (parse_simple_expr parse old) e

  expr_is_looser_than_irrefl :
      (parse : String → Option F) (e : String) → expr_is_looser_than parse e e ≡ false
  expr_is_looser_than_irrefl parse e = elim (Bool-cases (expr_is_looser_than parse e e)) [
    | inl yes_looser ↦ expr_is_looser_than_asymm parse e e yes_looser
    | inr no_looser ↦ no_looser
  ]

  self-Stays : (parse : String → Option F) (c : Condition) → Stays parse c (some c)
  self-Stays parse (quantitative n e) = expr_is_looser_than_irrefl parse e
  self-Stays parse (narrative n a) = refl

  -- Conditions that are left as they are pass.
  pub analyze_self :
      (parse : String → Option F) (cs : List Condition)
      → ((analyze parse cs cs).weakened ≡ false) × ((analyze parse cs cs).needs_review ≡ false)
  analyze_self parse cs = (analyze-Stays parse cs cs).1 (λ n c found. rw found (self-Stays parse c))
