-- ===== src/Float/Ratios.antt =====
-- A type that meets the interface of `f64` and divides exactly: fractions of a whole number and a
-- positive number. It serves the theorems that compare quotients of counts.
use stocks.Base.{ℕ, ◌+◌, ◌*◌, ◌/◌, ◌^◌, ◌<◌, ◌≡◌, Bool, arith, leb, ltb, if◌then◌else◌}
use stocks.Base.Int.{ℤ, pos, negsuc, pos_part, neg_part, sub_ℕ, ◌+ℤ◌, ◌-ℤ◌, ◌*ℤ◌, abs}
use stocks.Float.{F64}

pub record Ratio : Type 0 where
  pub numerator : ℤ
  pub denominator : ℕ

abbrev pub ratio : ℤ → ℕ → Ratio
ratio n m = record { numerator = n; denominator = m }

-- The fraction with its sign in the numerator.
abbrev over : ℤ → ℤ → Ratio
over n (pos m) = ratio n m
over n (negsuc m) = ratio (sub_ℕ (neg_part n) (pos_part n)) (m + 1)

abbrev lt_ratio : Ratio → Ratio → Bool
lt_ratio x y =
    ltb (pos_part x.numerator * y.denominator + neg_part y.numerator * x.denominator)
      (pos_part y.numerator * x.denominator + neg_part x.numerator * y.denominator)

abbrev le_ratio : Ratio → Ratio → Bool
le_ratio x y =
    leb (pos_part x.numerator * y.denominator + neg_part y.numerator * x.denominator)
      (pos_part y.numerator * x.denominator + neg_part x.numerator * y.denominator)

instance abbrev pub ratio_f64 : F64 Ratio
ratio_f64 = record {
  lit = λ n k. ratio (pos n) (10 ^ k);
  epsilon = ratio (pos 1) (2 ^ 52);
  of_int = λ n. ratio n 1;
  add = λ x y.
      ratio (x.numerator *ℤ pos y.denominator +ℤ y.numerator *ℤ pos x.denominator)
        (x.denominator * y.denominator);
  sub = λ x y.
      ratio (x.numerator *ℤ pos y.denominator -ℤ y.numerator *ℤ pos x.denominator)
        (x.denominator * y.denominator);
  mul = λ x y. ratio (x.numerator *ℤ y.numerator) (x.denominator * y.denominator);
  div = λ x y. over (x.numerator *ℤ pos y.denominator) (pos x.denominator *ℤ y.numerator);
  neg = λ x. ratio (pos 0 -ℤ x.numerator) x.denominator;
  abs = λ x. ratio (abs x.numerator) x.denominator;
  round = λ x.
      ratio
        (sub_ℕ ((2 * pos_part x.numerator + x.denominator) / (2 * x.denominator))
          ((2 * neg_part x.numerator + x.denominator) / (2 * x.denominator)))
        1;
  max = λ x y. if lt_ratio x y then y else x;
  min = λ x y. if lt_ratio y x then y else x;
  lt = lt_ratio;
  le = le_ratio;
  show = λ x. "";
}

-- Quotients of counts compare as the fractions do.
pub div_lt :
    (a b c e : ℕ)
    → 0 < b
    → 0 < e
    → ratio_f64.lt
        (ratio_f64.div (ratio_f64.of_int (pos a)) (ratio_f64.of_int (pos b)))
        (ratio_f64.div (ratio_f64.of_int (pos c)) (ratio_f64.of_int (pos e)))
      ≡ ltb (a * e) (c * b)
unfolding ◌*ℤ◌
div_lt a b c e p q = ground arith

pub half_le :
    (a b : ℕ)
    → 0 < b
    → ratio_f64.le
        (ratio_f64.lit 5 1)
        (ratio_f64.div (ratio_f64.of_int (pos a)) (ratio_f64.of_int (pos b)))
      ≡ leb b (2 * a)
unfolding ◌*ℤ◌
half_le a b p = ground arith
