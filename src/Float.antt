-- ===== src/Float.antt =====
-- `f64`, which the language gives and the program does not: a type with the operations that the
-- source calls. Nothing is assumed of a rounding; `IsIeee` names the documented facts on comparisons
-- that single theorems use, each true of IEEE 754 doubles with NaN among them.
pub mod Micros
pub mod Ratios
pub mod Clamp
pub mod Monotone
use stocks.Base.{String, ℕ, ◌≡◌, Bool, true, false, ◌&&◌, List, [], ◌∷◌, if◌then◌else◌}
use stocks.Base.Int.{ℤ}

pub record F64 (F : Type 0) : Type 0 where
  -- The decimal literal n / 10 ^ k.
  pub lit : ℕ → ℕ → F
  pub epsilon : F
  pub of_int : ℤ → F
  pub add : F → F → F
  pub sub : F → F → F
  pub mul : F → F → F
  pub div : F → F → F
  pub neg : F → F
  pub abs : F → F
  -- To the nearest whole number.
  pub round : F → F
  pub max : F → F → F
  pub min : F → F → F
  pub lt : F → F → Bool
  pub le : F → F → Bool
  -- `Display`.
  pub show : F → String

-- `sqrt` and `exp`, and the constants `f64::MIN` and `f64::MAX`.
pub record F64Math (F : Type 0) : Type 0 where
  pub sqrt : F → F
  pub exp : F → F
  pub lowest : F
  pub highest : F

module _ {F : Type 0} ⦃d : F64 F⦄ where
  -- `==`, false of NaN.
  abbrev pub eq : F → F → Bool
  eq x y = d.le x y && d.le y x

  abbrev pub nought : F
  nought = d.lit 0 0

  abbrev pub one : F
  one = d.lit 1 0

  -- The tolerance 0.000_001 of src/automation.
  abbrev pub micro : F
  micro = d.lit 1 6

  -- `f64::clamp`: two comparisons, both false of NaN.
  abbrev pub clamp : F → F → F → F
  clamp low high x = let y = if d.lt x low then low else x in if d.lt high y then high else y

  abbrev pub sum_from : F → List F → F
  sum_from acc [] = acc
  sum_from acc (x ∷ xs) = sum_from (d.add acc x) xs

  -- `iter().sum::<f64>()`, from the left. (The sign of a zero is not told apart.)
  abbrev pub sum : List F → F
  sum xs = sum_from nought xs

-- Facts on comparisons; NaN is the value that is not `<=` itself.
pub record IsIeee {F : Type 0} (d : F64 F) : Type 0 where
  pub lt_irrefl : (x : F) → d.lt x x ≡ false
  pub le_of_lt : (x y : F) → d.lt x y ≡ true → d.le x y ≡ true
  pub not_lt_of_le : (x y : F) → d.le x y ≡ true → d.lt y x ≡ false
  pub le_trans : (x y z : F) → d.le x y ≡ true → d.le y z ≡ true → d.le x z ≡ true
  pub lt_of_lt_of_le : (x y z : F) → d.lt x y ≡ true → d.le y z ≡ true → d.lt x z ≡ true
  pub max_mono : (x y z : F) → d.le x y ≡ true → d.le (d.max x z) (d.max y z) ≡ true
  pub lt_add_mono :
      (b z x y : F) → d.lt b (d.add z x) ≡ true → d.le x y ≡ true → d.lt b (d.add z y) ≡ true
  pub mul_one : (x : F) → d.mul x (d.lit 1 0) ≡ x
  pub min_self : (x : F) → d.min x x ≡ x
  pub max_of_lt : (x y : F) → d.lt y x ≡ true → d.max x y ≡ x
  pub sub_self : (x : F) → d.le (d.max (d.sub x x) (d.lit 0 0)) (d.lit 1 6) ≡ true
  pub lt_add_micro : (x : F) → d.lt (d.add x (d.lit 1 6)) x ≡ false
  pub zero_lt_micro : d.lt (d.lit 0 0) (d.lit 1 6) ≡ true
  pub not_le_of_lt : (x y : F) → d.lt x y ≡ true → d.le y x ≡ false
  pub zero_le_max : (x : F) → d.le (d.lit 0 0) (d.max x (d.lit 0 0)) ≡ true
  pub max_pos : (x y : F) → d.lt (d.lit 0 0) y ≡ true → d.lt (d.lit 0 0) (d.max x y) ≡ true
  pub hundred_nonneg :
      (x : F) → d.le (d.lit 0 0) x ≡ true → d.le (d.lit 0 0) (d.mul (d.lit 100 0) x) ≡ true
  pub hundred_nonpos :
      (x : F) → d.lt (d.lit 0 0) x ≡ false → d.lt (d.lit 0 0) (d.mul (d.lit 100 0) x) ≡ false
  pub div_nonneg :
      (x a : F)
      → d.le (d.lit 0 0) x ≡ true
      → d.lt (d.lit 0 0) a ≡ true
      → d.lt (d.div x a) (d.lit 0 0) ≡ false
  pub div_nonpos :
      (x a : F)
      → d.lt (d.lit 0 0) x ≡ false
      → d.lt (d.lit 0 0) a ≡ true
      → d.lt (d.lit 0 0) (d.div x a) ≡ false
  pub sub_nonpos : (x y : F) → d.le y x ≡ false → d.lt (d.lit 0 0) (d.sub x y) ≡ false
  pub zero_lt_one : d.lt (d.lit 0 0) (d.lit 1 0) ≡ true
