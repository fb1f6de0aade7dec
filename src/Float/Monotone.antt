-- ===== src/Float/Monotone.antt =====
-- Further documented facts of `f64`, on sums: each is true of IEEE 754 doubles, rounding, infinities
-- and NaN included.
use stocks.Base.{ℕ, ◌≤◌, ◌≡◌, true, false, if◌then◌else◌, arith}
use stocks.Float.{F64, clamp}

-- A value that is not NaN.
module _ {F : Type 0} ⦃d : F64 F⦄ where
  abbrev pub IsNumber : F → Type 0
  IsNumber x = d.le x x ≡ true

pub record IsMonotone {F : Type 0} (d : F64 F) : Type 0 where
  pub le_trans : (x y z : F) → d.le x y ≡ true → d.le y z ≡ true → d.le x z ≡ true
  pub number_left : (x y : F) → d.le x y ≡ true → d.le x x ≡ true
  pub number_right : (x y : F) → d.le x y ≡ true → d.le y y ≡ true
  pub le_of_lt : (x y : F) → d.lt x y ≡ true → d.le x y ≡ true
  pub le_of_not_lt :
      (x y : F) → d.le x x ≡ true → d.le y y ≡ true → d.lt x y ≡ false → d.le y x ≡ true
  -- A whole literal is a number, and literals are in the order of what they denote.
  pub lit_mono : (m n : ℕ) → m ≤ n → d.le (d.lit m 0) (d.lit n 0) ≡ true
  -- A sum is a number only if its parts are, and adding a small literal to a number gives one.
  pub number_of_add : (x y : F) → d.le (d.add x y) (d.add x y) ≡ true → d.le x x ≡ true
  pub number_of_sub : (x y : F) → d.le (d.sub x y) (d.sub x y) ≡ true → d.le x x ≡ true
  pub number_add_lit :
      (x : F) (n : ℕ)
      → n ≤ 100
      → d.le x x ≡ true
      → d.le (d.add x (d.lit n 0)) (d.add x (d.lit n 0)) ≡ true
  -- Sums keep the order, as far as they are numbers.
  pub add_mono_left :
      (x y z : F)
      → d.le x y ≡ true
      → d.le (d.add x z) (d.add x z) ≡ true
      → d.le (d.add y z) (d.add y z) ≡ true
      → d.le (d.add x z) (d.add y z) ≡ true
  pub add_mono_lit :
      (x : F) (m n : ℕ)
      → d.le x x ≡ true
      → m ≤ n
      → n ≤ 100
      → d.le (d.add x (d.lit m 0)) (d.add x (d.lit n 0)) ≡ true
  pub le_add_lit : (x : F) (n : ℕ) → n ≤ 100 → d.le x x ≡ true → d.le x (d.add x (d.lit n 0)) ≡ true
  pub sub_lit_le : (x : F) (n : ℕ) → n ≤ 100 → d.le x x ≡ true → d.le (d.sub x (d.lit n 0)) x ≡ true

module _ {F : Type 0} ⦃d : F64 F⦄ (mono : IsMonotone d) where
  floor_mono :
      (low x y : F)
      → d.le low low ≡ true
      → d.le x y ≡ true
      → d.le (if d.lt x low then low else x) (if d.lt y low then low else y) ≡ true
  floor_mono low x y number h = ground (
    arith,
    mono.le_of_not_lt y low (mono.number_right x y h) number,
    mono.le_of_lt y low,
    mono.le_trans x y low h,
  )

  ceiling_mono :
      (high x y : F)
      → d.le high high ≡ true
      → d.le x y ≡ true
      → d.le (if d.lt high x then high else x) (if d.lt high y then high else y) ≡ true
  ceiling_mono high x y number h = ground (
    arith,
    mono.le_of_not_lt high x number (mono.number_left x y h),
    mono.le_of_lt high x,
    mono.le_trans high x y,
    mono.le_of_not_lt high y number (mono.number_right x y h),
    mono.le_of_lt high y,
  )

  pub clamp_mono :
      (low high x y : F)
      → d.le low low ≡ true
      → d.le high high ≡ true
      → d.le x y ≡ true
      → d.le (clamp low high x) (clamp low high y) ≡ true
  clamp_mono low high x y is_low is_high h =
      ceiling_mono high _ _ is_high (floor_mono low x y is_low h)
