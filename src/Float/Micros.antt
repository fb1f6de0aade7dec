-- ===== src/Float/Micros.antt =====
-- A type that meets the interface of `f64`: whole millionths, cut off towards zero. It shows that the
-- theorems with a hypothesis on `f64` can be applied, and it runs the tests.
use Prim.Native.Nat.{◌/◌}
use stocks.Base.{true, false, ℕ, ◌+◌, ◌*◌, ◌^◌, ◌≡◌, ◌≤◌, refl, arith, if◌then◌else◌}
use stocks.Base.Int.{
  ℤ, pos, negsuc, pos_part, neg_part, sub_ℕ, ◌+ℤ◌, ◌-ℤ◌, abs, ltb_ℤ, leb_ℤ, max_ℤ, +ℤ_parts,
  -ℤ_parts,
}
use stocks.Float.{F64, IsIeee}
use stocks.Float.Monotone.{IsMonotone}

abbrev pub Micros : Type 0
Micros = ℤ

abbrev scale : ℕ
scale = 1_000_000

-- The quotient of two integers, towards zero.
abbrev quotient : ℤ → ℕ → ℤ
quotient a n = sub_ℕ (pos_part a / n) (neg_part a / n)

abbrev times : ℤ → ℤ → ℤ
times a b =
    quotient
      (sub_ℕ (pos_part a * pos_part b + neg_part a * neg_part b)
        (pos_part a * neg_part b + neg_part a * pos_part b))
      scale

abbrev over : ℤ → ℤ → ℤ
over a (pos n) = quotient (sub_ℕ (pos_part a * scale) (neg_part a * scale)) n
over a (negsuc n) = quotient (sub_ℕ (neg_part a * scale) (pos_part a * scale)) (n + 1)

-- To the nearest million, away from zero in the middle.
abbrev over_scale : ℤ → ℤ
over_scale a =
    sub_ℕ ((pos_part a + scale / 2) / scale * scale) ((neg_part a + scale / 2) / scale * scale)

-- One times a number is the number.
times_one : (x : ℤ) → times x (pos scale) ≡ x
times_one (pos n) = ground arith
times_one (negsuc n) = ground arith

instance abbrev pub micros_f64 : F64 Micros
micros_f64 = record {
  lit = λ n k. pos (n * scale / 10 ^ k);
  epsilon = pos 0;
  of_int = λ a. sub_ℕ (pos_part a * scale) (neg_part a * scale);
  add = λ a b. a +ℤ b;
  sub = λ a b. a -ℤ b;
  mul = times;
  div = over;
  neg = λ a. sub_ℕ (neg_part a) (pos_part a);
  abs = abs;
  round = λ a. over_scale a;
  max = max_ℤ;
  min = λ a b. if ltb_ℤ b a then b else a;
  lt = ltb_ℤ;
  le = leb_ℤ;
  show = λ a. "";
}

hundred_not_neg : (x : ℤ) → leb_ℤ (pos 0) x ≡ true → leb_ℤ (pos 0) (times (pos 100000000) x) ≡ true
hundred_not_neg (pos n) h = ground arith
hundred_not_neg (negsuc n) h = ground arith

hundred_not_pos :
    (x : ℤ) → ltb_ℤ (pos 0) x ≡ false → ltb_ℤ (pos 0) (times (pos 100000000) x) ≡ false
hundred_not_pos (pos n) h = ground arith
hundred_not_pos (negsuc n) h = ground arith

over_not_neg :
    (x a : ℤ) → leb_ℤ (pos 0) x ≡ true → ltb_ℤ (pos 0) a ≡ true → ltb_ℤ (over x a) (pos 0) ≡ false
over_not_neg (pos n) (pos m) h k = ground arith
over_not_neg (negsuc n) a h k = ground arith
over_not_neg (pos n) (negsuc m) h k = ground arith

over_not_pos :
    (x a : ℤ) → ltb_ℤ (pos 0) x ≡ false → ltb_ℤ (pos 0) a ≡ true → ltb_ℤ (pos 0) (over x a) ≡ false
over_not_pos (pos n) (pos m) h k = ground arith
over_not_pos (negsuc n) (pos m) h k = ground arith
over_not_pos x (negsuc m) h k = ground arith

pub Micros-IsIeee : IsIeee micros_f64
Micros-IsIeee = record {
  lt_irrefl = λ x. ground arith;
  le_of_lt = λ x y h. ground arith;
  not_lt_of_le = λ x y h. ground arith;
  le_trans = λ x y z h k. ground arith;
  lt_of_lt_of_le = λ x y z h k. ground arith;
  max_mono = λ x y z h. ground arith;
  lt_add_mono = λ b z x y h k. ground (arith, +ℤ_parts z x, +ℤ_parts z y);
  mul_one = times_one;
  min_self = λ x. ground arith;
  max_of_lt = λ x y h. ground arith;
  sub_self = λ x. ground (arith, -ℤ_parts x x);
  lt_add_micro = λ x. ground (arith, +ℤ_parts x (pos 1));
  zero_lt_micro = refl;
  not_le_of_lt = λ x y h. ground arith;
  zero_le_max = λ x. ground arith;
  max_pos = λ x y h. ground arith;
  hundred_nonneg = hundred_not_neg;
  hundred_nonpos = hundred_not_pos;
  div_nonneg = over_not_neg;
  div_nonpos = over_not_pos;
  sub_nonpos = λ x y h. ground (arith, -ℤ_parts x y);
  zero_lt_one = refl;
}

leb_refl : (x : ℤ) → leb_ℤ x x ≡ true
leb_refl x = ground arith

micros_of : (n : ℕ) → n * scale / 10 ^ 0 ≡ n * 1_000_000
micros_of n = omega arith

lit_mono : (m n : ℕ) → m ≤ n → leb_ℤ (pos (m * scale / 10 ^ 0)) (pos (n * scale / 10 ^ 0)) ≡ true
lit_mono m n h = rw (micros_of m, micros_of n) (ground arith)

add_lit_mono :
    (x : ℤ) (m n : ℕ)
    → m ≤ n
    → leb_ℤ (x +ℤ pos (m * scale / 10 ^ 0)) (x +ℤ pos (n * scale / 10 ^ 0)) ≡ true
add_lit_mono x m n h =
    rw (micros_of m, micros_of n)
      (ground (arith, +ℤ_parts x (pos (m * 1_000_000)), +ℤ_parts x (pos (n * 1_000_000))))

le_add_lit : (x : ℤ) (n : ℕ) → leb_ℤ x (x +ℤ pos (n * scale / 10 ^ 0)) ≡ true
le_add_lit x n = rw (micros_of n) (ground (arith, +ℤ_parts x (pos (n * 1_000_000))))

sub_lit_le : (x : ℤ) (n : ℕ) → leb_ℤ (x -ℤ pos (n * scale / 10 ^ 0)) x ≡ true
sub_lit_le x n = rw (micros_of n) (ground (arith, -ℤ_parts x (pos (n * 1_000_000))))

pub Micros-IsMonotone : IsMonotone micros_f64
Micros-IsMonotone = record {
  le_trans = λ x y z h k. ground arith;
  number_left = λ x y h. ground arith;
  number_right = λ x y h. ground arith;
  le_of_lt = λ x y h. ground arith;
  le_of_not_lt = λ x y h k e. ground arith;
  lit_mono = λ m n h. lit_mono m n h;
  number_of_add = λ x y h. ground arith;
  number_of_sub = λ x y h. ground arith;
  number_add_lit = λ x n b h. leb_refl (micros_f64.add x (micros_f64.lit n 0));
  add_mono_left = λ x y z h k e. ground (arith, +ℤ_parts x z, +ℤ_parts y z);
  add_mono_lit = λ x m n h le b. add_lit_mono x m n le;
  le_add_lit = λ x n b h. le_add_lit x n;
  sub_lit_le = λ x n b h. sub_lit_le x n;
}

pub Micros-IsNumber : (x : Micros) → micros_f64.le x x ≡ true
Micros-IsNumber x = leb_refl x
