-- ===== src/Float/Clamp.antt =====
-- `f64::clamp` stays in its range.
use stocks.Base.{◌≡◌, true, false, arith}
use stocks.Float.{F64, IsIeee, clamp}

module _ {F : Type 0} ⦃d : F64 F⦄ (ieee : IsIeee d) where
  pub clamp_bounds :
      (low high x : F)
      → d.lt low high ≡ true
      → (d.lt (clamp low high x) low ≡ false) × (d.lt high (clamp low high x) ≡ false)
  clamp_bounds low high x h = ground (
    arith,
    ieee.lt_irrefl low,
    ieee.lt_irrefl high,
    ieee.not_lt_of_le low high (ieee.le_of_lt low high h),
  )
