-- ===== src/Risk/Derive.antt =====
-- The portfolio that src/risk/mod.rs derives from the operator's settings.
use stocks.Base.{◌≡◌, refl, inl, inr, true, false, List, some, Bool-cases, if◌then◌else◌}
use stocks.Float.{F64, IsIeee, nought}
use stocks.Risk.{Position, Portfolio, PortfolioSettings, hundred, derive_portfolio}

module _ {F : Type 0} ⦃d : F64 F⦄ (ieee : IsIeee d) where
  fall_not_pos :
      (equity anchor : F)
      → d.lt nought anchor ≡ true
      → d.lt nought (
          if d.le anchor equity then nought else d.div (d.mul hundred (d.sub equity anchor)) anchor)
        ≡ false
  fall_not_pos equity anchor h = elim (Bool-cases (d.le anchor equity)) [
    | inl e ↦ rw e (ieee.lt_irrefl nought)
    | inr e ↦
        rw e (ieee.div_nonpos _ anchor (ieee.hundred_nonpos _ (ieee.sub_nonpos equity anchor e)) h)
  ]

  -- Under IEEE arithmetic, for a positive account size and any positions, marks and profits, a
  -- portfolio is derived; its value is the account size, its cash share is not negative and its
  -- drawdown is not positive.
  pub derive_portfolio_bounds :
      (settings : PortfolioSettings F) (opened : List (Position F)) (realized_pnl total : F)
      → settings.account_size_usd ≡ some total
      → d.lt nought total ≡ true
      → (p : Portfolio F) × (derive_portfolio settings opened realized_pnl ≡ some p)
        × (p.total_value ≡ total)
        × (d.lt p.cash_pct nought ≡ false)
        × (d.lt nought p.drawdown_pct ≡ false)
  unfolding derive_portfolio
  derive_portfolio_bounds settings opened realized_pnl total e h =
      rw (e, ieee.not_le_of_lt nought total h)
        (
          _,
          refl,
          refl,
          ieee.div_nonneg _ total (ieee.hundred_nonneg _ (ieee.zero_le_max _)) h,
          fall_not_pos _ _ (ieee.max_pos _ total h),
        )
