-- ===== src/Risk.antt =====
-- src/risk/mod.rs: the portfolio that the operator's settings give, and the overlay of hard and soft
-- limits on a proposed intent. `evaluate` is the chain of its checks, each from decision to decision.
pub mod Veto
pub mod Scale
pub mod Derive
mod Tests
use Prim.Native.String.{◌++◌ as append}
use stocks.Base.{
  ℕ, suc, ◌-◌, ◌^◌, Bool, true, false, not, ◌&&◌, ◌||◌, List, [], ◌∷◌, ◌++◌, map, Option, none,
  some, String, str_eq, if◌then◌else◌, unwrap_or, any, keep, ltb, leb,
}
use stocks.Float.{F64, nought, one, sum, sum_from}

pub record DrawdownBrake (F : Type 0) : Type 0 where
  pub at_pct : F
  pub size_mult : F
  pub halt_new : Bool

pub record Config (F : Type 0) : Type 0 where
  pub single_name_delta_notional_pct : F
  pub options_premium_aggregate_pct : F
  pub cash_floor_pct : F
  pub drawdown_brake : List (DrawdownBrake F)
  pub subsector_cluster_pct : F
  pub concurrent_positions : ℕ

pub record Position (F : Type 0) : Type 0 where
  pub symbol : String
  pub cluster : String
  pub instrument : String
  pub delta_notional : F
  pub premium_at_risk : F

pub record Intent (F : Type 0) : Type 0 where
  pub symbol : String
  pub cluster : String
  pub instrument : String
  pub delta_notional : F
  pub premium_at_risk : F

pub record Portfolio (F : Type 0) : Type 0 where
  pub total_value : F
  pub cash_pct : F
  pub drawdown_pct : F

pub record PortfolioSettings (F : Type 0) : Type 0 where
  pub account_size_usd : Option F
  pub high_water_mark_usd : Option F

pub record Decision (F : Type 0) : Type 0 where
  pub veto : Bool
  pub reasons : List String
  pub warnings : List String
  pub size_mult : F

abbrev pub contains : String → List String → Bool
contains symbol symbols = any (λ s. str_eq s symbol) symbols

-- The size of the set of the symbols.
abbrev pub distinct : List String → ℕ
distinct [] = 0
distinct (x ∷ xs) = let rest = distinct xs in if contains x xs then rest else suc rest

-- `u32::try_from(n).unwrap_or(u32::MAX)`.
abbrev pub saturated_u32 : ℕ → ℕ
saturated_u32 n = if ltb n (2 ^ 32) then n else 2 ^ 32 - 1

-- `d.veto = true; d.reasons.push(reason);` under a test.
unfoldable pub veto_when : {F : Type 0} → Bool → String → Decision F → Decision F
veto_when b reason d =
    if b then record d { veto = true; reasons = d.reasons ++ (reason ∷ []) } else d

unfoldable pub warn_when : {F : Type 0} → Bool → String → Decision F → Decision F
warn_when b text d = if b then record d { warnings = d.warnings ++ (text ∷ []) } else d

module _ {F : Type 0} ⦃d : F64 F⦄ where
  abbrev pub hundred : F
  hundred = d.lit 100 0

  unfoldable pub derive_portfolio :
      PortfolioSettings F → List (Position F) → F → Option (Portfolio F)
  derive_portfolio settings opened realized_pnl = elim settings.account_size_usd [
    | none ↦ none
    | some total ↦
        if d.le total nought
        then none
        else let consumed = sum (map (λ p. d.add p.delta_notional p.premium_at_risk) opened) in
          let cash = d.max (d.sub total consumed) nought in
          let mark = unwrap_or settings.high_water_mark_usd total in
          let anchor = d.max mark total in
          let current_equity = d.add total realized_pnl in
          some (record {
            total_value = total;
            cash_pct = d.div (d.mul hundred cash) total;
            drawdown_pct =
                if d.le anchor current_equity
                then nought
                else d.div (d.mul hundred (d.sub current_equity anchor)) anchor;
          })
  ]

  abbrev pub default_decision : Decision F
  default_decision = record { veto = false; reasons = []; warnings = []; size_mult = one }

  -- f64 equality with 0.
  abbrev pub is_nought : F → Bool
  is_nought x = d.le x nought && d.le nought x

  abbrev pub pct : Portfolio F → F → F
  pct port v =
      if is_nought port.total_value then nought else d.div (d.mul hundred v) port.total_value

  unfoldable pub single_name_exceeded : Intent F → List (Position F) → Portfolio F → Config F → Bool
  single_name_exceeded intent positions port cfg =
      let existing =
        sum (map (λ p. p.delta_notional) (keep (λ p. str_eq p.symbol intent.symbol) positions)) in
      d.lt nought cfg.single_name_delta_notional_pct
      && d.lt cfg.single_name_delta_notional_pct (pct port (d.add existing intent.delta_notional))

  unfoldable pub premium_exceeded : Intent F → List (Position F) → Portfolio F → Config F → Bool
  premium_exceeded intent positions port cfg =
      let agg = sum (map (λ p. p.premium_at_risk) positions) in
      d.lt nought cfg.options_premium_aggregate_pct
      && d.lt cfg.options_premium_aggregate_pct (pct port (d.add agg intent.premium_at_risk))

  unfoldable pub below_cash_floor : Intent F → Portfolio F → Config F → Bool
  below_cash_floor intent port cfg =
      let consumed = d.add intent.delta_notional intent.premium_at_risk in
      let post_cash = d.sub port.cash_pct (pct port consumed) in
      d.lt nought cfg.cash_floor_pct
      && (d.lt port.cash_pct cfg.cash_floor_pct || d.lt post_cash cfg.cash_floor_pct)

  -- The brakes that hold at the portfolio's drawdown.
  abbrev pub matches : Portfolio F → DrawdownBrake F → Bool
  matches port b = d.le port.drawdown_pct b.at_pct

  abbrev pub scales : Decision F → DrawdownBrake F → Bool
  scales e b = d.lt nought b.size_mult && d.lt b.size_mult e.size_mult

  abbrev pub scale_text : DrawdownBrake F → String
  scale_text b = append (append "drawdown brake: size scaled to " (d.show b.size_mult)) "x"

  unfoldable pub scale_by : DrawdownBrake F → Decision F → Decision F
  scale_by b e =
      if scales e b
      then record e { size_mult = b.size_mult; warnings = e.warnings ++ (scale_text b ∷ []) }
      else e

  unfoldable pub brake : Portfolio F → DrawdownBrake F → Decision F → Decision F
  brake port b e =
      if matches port b then scale_by b (veto_when b.halt_new "drawdown_brake_halt" e) else e

  unfoldable pub brakes : Portfolio F → List (DrawdownBrake F) → Decision F → Decision F
  brakes port [] e = e
  brakes port (b ∷ bs) e = brakes port bs (brake port b e)

  unfoldable pub cluster_exceeded : Intent F → List (Position F) → Portfolio F → Config F → Bool
  cluster_exceeded intent positions port cfg =
      let total =
        sum_from intent.delta_notional
          (map (λ p. p.delta_notional) (keep (λ p. str_eq p.cluster intent.cluster) positions)) in
      (d.lt nought cfg.subsector_cluster_pct && not (str_eq intent.cluster ""))
      && d.lt cfg.subsector_cluster_pct (pct port total)

  abbrev pub cluster_text : Intent F → Config F → String
  cluster_text intent cfg =
      append
        (append (append (append "sub-sector " intent.cluster) " exposure exceeds ")
          (d.show cfg.subsector_cluster_pct))
        "%"

  unfoldable pub too_many_positions : Intent F → List (Position F) → Config F → Bool
  too_many_positions intent positions cfg =
      let existing = map (λ p. p.symbol) positions in
      ltb 0 cfg.concurrent_positions
      && (not (contains intent.symbol existing)
          && leb cfg.concurrent_positions (saturated_u32 (distinct existing)))

  unfoldable pub evaluate : Intent F → List (Position F) → Portfolio F → Config F → Decision F
  evaluate intent positions port cfg =
      let d1 =
        veto_when (single_name_exceeded intent positions port cfg) "single_name_delta_notional_pct"
          default_decision in
      let d2 =
        veto_when (premium_exceeded intent positions port cfg) "options_premium_aggregate_pct" d1 in
      let d3 = veto_when (below_cash_floor intent port cfg) "cash_floor_pct" d2 in
      let d4 = brakes port cfg.drawdown_brake d3 in
      let d5 =
        warn_when (cluster_exceeded intent positions port cfg) (cluster_text intent cfg) d4 in
      veto_when (too_many_positions intent positions cfg) "concurrent_positions" d5
