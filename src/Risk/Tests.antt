-- ===== src/Risk/Tests.antt =====
-- An intent against a portfolio in drawdown.
use stocks.Base.{◌≡◌, ◌↔◌, true, false, List, [], ◌∷◌, refl, some}
use stocks.Base.Int.{pos, negsuc}
use stocks.Float.{nought, one}
use stocks.Float.Micros.{Micros, micros_f64, Micros-IsIeee}
use stocks.Risk.{
  DrawdownBrake, Config, Position, Intent, Portfolio, evaluate, PortfolioSettings, derive_portfolio,
}
use stocks.Risk.Derive.{derive_portfolio_bounds}
use stocks.Risk.Veto.{Agrees, IsOverLimit, evaluate-veto_iff}
use stocks.Risk.Scale.{hard, IsScaled, IsLeast, evaluate-subsector_soft, evaluate-size_mult}

abbrev brakes : List (DrawdownBrake Micros)
brakes =
    record { at_pct = negsuc 4_999_999; size_mult = pos 500_000; halt_new = false }
    ∷ record { at_pct = negsuc 19_999_999; size_mult = pos 0; halt_new = true }
    ∷ []

abbrev config : Config Micros
config = record {
  single_name_delta_notional_pct = pos 10_000_000;
  options_premium_aggregate_pct = pos 5_000_000;
  cash_floor_pct = pos 20_000_000;
  drawdown_brake = brakes;
  subsector_cluster_pct = pos 15_000_000;
  concurrent_positions = 3;
}

abbrev positions : List (Position Micros)
positions =
    record {
      symbol = "MU";
      cluster = "memory";
      instrument = "shares";
      delta_notional = pos 4_000_000_000;
      premium_at_risk = pos 0;
    }
    ∷ []

abbrev intent : Intent Micros
intent = record {
  symbol = "SNDK";
  cluster = "memory";
  instrument = "shares";
  delta_notional = pos 3_000_000_000;
  premium_at_risk = pos 0;
}

abbrev portfolio : Portfolio Micros
portfolio = record {
  total_value = pos 100_000_000_000;
  cash_pct = pos 60_000_000;
  drawdown_pct = negsuc 7_999_999;
}

evaluate-veto_iff_example :
    Agrees (evaluate intent positions portfolio config)
    × (((evaluate intent positions portfolio config).veto ≡ true)
        ↔ IsOverLimit intent positions portfolio config)
evaluate-veto_iff_example = evaluate-veto_iff intent positions portfolio config

evaluate-subsector_soft_example :
    hard (evaluate intent positions portfolio (record config { subsector_cluster_pct = pos 1 }))
    ≡ hard (evaluate intent positions portfolio config)
evaluate-subsector_soft_example = evaluate-subsector_soft intent positions portfolio config (pos 1)

evaluate-size_mult_example :
    IsScaled portfolio brakes one (evaluate intent positions portfolio config).size_mult
    × IsLeast portfolio brakes (evaluate intent positions portfolio config).size_mult
evaluate-size_mult_example = evaluate-size_mult Micros-IsIeee intent positions portfolio config

abbrev settings : PortfolioSettings Micros
settings = record {
  account_size_usd = some (pos 100_000_000_000);
  high_water_mark_usd = some (pos 120_000_000_000);
}

derive_portfolio_bounds_example :
    (p : Portfolio Micros) × (derive_portfolio settings positions (negsuc 4_999_999_999) ≡ some p)
    × (p.total_value ≡ pos 100_000_000_000)
    × (micros_f64.lt p.cash_pct nought ≡ false)
    × (micros_f64.lt nought p.drawdown_pct ≡ false)
derive_portfolio_bounds_example =
    derive_portfolio_bounds Micros-IsIeee settings positions (negsuc 4_999_999_999)
      (pos 100_000_000_000) refl refl
