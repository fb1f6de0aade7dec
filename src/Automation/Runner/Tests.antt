-- ===== src/Automation/Runner/Tests.antt =====
-- An unconfigured portfolio, so the demo one, with all limits off.
use stocks.Base.{[], none}
use stocks.Base.Int.{pos}
use stocks.Float.Micros.{Micros, micros_f64}
use stocks.Risk.{Config}
use stocks.Automation.Runner.{StoreReads, config}

abbrev limits_off : Config Micros
limits_off = record {
  single_name_delta_notional_pct = pos 0;
  options_premium_aggregate_pct = pos 0;
  cash_floor_pct = pos 0;
  drawdown_brake = [];
  subsector_cluster_pct = pos 0;
  concurrent_positions = 0;
}

abbrev pub reads : StoreReads Micros
reads = record {
  positions = [];
  settings = record { account_size_usd = none; high_water_mark_usd = none };
  realized_pnl = pos 0;
  sleeve_id = none;
  allocation_limits = record {
    max_strategy_allocation_pct = none;
    max_symbol_allocation_pct = none;
    max_portfolio_allocation_pct = none;
  };
  sleeve_allocations = [];
  risk_config = config limits_off;
  cluster = "";
}
