-- ===== src/Automation/Runner.antt =====
-- src/automation/mod.rs: how the strategy runner feeds the risk overlay and the capital allocator into
-- the policy proof. What it reads from the store is one record.
pub mod Gate
pub mod Session
pub mod Freshness
pub mod Pass
pub mod Tests
use stocks.Base.{
  Bool, true, false, List, [], ◌∷◌, ◌++◌, Option, none, some, String, if◌then◌else◌, unwrap_or,
}
use stocks.Float.{F64, nought}
use stocks.Automation.Allocator.{
  Uuid, AllocationLimits, SleeveAllocation, AllocationRequest, AllocationDecision,
  evaluate_allocation,
}
use stocks.Automation.Policy.Types.{
  TargetSide, StrategyDecision, TradePermissionInput, RiskPolicyState, CapitalPolicyState,
}
use stocks.Risk.{
  Config, Position, Intent, Portfolio, PortfolioSettings, Decision, derive_portfolio, evaluate,
}

-- The active configuration of the overlay, where it can be read.
pub data RiskConfig (F : Type 0) : Type 0 where
  config : Config F → RiskConfig F
  config_invalid config_unavailable : RiskConfig F

pub record StoreReads (F : Type 0) : Type 0 where
  pub positions : List (Position F)
  pub settings : PortfolioSettings F
  pub realized_pnl : F
  pub sleeve_id : Option Uuid
  pub allocation_limits : AllocationLimits F
  pub sleeve_allocations : List (SleeveAllocation F)
  pub risk_config : RiskConfig F
  pub cluster : String

abbrev pub unavailable : {F : Type 0} ⦃d : F64 F⦄ → String → RiskPolicyState F
unavailable reason = record {
  veto = true;
  reasons = reason ∷ [];
  warnings = [];
  size_mult = nought;
}

abbrev pub demo_warnings : Bool → List String
demo_warnings is_demo = if is_demo then "portfolio_demo" ∷ [] else []

module _ {F : Type 0} ⦃d : F64 F⦄ where
  abbrev pub demo_portfolio : Portfolio F
  demo_portfolio = record {
    total_value = d.lit 100000 0;
    cash_pct = d.lit 50 0;
    drawdown_pct = nought;
  }

  abbrev pub or_demo : Option (Portfolio F) → Portfolio F × Bool
  or_demo none = (demo_portfolio, true)
  or_demo (some portfolio) = (portfolio, false)

  unfoldable pub portfolio_of : StoreReads F → Portfolio F × Bool
  portfolio_of reads = or_demo (derive_portfolio reads.settings reads.positions reads.realized_pnl)

  abbrev pub scaled_by : F → Option F → Option F
  scaled_by total none = none
  scaled_by total (some weight) = some (d.mul weight total)

  unfoldable pub target_notional_usd : StoreReads F → StrategyDecision F → Option F
  target_notional_usd reads decision =
      scaled_by (portfolio_of reads).0.total_value decision.target_weight_pct

  unfoldable pub allocation :
      StoreReads F → TradePermissionInput F → StrategyDecision F → AllocationDecision
  allocation reads permission decision =
      evaluate_allocation
        (record {
          sleeve_id = reads.sleeve_id;
          symbol = permission.symbol;
          target_notional_usd = unwrap_or (target_notional_usd reads decision) nought;
          portfolio_value_usd = (portfolio_of reads).0.total_value;
        })
        reads.sleeve_allocations reads.allocation_limits

  abbrev pub long_notional : Option TargetSide → Option F → F
  long_notional (some TargetSide.long) notional = unwrap_or notional nought
  long_notional _ notional = nought

  unfoldable pub intent_of : StoreReads F → TradePermissionInput F → StrategyDecision F → Intent F
  intent_of reads permission decision = record {
    symbol = permission.symbol;
    cluster = reads.cluster;
    instrument = "equity";
    delta_notional = long_notional decision.target_side (target_notional_usd reads decision);
    premium_at_risk = nought;
  }

  unfoldable pub risk_state : Decision F → Bool → RiskPolicyState F
  risk_state e is_demo = record {
    veto = e.veto;
    reasons = e.reasons;
    warnings = e.warnings ++ demo_warnings is_demo;
    size_mult = e.size_mult;
  }

  unfoldable pub risk_policy_state :
      StoreReads F → TradePermissionInput F → StrategyDecision F → RiskConfig F → RiskPolicyState F
  risk_policy_state reads permission decision config_invalid = unavailable "config_invalid"
  risk_policy_state reads permission decision config_unavailable = unavailable "config_unavailable"
  risk_policy_state reads permission decision (config cfg) =
      risk_state
        (evaluate (intent_of reads permission decision) reads.positions (portfolio_of reads).0 cfg)
        (portfolio_of reads).1

  unfoldable pub capital_policy_state :
      StoreReads F → TradePermissionInput F → StrategyDecision F → CapitalPolicyState F
  capital_policy_state reads permission decision = record {
    target_weight_pct = decision.target_weight_pct;
    max_allocation_pct = permission.max_allocation_pct;
    target_notional_usd = target_notional_usd reads decision;
    max_notional_usd = permission.max_notional_usd;
    allocator_blocked_reasons = (allocation reads permission decision).blocked_reasons;
  }

  -- Both states, in the order of the source's pair.
  unfoldable pub risk_and_capital_policy_state :
      StoreReads F
      → TradePermissionInput F
      → StrategyDecision F
      → RiskPolicyState F × CapitalPolicyState F
  risk_and_capital_policy_state reads permission decision = (
    risk_policy_state reads permission decision reads.risk_config,
    capital_policy_state reads permission decision,
  )
