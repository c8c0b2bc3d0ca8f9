-- ===== src/Engine/Inputs.antt =====
-- What src/poma/engine.py reads beside the broker and the ledger: settings, market data and strategies.
-- The text of an exception of a `Market` is what `_exception_detail` makes of it.
use poma.Prelude.{string_eq, ℕ, Bool, true, false, String, ◌<>◌, List, Dict, Float, ◌⊗◌, whole}
use poma.Models.{AccountSnapshot, StrategyTargetBook}
use poma.Capital.Defs.{
  StrategyCapital, AllocationError, empty_name, duplicate_name, not_finite, out_of_range,
  no_allocation, over_allocated, invalid_portfolio_value,
}
use poma.Execution.World.{Reply}

pub data TradingMode : Type 0 where
  dry_run paper live : TradingMode

abbrev pub is_dry_run : TradingMode → Bool
is_dry_run dry_run = true
is_dry_run paper = false
is_dry_run live = false

pub data ManagedCapMode : Type 0 where
  broker_total min_of_broker_total_and_cap : ManagedCapMode

-- the settings of the engine that are not in `Settings`; the allocations are the parsed mapping
pub record EngineSettings (F : Type 0) : Type 0 where
  pub trading_mode : TradingMode
  pub managed_cap_mode : ManagedCapMode
  pub managed_cap_usd : F
  pub dry_run_portfolio_value_usd : F
  pub strategy_allocations : List (String × F)
  pub max_position_pct : F
  pub max_turnover_pct : F
  pub min_trade_notional_usd : F
  pub min_weight_delta_pct : F
  pub estimated_transaction_cost_bps : F
  pub estimated_transaction_cost_fixed_usd : F
  pub max_daily_trades : ℕ

-- the latest prices of the universe and of the price history, and the warnings of the load
pub record MarketData (F : Type 0) : Type 0 where
  pub latest_prices : Dict String F
  pub warnings : List String

-- `rebalance_account_snapshot`, the market data that the strategies of some sleeves need, and the targets
-- that the strategy of a sleeve builds
pub record Market (F W : Type 0) : Type 0 where
  pub rebalance_account_snapshot : W → Reply (AccountSnapshot F) × W
  pub load : List (StrategyCapital F) → W → Reply (MarketData F) × W
  pub build_targets : StrategyCapital F → MarketData F → W → Reply (StrategyTargetBook F) × W

module _ {F : Type 0} ⦃f : Float F⦄ where
  -- the message of the `ValueError`, with names without the quotes of `repr`
  unfoldable pub allocation_error_text : AllocationError F → String
  allocation_error_text empty_name = "strategy allocation names must not be empty"
  allocation_error_text (duplicate_name name) = "duplicate strategy allocation for " <> name
  allocation_error_text (not_finite name) = "strategy allocation for " <> name <> " must be finite"
  allocation_error_text (out_of_range name) =
      "strategy allocation for " <> name <> " must be between 0 and 1"
  allocation_error_text no_allocation = "at least one strategy allocation is required"
  allocation_error_text (over_allocated total) =
      "strategy allocations sum to "
      <> f.fixed (total ⊗ whole 100) 2
      <> "%; total allocated capital must not exceed 100%"
  allocation_error_text invalid_portfolio_value = "portfolio_value_usd must be positive and finite"
