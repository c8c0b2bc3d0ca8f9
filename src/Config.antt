-- ===== src/Config.antt =====
-- src/poma/config.py: the settings that the modelled parts read, after validation.
-- `non_fractional_tickers` is the text split at its commas, stripped and in upper case.
use poma.Prelude.{ℕ, Bool, true, false, String, List}

pub data StaleOrderPolicy : Type 0 where
  block cancel : StaleOrderPolicy

pub data ExecutionPriceSource : Type 0 where
  ibkr snapshot : ExecutionPriceSource

pub data ExecutionPriceBasis : Type 0 where
  side_of_market midpoint last : ExecutionPriceBasis

abbrev pub is_ibkr : ExecutionPriceSource → Bool
is_ibkr ibkr = true
is_ibkr snapshot = false

abbrev pub source_value : ExecutionPriceSource → String
source_value ibkr = "ibkr"
source_value snapshot = "snapshot"

abbrev pub basis_value : ExecutionPriceBasis → String
basis_value side_of_market = "side_of_market"
basis_value midpoint = "midpoint"
basis_value last = "last"

pub record Settings (F : Type 0) : Type 0 where
  pub limit_offset_bps : F
  pub max_order_notional_usd : F
  pub non_fractional_tickers : List String
  pub fractional_shares : Bool
  pub auto_replace_unfilled_orders : Bool
  pub replace_after_seconds : ℕ
  pub cancel_after_seconds : ℕ
  pub replace_price_improvement_bps : F
  pub max_reprice_adverse_bps : F
  pub stale_order_policy : StaleOrderPolicy
  pub execution_price_source : ExecutionPriceSource
  pub execution_price_basis : ExecutionPriceBasis
  pub execution_quote_max_age_seconds : ℕ
  pub execution_max_spread_bps : F
  pub execution_wide_spread_max_bps : F
  pub execution_limit_aggression : F
  pub allow_delayed_execution_quotes : Bool
