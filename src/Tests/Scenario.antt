-- ===== src/Tests/Scenario.antt =====
-- A broker that accepts every order, a plan of one sell and one buy, and the settings of a live run.
use poma.Prelude.{ℕ, ◌+◌, true, false, String, none, some, List, [], ◌∷◌, Dict, map, show}
use poma.Models.{OrderSide, buy, sell, ProposedTrade, ExecutionQuote, OrderResult, RebalancePlan}
use poma.Config.{Settings, block, ibkr, side_of_market}
use poma.Store.Defs.{OrderStore}
use poma.Store.History.{new_store}
use poma.Execution.World.{Broker, World, ok, failed}
use poma.Tests.Fixed.{ℤ, fixed_float, usd}

abbrev pub settings : Settings ℤ
settings = record {
  limit_offset_bps = usd 10 0;
  max_order_notional_usd = usd 10_000 0;
  non_fractional_tickers = [];
  fractional_shares = false;
  auto_replace_unfilled_orders = true;
  replace_after_seconds = 120;
  cancel_after_seconds = 300;
  replace_price_improvement_bps = usd 15 0;
  max_reprice_adverse_bps = usd 50 0;
  stale_order_policy = block;
  execution_price_source = ibkr;
  execution_price_basis = side_of_market;
  execution_quote_max_age_seconds = 30;
  execution_max_spread_bps = usd 50 0;
  execution_wide_spread_max_bps = usd 150 0;
  execution_limit_aggression = usd 0 50;
  allow_delayed_execution_quotes = false;
}

abbrev pub trade : String → OrderSide → ℤ → ProposedTrade ℤ
trade ticker side quantity = record {
  ticker = ticker;
  side = side;
  quantity = quantity;
  notional = usd 200 0;
  reference_price = usd 100 0;
  limit_price = some (usd 100 10);
  reason = "rebalance_to_target_weight";
  order_ref = none;
  reference_price_source = "snapshot";
  reference_price_basis = "snapshot_price";
  reference_price_as_of_utc = none;
  quote_age_seconds = none;
  quote_spread_bps = none;
}

abbrev pub quote : String → ExecutionQuote ℤ
quote ticker = record {
  ticker = ticker;
  source = "ibkr";
  selected_price_as_of_utc = none;
  age_seconds = some (usd 1 0);
  bid = some (usd 99 98);
  ask = some (usd 100 2);
  last = some (usd 100 0);
  spread_bps = none;
  is_delayed = false;
  broker_error = none;
  contract_unresolved = false;
}

abbrev pub accept : ProposedTrade ℤ → OrderResult ℤ
accept t = record {
  ticker = t.ticker;
  side = t.side;
  quantity = t.quantity;
  notional = t.notional;
  order_id = some 7;
  status = "Submitted";
  filled = usd 0 0;
  average_fill_price = none;
  message = none;
  order_ref = t.order_ref;
  perm_id = none;
}

abbrev quotes_for : List String → Dict String (ExecutionQuote ℤ)
quotes_for [] = []
quotes_for (t ∷ ts) = (t, quote t) ∷ quotes_for ts

-- the outside world is a clock
abbrev pub accepting : Broker ℤ ℕ
accepting = record {
  utc_now = λ n. (show n, n + 1);
  seconds_between = λ a b. some (usd 150 0);
  is_ibkr_broker = false;
  account_snapshot = λ n. (
    ok (record {
      cash_usd = usd 1000 0;
      positions = [];
      positions_market_value_usd = usd 0 0;
      net_liquidation_usd = none;
      account_id = none;
      warnings = [];
    }),
    n,
  );
  execution_quotes = λ ts n. (ok (quotes_for ts), n);
  submit_trades = λ ts n. (record { callbacks = []; reply = ok (map accept ts) }, n);
  fetch_open_order_snapshots = λ n. (ok [], n);
  fetch_completed_order_snapshots = none;
  cancel_order = λ i n. (ok true, n);
  replace_order = λ i r n. (failed "no replacement", n);
  submit_replacement = none;
}

abbrev pub plan : RebalancePlan ℤ
plan = record {
  run_id = "run";
  session_date = "2025-01-02";
  targets = [];
  execution_results = [];
  warnings = [];
  portfolio_value_usd = usd 1000 0;
  portfolio_cash_usd = usd 1000 0;
  portfolio_positions_value_usd = usd 0 0;
  portfolio_net_liquidation_usd = none;
  strategy_books = [];
  combined_targets = [];
  total_allocated_pct = usd 1 0;
  total_allocated_usd = usd 1000 0;
  cash_sleeve_usd = usd 0 0;
  trades = trade "SP1" buy (usd 2 0) ∷ trade "AAPL" sell (usd 2 0) ∷ [];
}

abbrev pub start : World ℤ (OrderStore ℤ × ℕ) ℕ
start = record { ledger = (new_store, 0); outside = 0; results = []; alerts = []; submissions = [] }
