-- ===== src/Tests/Engine.antt =====
-- One rebalance of a cash account of 1,000 dollars into one strategy.
use poma.Prelude.{string_eq, ℕ, [], ◌∷◌, ◌≡◌, ◌⊎◌, length}
use poma.Execution.World.{ok}
use poma.Execution.FileLedger.{file_ledger}
use poma.Reconcile.Desk.{Desk}
use poma.Store.Defs.{OrderStore}
use poma.Store.History.{new_store}
use poma.Engine.Inputs.{EngineSettings, Market, paper, broker_total}
use poma.Engine.Run.{run}
use poma.Engine.Guarded.{IsGuarded, run-IsGuarded}
use poma.Tests.Fixed.{ℤ, fixed_float, fixed_float-IsOrdered, usd}
use poma.Tests.Scenario.{settings, accepting}

abbrev engine_settings : EngineSettings ℤ
engine_settings = record {
  trading_mode = paper;
  managed_cap_mode = broker_total;
  managed_cap_usd = usd 0 0;
  dry_run_portfolio_value_usd = usd 1000 0;
  strategy_allocations = ("USMC", usd 1 0) ∷ [];
  max_position_pct = usd 0 60;
  max_turnover_pct = usd 1 0;
  min_trade_notional_usd = usd 50 0;
  min_weight_delta_pct = usd 0 1;
  estimated_transaction_cost_bps = usd 0 0;
  estimated_transaction_cost_fixed_usd = usd 0 0;
  max_daily_trades = 100;
}

-- one ticker at 100 dollars, of which half the capital is wanted
abbrev market : Market ℤ ℕ
market = record {
  rebalance_account_snapshot = accepting.account_snapshot;
  load = λ sleeves n. (ok (record { latest_prices = ("SPY", usd 100 0) ∷ []; warnings = [] }), n);
  build_targets = λ a m n. (
    ok (record {
      strategy_name = a.name;
      allocation_pct = a.allocation_pct;
      capital_usd = a.capital_usd;
      targets =
          record {
            strategy_name = a.name;
            ticker = "SPY";
            sleeve_weight = usd 0 50;
            portfolio_weight = usd 0 50;
            target_notional = usd 500 0;
          }
          ∷ [];
      warnings = [];
      diversified_fund_tickers = [];
    }),
    n,
  );
}

abbrev desk : Desk ℤ (OrderStore ℤ × ℕ) ℕ
desk = record { ledger = (new_store, 0); outside = 0; calls = [] }

abbrev submitted : ℕ
submitted =
    length
      (run engine_settings settings market accepting file_ledger "2025-01-02" "run"
        desk).1.submissions

run-IsGuarded_example :
    ((run engine_settings settings market accepting file_ledger "2025-01-02" "run"
        desk).1.submissions
      ≡ [])
    ⊎ IsGuarded engine_settings settings market accepting file_ledger "2025-01-02" "run" desk
        (run engine_settings settings market accepting file_ledger "2025-01-02" "run" desk).1
run-IsGuarded_example =
    run-IsGuarded engine_settings settings market accepting file_ledger "2025-01-02" "run" desk
      fixed_float-IsOrdered
