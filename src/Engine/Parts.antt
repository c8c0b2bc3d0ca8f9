-- ===== src/Engine/Parts.antt =====
-- src/poma/engine.py: the parts of `build_plan` that call nothing, with `_resolve_portfolio_value_usd`.
use poma.Prelude.{
  string_eq, String, ◌<>◌, Option, none, some, List, [], ◌∷◌, ◌++◌, ◌==◌, map, Float, whole, ◌≺◌,
  ◌≼◌, ◌⊗◌, min_float, if◌then◌else◌,
}
use poma.Models.{
  AccountSnapshot, total_value_usd, ProposedTrade, TargetPosition, CombinedTargetPosition,
  StrategyTargetBook, RebalancePlan,
}
use poma.Config.{Settings}
use poma.Capital.Defs.{
  StrategyCapital, PortfolioCapitalPlan, unallocated_pct, total_allocated_pct, total_allocated_usd,
  cash_strategy_name,
}
use poma.Risk.Planning.{PlanningLimits}
use poma.Risk.Limits.{
  validate_targets, enforce_turnover_limit, enforce_order_limits,
  filter_trades_by_estimated_transaction_cost, enforce_buying_power,
}
use poma.Policy.{execution_rules, apply_execution_policy}
use poma.Reconcile.Match.{find}
use poma.Reconcile.Stale.{block_marker}
use poma.Engine.Inputs.{
  is_dry_run, ManagedCapMode, broker_total, min_of_broker_total_and_cap, EngineSettings,
}

module _ {F : Type 0} where
  abbrev pub to_target_position : CombinedTargetPosition F → TargetPosition F
  to_target_position p = record {
    ticker = p.ticker;
    target_weight = p.target_weight;
    target_notional = p.target_notional;
  }

  abbrev pub all_warnings : List (StrategyTargetBook F) → List String
  all_warnings [] = []
  all_warnings (b ∷ bs) = b.warnings ++ all_warnings bs

  abbrev pub fund_tickers : List (StrategyTargetBook F) → List String
  fund_tickers [] = []
  fund_tickers (b ∷ bs) = b.diversified_fund_tickers ++ fund_tickers bs

module _ {F : Type 0} ⦃f : Float F⦄ (es : EngineSettings F) (s : Settings F) where
  abbrev pub fallback : AccountSnapshot F
  fallback = record {
    cash_usd = es.dry_run_portfolio_value_usd;
    positions = [];
    positions_market_value_usd = whole 0;
    net_liquidation_usd = some es.dry_run_portfolio_value_usd;
    account_id = none;
    warnings = [];
  }

  -- a snapshot, with the warnings of the read
  unfoldable pub accept_snapshot : AccountSnapshot F → AccountSnapshot F × List String
  accept_snapshot a =
      if total_value_usd a ≼ whole 0
      then (
        fallback,
        a.warnings
            ++ (("broker cash and portfolio balances produced a non-positive portfolio value; "
                  <> block_marker)
                ∷ []),
      )
      else (a, a.warnings)

  abbrev capped_value : ManagedCapMode → AccountSnapshot F → F
  capped_value broker_total a = total_value_usd a
  capped_value min_of_broker_total_and_cap a = min_float (total_value_usd a) es.managed_cap_usd

  -- `_resolve_portfolio_value_usd`
  unfoldable pub resolve_portfolio_value_usd : AccountSnapshot F → F
  resolve_portfolio_value_usd a =
      if is_dry_run es.trading_mode then total_value_usd a else capped_value es.managed_cap_mode a

  abbrev capital_or_zero : Option (StrategyCapital F) → F
  capital_or_zero none = whole 0
  capital_or_zero (some a) = a.capital_usd

  abbrev pub cash_sleeve_usd : PortfolioCapitalPlan F → F
  cash_sleeve_usd p = capital_or_zero (find (λ a. a.name == cash_strategy_name) p.allocations)

  abbrev pub unallocated_warnings : PortfolioCapitalPlan F → List String
  unallocated_warnings p =
      if f.dec 1 9 ≺ unallocated_pct p
      then (f.fixed (unallocated_pct p ⊗ whole 100) 2
          <> "% of portfolio value is not allocated to any strategy sleeve")
        ∷ []
      else []

  abbrev pub planning_limits : F → PlanningLimits F
  planning_limits value = record {
    portfolio_value_usd = value;
    min_trade_notional_usd = es.min_trade_notional_usd;
    min_weight_delta_pct = es.min_weight_delta_pct;
    limit_offset_bps = s.limit_offset_bps;
  }

  -- the trades that are left after the filter by cost and the execution policy, with all their warnings
  abbrev pub finish_trades :
      AccountSnapshot F
      → List (ProposedTrade F)
      → List String
      → List (ProposedTrade F) × List String
  finish_trades a ts trade_warnings =
      let (kept, cost_warnings) =
        filter_trades_by_estimated_transaction_cost ts es.min_trade_notional_usd
          es.estimated_transaction_cost_bps es.estimated_transaction_cost_fixed_usd in
      let (final, policy_warnings) =
        apply_execution_policy kept (execution_rules s) (some a.cash_usd) in
      (final, trade_warnings ++ (cost_warnings ++ policy_warnings))

  abbrev pub batch_warnings : AccountSnapshot F → F → List (ProposedTrade F) → List String
  batch_warnings a value ts =
      enforce_turnover_limit ts value es.max_turnover_pct
      ++ (enforce_order_limits ts s.max_order_notional_usd es.max_daily_trades
          ++ (if is_dry_run es.trading_mode then enforce_buying_power ts a.cash_usd else []))

  -- the plan of a batch, from the warnings before the targets
  abbrev pub plan_of :
      String
      → String
      → AccountSnapshot F
      → PortfolioCapitalPlan F
      → List (StrategyTargetBook F)
      → List (CombinedTargetPosition F)
      → List String
      → List (ProposedTrade F) × List String
      → RebalancePlan F
  plan_of session_date run_id a capital books combined before (ts, trade_warnings) = record {
    run_id = run_id;
    session_date = session_date;
    targets = map to_target_position combined;
    trades = ts;
    execution_results = [];
    warnings =
        before
        ++ (validate_targets (map to_target_position combined) es.max_position_pct
              (fund_tickers books)
            ++ (trade_warnings ++ batch_warnings a capital.portfolio_value_usd ts));
    portfolio_value_usd = capital.portfolio_value_usd;
    portfolio_cash_usd = a.cash_usd;
    portfolio_positions_value_usd = a.positions_market_value_usd;
    portfolio_net_liquidation_usd = a.net_liquidation_usd;
    strategy_books = books;
    combined_targets = combined;
    total_allocated_pct = total_allocated_pct capital;
    total_allocated_usd = total_allocated_usd capital;
    cash_sleeve_usd = cash_sleeve_usd capital;
  }
