-- ===== src/Engine/Plan.antt =====
-- src/poma/engine.py: `build_plan`, with `_account_snapshot`.
use poma.Prelude.{
  string_eq, String, ◌<>◌, Option, none, some, List, [], ◌∷◌, ◌++◌, map, Float, if◌then◌else◌,
}
use poma.Models.{AccountSnapshot, ProposedTrade, StrategyTargetBook, RebalancePlan}
use poma.Config.{Settings}
use poma.Capital.Defs.{
  Checked, valid, invalid, StrategyCapital, PortfolioCapitalPlan, build_strategy_capital_plan,
  tradeable_sleeves,
}
use poma.Combine.Defs.{combine_strategy_target_books}
use poma.Risk.Planning.{generate_trades}
use poma.Execution.Ledger.{Ledger}
use poma.Execution.World.{Broker, Exec, pure, raise, catch, ◌>>=◌}
use poma.Reconcile.Desk.{Desk, query}
use poma.Reconcile.Stale.{block_marker, check_stale_orders}
use poma.Engine.Inputs.{is_dry_run, EngineSettings, MarketData, Market, allocation_error_text}
use poma.Engine.Parts.{
  to_target_position, all_warnings, fallback, accept_snapshot, resolve_portfolio_value_usd,
  unallocated_warnings, planning_limits, finish_trades, plan_of,
}

module _ {F : Type 0} ⦃f : Float F⦄ (es : EngineSettings F) (s : Settings F) where
  abbrev pub planned_or_raised :
      {W : Type 0}
      → (List (ProposedTrade F) × List String → RebalancePlan F)
      → Option (List (ProposedTrade F) × List String)
      → AccountSnapshot F
      → Exec W (RebalancePlan F)
  planned_or_raised plan none a = raise "float division by zero"
  planned_or_raised plan (some (ts, ws)) a = pure (plan (finish_trades es s a ts ws))

  -- the plan of the targets of all books
  unfoldable pub plan_books :
      {W : Type 0}
      → String
      → String
      → AccountSnapshot F
      → PortfolioCapitalPlan F
      → MarketData F
      → List String
      → List (StrategyTargetBook F)
      → Exec W (RebalancePlan F)
  plan_books session_date run_id a capital market before books =
      let (combined, combine_warnings) =
        combine_strategy_target_books books capital.portfolio_value_usd in
      planned_or_raised
        (plan_of es s session_date run_id a capital books combined
          (before ++ (all_warnings books ++ combine_warnings)))
        (generate_trades (planning_limits es s capital.portfolio_value_usd)
          (map to_target_position combined) a.positions market.latest_prices)
        a

  module _ {W : Type 0} (m : Market F W) where
    -- `_account_snapshot`
    unfoldable pub account_snapshot : Exec W (AccountSnapshot F × List String)
    account_snapshot =
        if is_dry_run es.trading_mode
        then pure (fallback es s, [])
        else catch (do a ← m.rebalance_account_snapshot; pure (accept_snapshot es s a))
            (λ detail. pure (
              fallback es s,
              ("unable to read broker cash and portfolio balances before rebalancing; "
                    <> block_marker <> ": " <> detail)
                  ∷ [],
            ))

    unfoldable pub build_books :
        MarketData F → List (StrategyCapital F) → Exec W (List (StrategyTargetBook F))
    build_books market [] = pure []
    build_books market (a ∷ more) = do
      book ← m.build_targets a market
      books ← build_books market more
      pure (book ∷ books)

    unfoldable pub plan_capital :
        String
        → String
        → AccountSnapshot F
        → List String
        → Checked F (PortfolioCapitalPlan F)
        → Exec W (RebalancePlan F)
    plan_capital session_date run_id a before (invalid error) = raise (allocation_error_text error)
    plan_capital session_date run_id a before (valid capital) = do
      market ← m.load (tradeable_sleeves capital)
      books ← build_books market (tradeable_sleeves capital)
      plan_books session_date run_id a capital market
          (before ++ (unallocated_warnings es s capital ++ market.warnings)) books

    -- the plan after the check of stale orders, from its warnings
    unfoldable pub plan_rest : String → String → List String → Exec W (RebalancePlan F)
    plan_rest session_date run_id stale_warnings = do
      (a, warnings) ← account_snapshot
      plan_capital session_date run_id a (stale_warnings ++ warnings)
          (build_strategy_capital_plan (resolve_portfolio_value_usd es s a) es.strategy_allocations)

    module _ {S : Type 0} (br : Broker F W) (l : Ledger F S) where
      unfoldable pub stale_warnings : String → String → Exec (Desk F S W) (List String)
      stale_warnings session_date run_id =
          if is_dry_run es.trading_mode
          then pure []
          else (do check ← check_stale_orders br l s session_date run_id; pure check.warnings)

      -- `build_plan`
      unfoldable pub build_plan : String → String → Exec (Desk F S W) (RebalancePlan F)
      build_plan session_date run_id = do
        warnings ← stale_warnings session_date run_id
        query (plan_rest session_date run_id warnings)
