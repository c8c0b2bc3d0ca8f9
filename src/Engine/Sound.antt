-- ===== src/Engine/Sound.antt =====
-- src/poma/engine.py: what a plan of `build_plan` is when nothing blocks its execution.
use poma.Prelude.{
  string_eq, ◌≤◌, false, String, Option, none, some, List, [], ◌++◌, map, length, Float, IsOrdered,
  All, sum, ◌≺◌, ◌≡◌, if◌then◌else◌,
}
use poma.Models.{
  AccountSnapshot, ProposedTrade, CombinedTargetPosition, StrategyTargetBook, RebalancePlan,
}
use poma.Config.{Settings}
use poma.Capital.Defs.{
  Checked, valid, invalid, PortfolioCapitalPlan, tradeable_sleeves, build_strategy_capital_plan,
}
use poma.Combine.Defs.{combine_strategy_target_books}
use poma.Risk.Planning.{generate_trades}
use poma.Risk.Limits.{
  turnover, validate_targets, enforce_turnover_limit, enforce_order_limits, enforce_buying_power,
  filter_trades_by_estimated_transaction_cost,
}
use poma.Policy.{execution_rules, is_untradable, rule_of}
use poma.Policy.Tradable.{apply_execution_policy-IsTradable}
use poma.Execution.World.{Exec, Reply, ok, raised, ◌>>=◌}
use poma.Reconcile.Passes.{answer}
use poma.Reconcile.Stale.{is_blocked}
use poma.Engine.Inputs.{EngineSettings, MarketData, Market, is_dry_run}
use poma.Engine.Parts.{
  to_target_position, fund_tickers, planning_limits, finish_trades, batch_warnings, plan_of,
  resolve_portfolio_value_usd, unallocated_warnings, all_warnings,
}
use poma.Engine.Plan.{
  planned_or_raised, plan_books, account_snapshot, build_books, plan_capital, plan_rest,
}
use poma.Engine.Checks.{
  is_blocked-append, is_oversized, validate_targets-clear, enforce_turnover_limit-clear,
  enforce_order_limits-clear,
}

module _ {F : Type 0} ⦃f : Float F⦄ (es : EngineSettings F) (s : Settings F) where
  -- A plan within the limits of the settings: the number of trades and the notional of each, quantities
  -- that the instruments can trade, the turnover, and the weights of the targets, of which only
  -- diversified funds may be above the largest.
  pub record IsSound (plan : RebalancePlan F) : Type 0 where
    pub few : length plan.trades ≤ es.max_daily_trades
    pub small : All (λ t. (s.max_order_notional_usd ≺ t.notional) ≡ false) plan.trades
    pub tradable :
        All (λ t. is_untradable t.quantity (rule_of (execution_rules s) t) ≡ false) plan.trades
    pub slow : (es.max_turnover_pct ≺ turnover plan.trades plan.portfolio_value_usd) ≡ false
    pub weights : (f.dec 1_000_001 6 ≺ sum (map (λ t. t.target_weight) plan.targets)) ≡ false
    pub single :
        All
          (λ t. is_oversized es.max_position_pct (fund_tickers plan.strategy_books) t ≡ false)
          plan.targets

  plan_of-IsSound :
      (session_date run_id : String) (a : AccountSnapshot F) (capital : PortfolioCapitalPlan F)
      (books : List (StrategyTargetBook F)) (combined : List (CombinedTargetPosition F))
      (before : List String) (ts : List (ProposedTrade F)) (ws : List String)
      → IsOrdered F
      → is_blocked
          (plan_of es s session_date run_id a capital books combined before
            (finish_trades es s a ts ws)).warnings
        ≡ false
      → IsSound (
          plan_of es s session_date run_id a capital books combined before
            (finish_trades es s a ts ws))
  plan_of-IsSound session_date run_id a capital books combined before ts ws laws h =
      (let trades = (finish_trades es s a ts ws).0 in
        let value = capital.portfolio_value_usd in
        let targets = map to_target_position combined in
        let first = validate_targets targets es.max_position_pct (fund_tickers books) in
        let second = (finish_trades es s a ts ws).1 in
        let third = enforce_turnover_limit trades value es.max_turnover_pct in
        let fourth = enforce_order_limits trades s.max_order_notional_usd es.max_daily_trades in
        let last =
          if is_dry_run es.trading_mode then enforce_buying_power trades a.cash_usd else [] in
        let checks =
          (is_blocked-append before (first ++ (second ++ (third ++ (fourth ++ last)))) h).1 in
        let (weighed, more) =
          is_blocked-append first (second ++ (third ++ (fourth ++ last))) checks in
        let batch = (is_blocked-append second (third ++ (fourth ++ last)) more).1 in
        let (turning, rest) = is_blocked-append third (fourth ++ last) batch in
        let limits = (is_blocked-append fourth last rest).0 in
        let (few, small) =
          enforce_order_limits-clear trades s.max_order_notional_usd es.max_daily_trades limits in
        let (weights, single) =
          validate_targets-clear targets es.max_position_pct (fund_tickers books) weighed in
        record {
          few = few;
          small = small;
          tradable =
              apply_execution_policy-IsTradable laws (execution_rules s)
                (filter_trades_by_estimated_transaction_cost ts es.min_trade_notional_usd
                  es.estimated_transaction_cost_bps es.estimated_transaction_cost_fixed_usd).0
                (some a.cash_usd);
          slow = enforce_turnover_limit-clear trades value es.max_turnover_pct turning;
          weights = weights;
          single = single;
        })

  -- a plan that is returned, and is sound where it does not block, no more than these warnings do
  abbrev pub SoundReply : {W : Type 0} → List String → Reply (RebalancePlan F) × W → Type 0
  SoundReply before (raised error, w) = Unit
  SoundReply before (ok plan, w) =
      is_blocked plan.warnings ≡ false → IsSound plan × (is_blocked before ≡ false)

  -- of fewer warnings before
  earlier :
      {W : Type 0} (before more : List String) (r : Reply (RebalancePlan F)) (w : W)
      → SoundReply (before ++ more) (r, w)
      → SoundReply before (r, w)
  earlier before more (raised error) w h = tt
  earlier before more (ok plan) w h =
      λ clear. (let (sound, both) = h clear in (sound, (is_blocked-append before more both).0))

  planned-IsSound :
      {W : Type 0} (session_date run_id : String) (a : AccountSnapshot F)
      (capital : PortfolioCapitalPlan F) (books : List (StrategyTargetBook F))
      (combined : List (CombinedTargetPosition F)) (before : List String)
      (r : Option (List (ProposedTrade F) × List String)) (w : W)
      → IsOrdered F
      → SoundReply before (
          planned_or_raised es s
            (plan_of es s session_date run_id a capital books combined before)
            r
            a
            w)
  planned-IsSound session_date run_id a capital books combined before none w laws = tt
  planned-IsSound session_date run_id a capital books combined before (some (ts, ws)) w laws =
      λ clear. (
        plan_of-IsSound session_date run_id a capital books combined before ts ws laws clear,
        (is_blocked-append before
            (validate_targets (map to_target_position combined) es.max_position_pct
                (fund_tickers books)
              ++ ((finish_trades es s a ts ws).1
                  ++ batch_warnings es s a capital.portfolio_value_usd
                      (finish_trades es s a ts ws).0))
            clear).0,
      )

  plan_books-IsSound :
      {W : Type 0} (session_date run_id : String) (a : AccountSnapshot F)
      (capital : PortfolioCapitalPlan F) (market : MarketData F) (before : List String)
      (books : List (StrategyTargetBook F)) (w : W)
      → IsOrdered F
      → SoundReply before (plan_books es s session_date run_id a capital market before books w)
  unfolding plan_books
  plan_books-IsSound session_date run_id a capital market before books w laws =
      (let combination = combine_strategy_target_books books capital.portfolio_value_usd in
        let r =
          planned_or_raised es s
            (plan_of es s session_date run_id a capital books combination.0
              (before ++ (all_warnings books ++ combination.1)))
            (generate_trades (planning_limits es s capital.portfolio_value_usd)
              (map to_target_position combination.0) a.positions market.latest_prices)
            a w in
        earlier before (all_warnings books ++ combination.1) r.0 r.1 (
          planned-IsSound session_date run_id a capital books combination.0
            (before ++ (all_warnings books ++ combination.1))
            (generate_trades (planning_limits es s capital.portfolio_value_usd)
              (map to_target_position combination.0) a.positions market.latest_prices)
            w laws))

  -- after a step of any end
  then-SoundReply :
      {W A : Type 0} (before : List String) (r : Reply A) (w : W)
      (next : A → Exec W (RebalancePlan F))
      → ((x : A) (v : W) → SoundReply before (next x v))
      → SoundReply before ((answer r >>= next) w)
  then-SoundReply before (ok x) w next h = h x w
  then-SoundReply before (raised error) w next h = tt

  module _ {W : Type 0} (m : Market F W) (session_date run_id : String) (laws : IsOrdered F) where
    plan_capital-IsSound :
        (a : AccountSnapshot F) (before : List String) (c : Checked F (PortfolioCapitalPlan F))
        (w : W)
        → SoundReply before (plan_capital es s m session_date run_id a before c w)
    unfolding plan_capital
    plan_capital-IsSound a before (invalid error) w = tt
    plan_capital-IsSound a before (valid capital) w =
        then-SoundReply before (m.load (tradeable_sleeves capital) w).0
          (m.load (tradeable_sleeves capital) w).1
          (λ market.
            build_books es s m market (tradeable_sleeves capital)
            >>= plan_books es s session_date run_id a capital market
                (before ++ (unallocated_warnings es s capital ++ market.warnings)))
          (λ market v.
            then-SoundReply before (build_books es s m market (tradeable_sleeves capital) v).0
              (build_books es s m market (tradeable_sleeves capital) v).1
              (plan_books es s session_date run_id a capital market
                (before ++ (unallocated_warnings es s capital ++ market.warnings)))
              (λ books u.
                (let all = before ++ (unallocated_warnings es s capital ++ market.warnings) in
                  let r = plan_books es s session_date run_id a capital market all books u in
                  earlier before (unallocated_warnings es s capital ++ market.warnings) r.0 r.1
                    (plan_books-IsSound session_date run_id a capital market all books u laws))))

    pub plan_rest-IsSound :
        (stale : List String) (w : W)
        → SoundReply stale (plan_rest es s m session_date run_id stale w)
    unfolding plan_rest
    plan_rest-IsSound stale w =
        then-SoundReply stale (account_snapshot es s m w).0 (account_snapshot es s m w).1
          (λ (a, warnings). plan_capital es s m session_date run_id a (stale ++ warnings) (
            build_strategy_capital_plan (resolve_portfolio_value_usd es s a)
              es.strategy_allocations))
          (λ (a, warnings) v.
            (let r =
                plan_capital es s m session_date run_id a (stale ++ warnings)
                  (build_strategy_capital_plan (resolve_portfolio_value_usd es s a)
                    es.strategy_allocations)
                  v in
              earlier stale warnings r.0 r.1 (plan_capital-IsSound a (stale ++ warnings) _ v)))
