-- ===== src/Tests/Risk.antt =====
-- A plan over three tickers: one held and not wanted, one wanted, one near its target.
use poma.Prelude.{
  string_eq, false, String, some, List, [], ◌∷◌, ◌≡◌, refl, Dict, length, All, ◌≤◌, ◌↔◌, ◌≺◌,
}
use poma.Models.{CurrentPosition, TargetPosition, ProposedTrade, buy, sell}
use poma.Pricing.{build_limit_price}
use poma.Risk.Limits.{enforce_order_limits}
use poma.Risk.Planned.{IsPlanned}
use poma.Risk.Tickers.{set_of, sorted, NoRepeat}
use poma.Risk.Planning.{
  PlanningLimits, generate_trades, plan_ticker, planned_at, without_price, position_reference_price,
  by_ticker,
}
use poma.Risk.Trades.{tickers_of, generate_trades-IsPlanned}
use poma.Risk.Checks.{enforce_order_limits-silent}
use poma.Tests.Fixed.{ℤ, fixed_float, fixed_float-IsOrdered, usd}
use poma.Tests.Scenario.{trade}

abbrev limits : PlanningLimits ℤ
limits = record {
  portfolio_value_usd = usd 1000 0;
  min_trade_notional_usd = usd 50 0;
  min_weight_delta_pct = usd 0 1;
  limit_offset_bps = usd 10 0;
}

abbrev positions : List (CurrentPosition ℤ)
positions =
    record { ticker = "SPY"; quantity = usd 2 0; market_value = usd 400 0 }
    ∷ record { ticker = "AGG"; quantity = usd 1 0; market_value = usd 100 0 }
    ∷ []

abbrev targets : List (TargetPosition ℤ)
targets =
    record { ticker = "AGG"; target_weight = usd 0 10; target_notional = usd 110 0 }
    ∷ record { ticker = "QQQ"; target_weight = usd 0 30; target_notional = usd 300 0 }
    ∷ []

abbrev prices : Dict String ℤ
prices = ("QQQ", usd 100 0) ∷ ("AGG", usd 100 0) ∷ []

abbrev bought : ProposedTrade ℤ
bought = record (trade "QQQ" buy (usd 3 0)) { notional = usd 300 0 }

abbrev sold : ProposedTrade ℤ
sold = record (trade "SPY" sell (usd 2 0)) {
  notional = usd 400 0;
  reference_price = usd 200 0;
  limit_price = some (usd 199 80);
}

abbrev planned : List (ProposedTrade ℤ)
planned = bought ∷ sold ∷ []

abbrev warning : List String
warning =
    "missing valid latest price for held SPY; using broker position market value for risk-reducing sell planning"
    ∷ []

planned_trades : generate_trades limits targets positions prices ≡ some (planned, warning)
unfolding generate_trades plan_ticker planned_at without_price position_reference_price set_of
    sorted build_limit_price
planned_trades = refl

generate_trades-IsPlanned_example :
    All (IsPlanned limits (by_ticker positions) prices) planned × NoRepeat (tickers_of planned)
generate_trades-IsPlanned_example =
    generate_trades-IsPlanned limits targets positions prices planned warning fixed_float-IsOrdered
      planned_trades

enforce_order_limits-silent_example :
    (enforce_order_limits planned (usd 350 0) 2 ≡ [])
    ↔ ((length planned ≤ 2) × All (λ t. (usd 350 0 ≺ t.notional) ≡ false) planned)
enforce_order_limits-silent_example = enforce_order_limits-silent planned (usd 350 0) 2
