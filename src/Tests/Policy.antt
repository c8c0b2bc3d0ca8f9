-- ===== src/Tests/Policy.antt =====
-- Two purchases of a plan, rounded up and fitted to the cash.
use poma.Prelude.{string_eq, false, some, List, [], ◌∷◌, ◌≡◌, refl, All, length}
use poma.Models.{ProposedTrade, buy, sell, buy_cash_required_usd, sell_cash_credit_usd}
use poma.Policy.{
  Rules, apply_execution_policy, build_execution_rules, round_trades, demote, demotable,
  demote_buy_roundups_to_fit_cash, resolve_execution_rule, rounded_execution_quantity,
}
use poma.Policy.Tradable.{IsTradable, apply_execution_policy-IsTradable}
use poma.Tests.Fixed.{ℤ, fixed_float, fixed_float-IsOrdered, usd}
use poma.Tests.Scenario.{trade}

abbrev rules : Rules ℤ
rules = build_execution_rules [] false

abbrev trades : List (ProposedTrade ℤ)
trades = trade "AGG" buy (usd 2 70) ∷ trade "QQQ" buy (usd 0 80) ∷ trade "SPY" sell (usd 1 90) ∷ []

abbrev fitted : List (ProposedTrade ℤ)
fitted = (apply_execution_policy trades rules (some (usd 250 0))).0

fitted_one_left : length fitted ≡ 2
unfolding apply_execution_policy build_execution_rules round_trades demote demotable
    demote_buy_roundups_to_fit_cash resolve_execution_rule rounded_execution_quantity
    buy_cash_required_usd sell_cash_credit_usd
fitted_one_left = refl

apply_execution_policy-IsTradable_example : All (IsTradable fixed_float-IsOrdered rules) fitted
apply_execution_policy-IsTradable_example =
    apply_execution_policy-IsTradable fixed_float-IsOrdered rules trades (some (usd 250 0))
