-- ===== src/Tests/Pricing.antt =====
-- Repricing of two purchases, one without a quote.
use poma.Prelude.{◌+◌, string_eq, false, String, List, [], ◌∷◌, ◌≡◌, All, Dict, length}
use poma.Models.{ProposedTrade, ExecutionQuote, buy}
use poma.Policy.{Rules, build_execution_rules}
use poma.Pricing.{apply_execution_quotes}
use poma.Pricing.Accepted.{IsSafe, apply_execution_quotes-IsSafe}
use poma.Tests.Fixed.{ℤ, fixed_float, usd}
use poma.Tests.Scenario.{settings, trade, quote}

abbrev rules : Rules ℤ
rules = build_execution_rules [] false

abbrev quotes : Dict String (ExecutionQuote ℤ)
quotes = ("AGG", quote "AGG") ∷ []

abbrev batch : List (ProposedTrade ℤ)
batch = trade "AGG" buy (usd 2 0) ∷ trade "QQQ" buy (usd 2 0) ∷ []

abbrev outcome : List (ProposedTrade ℤ) × List String
outcome = apply_execution_quotes batch quotes settings rules false

apply_execution_quotes-IsSafe_example :
    All (IsSafe quotes settings rules false) outcome.0 × (length outcome.0 + length outcome.1 ≡ 2)
apply_execution_quotes-IsSafe_example =
    apply_execution_quotes-IsSafe quotes settings rules false batch
