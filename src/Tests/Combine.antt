-- ===== src/Tests/Combine.antt =====
-- Two sleeves that want the same ticker.
use poma.Prelude.{string_eq, show, String, List, [], ◌∷◌, ◌≡◌, refl, All, map}
use poma.Models.{StrategyTarget, StrategyTargetBook}
use poma.Risk.Tickers.{contains, NoRepeat, sorted, set_of}
use poma.Combine.Defs.{all_targets, add_targets, combine_strategy_target_books}
use poma.Combine.Attribution.{IsAttributed, combine_strategy_target_books-IsAttributed}
use poma.Tests.Fixed.{ℤ, fixed_float, usd}

abbrev wants : String → String → StrategyTarget ℤ
wants strategy ticker = record {
  strategy_name = strategy;
  ticker = ticker;
  sleeve_weight = usd 1 0;
  portfolio_weight = usd 0 40;
  target_notional = usd 400 0;
}

abbrev book : String → List (StrategyTarget ℤ) → StrategyTargetBook ℤ
book strategy targets = record {
  strategy_name = strategy;
  allocation_pct = usd 0 50;
  capital_usd = usd 500 0;
  targets = targets;
  warnings = [];
  diversified_fund_tickers = [];
}

abbrev books : List (StrategyTargetBook ℤ)
books =
    book "USMC" (wants "USMC" "SPY" ∷ wants "USMC" "AGG" ∷ [])
    ∷ book "momentum" (wants "momentum" "SPY" ∷ [])
    ∷ []

combined_warnings :
    (combine_strategy_target_books books (usd 1000 0)).1
    ≡ "SPY target combines overlapping allocations from strategies: USMC, momentum"
      ∷ "combined strategy targets ($1200) exceed portfolio value ($1000); block execution" ∷ []
unfolding combine_strategy_target_books add_targets sorted set_of show
combined_warnings = refl

combine_strategy_target_books-IsAttributed_example :
    NoRepeat (map (λ p. p.ticker) (combine_strategy_target_books books (usd 1000 0)).0)
    × ((z : String)
        → contains (map (λ p. p.ticker) (combine_strategy_target_books books (usd 1000 0)).0) z
          ≡ contains ("SPY" ∷ "AGG" ∷ "SPY" ∷ []) z)
    × All (IsAttributed (all_targets books)) (combine_strategy_target_books books (usd 1000 0)).0
combine_strategy_target_books-IsAttributed_example =
    combine_strategy_target_books-IsAttributed books (usd 1000 0)
