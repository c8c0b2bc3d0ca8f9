-- ===== src/Tests/Capital.antt =====
-- Two sleeves and a cash sleeve of an account of 1,000 dollars.
use poma.Prelude.{string_eq, strip, String, List, [], ◌∷◌, ◌≡◌, refl}
use poma.Capital.Defs.{
  valid, PortfolioCapitalPlan, build_strategy_capital_plan, validate_allocations, clean, sleeve,
  tradeable_sleeves,
}
use poma.Capital.Sleeves.{IsAllocated, build_strategy_capital_plan-IsAllocated}
use poma.Tests.Fixed.{ℤ, fixed_float, usd}

abbrev allocations : List (String × ℤ)
allocations = (" USMC ", usd 0 60) ∷ ("QQQ", usd 0 38) ∷ ("cash", usd 0 2) ∷ []

abbrev capital_plan : PortfolioCapitalPlan ℤ
capital_plan = record {
  portfolio_value_usd = usd 1000 0;
  allocations =
      sleeve (usd 1000 0) ("USMC", usd 0 60)
      ∷ sleeve (usd 1000 0) ("QQQ", usd 0 38)
      ∷ sleeve (usd 1000 0) ("cash", usd 0 2)
      ∷ [];
}

built : build_strategy_capital_plan (usd 1000 0) allocations ≡ valid capital_plan
unfolding build_strategy_capital_plan validate_allocations clean strip
built = refl

build_strategy_capital_plan-IsAllocated_example : IsAllocated (usd 1000 0) capital_plan
build_strategy_capital_plan-IsAllocated_example =
    build_strategy_capital_plan-IsAllocated (usd 1000 0) allocations capital_plan built

two_tradeable :
    tradeable_sleeves capital_plan
    ≡ sleeve (usd 1000 0) ("USMC", usd 0 60) ∷ sleeve (usd 1000 0) ("QQQ", usd 0 38) ∷ []
unfolding tradeable_sleeves
two_tradeable = refl
