-- ===== src/Capital/Defs.antt =====
-- src/poma/portfolio.py: the check of a mapping of allocations, and the capital of every strategy. The
-- `ValueError` of a check is a value of `AllocationError`, one constructor for each message.
use poma.Prelude.{
  string_eq, Bool, not, ◌&&◌, ◌||◌, String, Option, none, some, List, [], ◌∷◌, ◌++◌, ◌==◌, map,
  keep, values, Dict, lookup, is_some, non_empty, strip, Float, whole, sum, ◌⊖◌, ◌⊗◌, ◌≺◌, ◌≼◌,
  max_float, if◌then◌else◌,
}

pub data AllocationError (F : Type 0) : Type 0 where
  empty_name : AllocationError F
  duplicate_name : String → AllocationError F
  not_finite : String → AllocationError F
  out_of_range : String → AllocationError F
  no_allocation : AllocationError F
  over_allocated : F → AllocationError F
  invalid_portfolio_value : AllocationError F

pub data Checked (F A : Type 0) : Type 0 where
  valid : A → Checked F A
  invalid : AllocationError F → Checked F A

pub record StrategyCapital (F : Type 0) : Type 0 where
  pub name : String
  pub allocation_pct : F
  pub capital_usd : F

pub record PortfolioCapitalPlan (F : Type 0) : Type 0 where
  pub portfolio_value_usd : F
  pub allocations : List (StrategyCapital F)

abbrev pub cash_strategy_name : String
cash_strategy_name = "cash"

module _ {F : Type 0} ⦃f : Float F⦄ where
  -- `0 <= pct <= 1`
  abbrev pub is_share : F → Bool
  is_share pct = (whole 0 ≼ pct) && (pct ≼ whole 1)

  -- the loop of `_validate_allocations`, from the entries that are cleaned already
  unfoldable pub clean : Dict String F → List (String × F) → Checked F (Dict String F)
  clean cleaned [] = valid cleaned
  clean cleaned ((raw_name, pct) ∷ rest) =
      let name = strip raw_name in
      if not (non_empty name)
      then invalid empty_name
      else if is_some (lookup name cleaned)
      then invalid (duplicate_name name)
      else if not (f.is_finite pct)
      then invalid (not_finite name)
      else if not (is_share pct)
      then invalid (out_of_range name)
      else clean (cleaned ++ ((name, pct) ∷ [])) rest

  -- the checks after the loop
  abbrev pub check_total : Checked F (Dict String F) → Checked F (Dict String F)
  check_total (invalid e) = invalid e
  check_total (valid []) = invalid no_allocation
  check_total (valid (a ∷ more)) =
      let total = sum (values (a ∷ more)) in
      if f.dec 1_000_001 6 ≺ total then invalid (over_allocated total) else valid (a ∷ more)

  unfoldable pub validate_allocations : List (String × F) → Checked F (Dict String F)
  validate_allocations allocations = check_total (clean [] allocations)

  abbrev pub sleeve : F → String × F → StrategyCapital F
  sleeve portfolio_value_usd (name, pct) = record {
    name = name;
    allocation_pct = pct;
    capital_usd = portfolio_value_usd ⊗ pct;
  }

  abbrev pub plan_of : F → Checked F (Dict String F) → Checked F (PortfolioCapitalPlan F)
  plan_of value (invalid e) = invalid e
  plan_of value (valid allocations) =
      valid (record { portfolio_value_usd = value; allocations = map (sleeve value) allocations })

  -- `build_strategy_capital_plan`, of a mapping
  unfoldable pub build_strategy_capital_plan :
      F → List (String × F) → Checked F (PortfolioCapitalPlan F)
  build_strategy_capital_plan value allocations =
      if (value ≼ whole 0) || not (f.is_finite value)
      then invalid invalid_portfolio_value
      else plan_of value (validate_allocations allocations)

  abbrev pub total_allocated_pct : PortfolioCapitalPlan F → F
  total_allocated_pct p = sum (map (λ a. a.allocation_pct) p.allocations)

  abbrev pub total_allocated_usd : PortfolioCapitalPlan F → F
  total_allocated_usd p = sum (map (λ a. a.capital_usd) p.allocations)

  abbrev pub unallocated_pct : PortfolioCapitalPlan F → F
  unallocated_pct p = max_float (whole 0) (whole 1 ⊖ total_allocated_pct p)

  abbrev pub unallocated_usd : PortfolioCapitalPlan F → F
  unallocated_usd p = max_float (whole 0) (p.portfolio_value_usd ⊖ total_allocated_usd p)

  abbrev find_sleeve : String → List (StrategyCapital F) → Option (StrategyCapital F)
  find_sleeve name [] = none
  find_sleeve name (a ∷ more) = if a.name == name then some a else find_sleeve name more

  -- `capital_for`, where `none` is its `KeyError`
  unfoldable pub capital_for : String → PortfolioCapitalPlan F → Option (StrategyCapital F)
  capital_for name p = find_sleeve name p.allocations

  unfoldable pub tradeable_sleeves : PortfolioCapitalPlan F → List (StrategyCapital F)
  tradeable_sleeves p =
      keep (λ a. not (a.name == cash_strategy_name) && (whole 0 ≺ a.capital_usd)) p.allocations
