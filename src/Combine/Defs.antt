-- ===== src/Combine/Defs.antt =====
-- src/poma/portfolio_constructor.py: `combine_strategy_target_books`.
use poma.Prelude.{
  string_eq, not, ◌&&◌, String, ◌<>◌, Option, none, some, List, [], ◌∷◌, ◌++◌, map, length, ltb,
  Dict, lookup, insert, keys, Float, whole, sum, ◌⊕◌, ◌⊘◌, ◌≺◌, ◌≐◌, if◌then◌else◌,
}
use poma.Models.{StrategyTarget, StrategyTargetBook, CombinedTargetPosition}
use poma.Risk.Tickers.{sorted, set_of}

-- `", ".join(names)`
abbrev join : List String → String
join [] = ""
join (n ∷ []) = n
join (n ∷ m ∷ ns) = n <> ", " <> join (m ∷ ns)

module _ {F : Type 0} ⦃f : Float F⦄ where
  abbrev pub list_or_empty : Option (List (StrategyTarget F)) → List (StrategyTarget F)
  list_or_empty none = []
  list_or_empty (some ts) = ts

  -- `contributions_by_ticker[ticker]`, of a `defaultdict(list)`
  abbrev pub contributions_of :
      String → Dict String (List (StrategyTarget F)) → List (StrategyTarget F)
  contributions_of ticker d = list_or_empty (lookup ticker d)

  -- `contributions_by_ticker[target.ticker].append(target)`, for each target
  unfoldable pub add_targets :
      Dict String (List (StrategyTarget F))
      → List (StrategyTarget F)
      → Dict String (List (StrategyTarget F))
  add_targets d [] = d
  add_targets d (t ∷ ts) =
      add_targets (insert t.ticker (contributions_of t.ticker d ++ (t ∷ [])) d) ts

  -- the targets of the books, in the order of the two loops
  abbrev pub all_targets : List (StrategyTargetBook F) → List (StrategyTarget F)
  all_targets [] = []
  all_targets (b ∷ bs) = b.targets ++ all_targets bs

  abbrev pub combined_position :
      F → Dict String (List (StrategyTarget F)) → String → CombinedTargetPosition F
  combined_position portfolio_value_usd d ticker =
      let contributions = contributions_of ticker d in
      let notional = sum (map (λ c. c.target_notional) contributions) in
      record {
        ticker = ticker;
        target_weight =
            if portfolio_value_usd ≐ whole 0 then whole 0 else notional ⊘ portfolio_value_usd;
        target_notional = notional;
        contributions = contributions;
      }

  -- the warning of a ticker that several strategies want
  abbrev overlap : CombinedTargetPosition F → List String
  overlap p =
      let strategy_names = sorted (set_of (map (λ c. c.strategy_name) p.contributions)) in
      if ltb 1 (length strategy_names)
      then (p.ticker
          <> " target combines overlapping allocations from strategies: "
          <> join strategy_names)
        ∷ []
      else []

  abbrev overlaps : List (CombinedTargetPosition F) → List String
  overlaps [] = []
  overlaps (p ∷ ps) = overlap p ++ overlaps ps

  abbrev exceeds : F → List (CombinedTargetPosition F) → List String
  exceeds portfolio_value_usd combined =
      let total = sum (map (λ p. p.target_notional) combined) in
      if not (portfolio_value_usd ≐ whole 0) && (portfolio_value_usd ⊕ f.dec 1 6 ≺ total)
      then ("combined strategy targets ($"
          <> f.grouped total 2
          <> ") exceed portfolio value ($"
          <> f.grouped portfolio_value_usd 2
          <> "); block execution")
        ∷ []
      else []

  unfoldable pub combine_strategy_target_books :
      List (StrategyTargetBook F) → F → List (CombinedTargetPosition F) × List String
  combine_strategy_target_books books portfolio_value_usd =
      let by_ticker = add_targets [] (all_targets books) in
      let combined =
        map (combined_position portfolio_value_usd by_ticker) (sorted (keys by_ticker)) in
      (combined, overlaps combined ++ exceeds portfolio_value_usd combined)
