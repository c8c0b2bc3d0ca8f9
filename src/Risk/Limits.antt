-- ===== src/Risk/Limits.antt =====
-- src/poma/risk.py: the checks of the targets and of a batch of trades, and the filter by cost.
use poma.Prelude.{
  string_eq, ℕ, Bool, true, false, not, ◌&&◌, String, ◌<>◌, List, [], ◌∷◌, ◌++◌, map, length, ltb,
  any, keep, show, Float, whole, sum, ◌⊕◌, ◌⊖◌, ◌⊗◌, ◌⊘◌, ◌≺◌, ◌≼◌, ◌≐◌, max_float, if◌then◌else◌,
}
use poma.Models.{
  is_buy, is_sell, TargetPosition, ProposedTrade, buy_cash_required_usd, sell_cash_credit_usd,
}
use poma.Risk.Tickers.{contains}

-- `if test: warnings.append(text)`
abbrev pub warn_if : Bool → String → List String
warn_if test text = if test then text ∷ [] else []

module _ {F : Type 0} ⦃f : Float F⦄ where
  abbrev is_empty : List (TargetPosition F) → Bool
  is_empty [] = true
  is_empty (t ∷ ts) = false

  unfoldable pub validate_targets : List (TargetPosition F) → F → List String → List String
  validate_targets targets max_position_pct exempt_tickers =
      let total_weight = sum (map (λ t. t.target_weight) targets) in
      warn_if (f.dec 1_000_001 6 ≺ total_weight)
        ("target weights exceed 100%: " <> f.fixed total_weight 4 <> "; block execution")
      ++ warn_if
          (any
            (λ t.
              (max_position_pct ⊕ f.dec 1 9 ≺ t.target_weight)
              && not (contains exempt_tickers t.ticker))
            targets)
          "one or more target weights exceed max_position_pct; block execution"
      ++ warn_if (is_empty targets) "no target positions generated"

  -- `f"{x:.2%}"`
  abbrev percent : F → String
  percent x = f.fixed (x ⊗ whole 100) 2 <> "%"

  abbrev pub turnover : List (ProposedTrade F) → F → F
  turnover trades portfolio_value_usd =
      let buys = sum (map (λ t. t.notional) (keep (λ t. is_buy t.side) trades)) in
      let sells = sum (map (λ t. t.notional) (keep (λ t. is_sell t.side) trades)) in
      if portfolio_value_usd ≐ whole 0 then whole 0 else max_float buys sells ⊘ portfolio_value_usd

  unfoldable pub enforce_turnover_limit : List (ProposedTrade F) → F → F → List String
  enforce_turnover_limit trades portfolio_value_usd max_turnover_pct =
      let t = turnover trades portfolio_value_usd in
      warn_if (max_turnover_pct ≺ t) (
        "turnover "
        <> percent t
        <> " exceeds limit "
        <> percent max_turnover_pct
        <> "; block execution")

  abbrev join_tickers : List (ProposedTrade F) → String
  join_tickers [] = ""
  join_tickers (t ∷ []) = t.ticker
  join_tickers (t ∷ u ∷ ts) = t.ticker <> ", " <> join_tickers (u ∷ ts)

  abbrev pub some_trade : List (ProposedTrade F) → Bool
  some_trade [] = false
  some_trade (t ∷ ts) = true

  unfoldable pub enforce_order_limits : List (ProposedTrade F) → F → ℕ → List String
  enforce_order_limits trades max_order_notional_usd max_daily_trades =
      let oversized = keep (λ t. max_order_notional_usd ≺ t.notional) trades in
      warn_if (ltb max_daily_trades (length trades)) (
        "trade count "
        <> show (length trades)
        <> " exceeds limit "
        <> show max_daily_trades
        <> "; block execution")
      ++ warn_if (some_trade oversized) (
          "orders exceed max notional "
          <> f.fixed max_order_notional_usd 2
          <> ": "
          <> join_tickers oversized
          <> "; block execution")

  -- the estimated cost of one trade
  abbrev pub estimated_cost : F → F → ProposedTrade F → F
  estimated_cost cost_bps fixed_usd t = fixed_usd ⊕ t.notional ⊗ cost_bps ⊘ whole 10_000

  -- the loop over the trades
  unfoldable pub filter_by_cost :
      F → F → F → List (ProposedTrade F) → List (ProposedTrade F) × List String
  filter_by_cost min_usd cost_bps fixed_usd [] = ([], [])
  filter_by_cost min_usd cost_bps fixed_usd (t ∷ ts) =
      let (kept, warnings) = filter_by_cost min_usd cost_bps fixed_usd ts in
      let cost = estimated_cost cost_bps fixed_usd t in
      let benefit = t.notional ⊖ cost in
      if benefit ≺ min_usd
      then (
        kept,
        (t.ticker
              <> ": estimated transaction cost $"
              <> f.grouped cost 2
              <> " leaves $"
              <> f.grouped benefit 2
              <> " of rebalance benefit, below MIN_TRADE_NOTIONAL_USD=$"
              <> f.grouped min_usd 2
              <> "; skipping trade")
            ∷ warnings,
      )
      else (t ∷ kept, warnings)

  unfoldable pub filter_trades_by_estimated_transaction_cost :
      List (ProposedTrade F) → F → F → F → List (ProposedTrade F) × List String
  filter_trades_by_estimated_transaction_cost trades min_usd cost_bps fixed_usd =
      if (cost_bps ≼ whole 0) && (fixed_usd ≼ whole 0)
      then (trades, [])
      else filter_by_cost min_usd cost_bps fixed_usd trades

  abbrev pub net_cash_outflow : List (ProposedTrade F) → F
  net_cash_outflow trades =
      sum (map buy_cash_required_usd trades) ⊖ sum (map sell_cash_credit_usd trades)

  unfoldable pub enforce_buying_power : List (ProposedTrade F) → F → List String
  enforce_buying_power trades available_cash_usd =
      let net = net_cash_outflow trades in
      warn_if (available_cash_usd ⊕ f.dec 1 6 ≺ net) (
        "planned net buy cash requirement ($"
        <> f.grouped net 2
        <> ") exceeds available cash ($"
        <> f.grouped available_cash_usd 2
        <> "); block execution")
