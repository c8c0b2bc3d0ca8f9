-- ===== src/Risk/Planning.antt =====
-- src/poma/risk.py: `generate_trades`, the trades that a plan proposes to reach its targets.
use poma.Prelude.{
  string_eq, Bool, false, not, ◌&&◌, ◌||◌, String, ◌<>◌, Option, none, some, List, [], ◌∷◌, ◌++◌,
  Dict, lookup, insert, keys, Float, whole, ◌⊖◌, ◌⊘◌, ◌≺◌, ◌≼◌, ◌≐◌, min_float, abs_float,
  if◌then◌else◌,
}
use poma.Models.{OrderSide, buy, sell, is_sell, CurrentPosition, TargetPosition, ProposedTrade}
use poma.Pricing.{build_limit_price}
use poma.Risk.Tickers.{sorted, set_of}

-- The parameters of `generate_trades` beside the portfolio and the targets.
pub record PlanningLimits (F : Type 0) : Type 0 where
  pub portfolio_value_usd : F
  pub min_trade_notional_usd : F
  pub min_weight_delta_pct : F
  pub limit_offset_bps : F

-- what one pass of the loop does: a division by a portfolio value or a price of zero raises
pub data Planned (F : Type 0) : Type 0 where
  raised : Planned F
  nothing : List String → Planned F
  proposed : List String → ProposedTrade F → Planned F

module _ {F : Type 0} ⦃f : Float F⦄ where
  -- `{p.ticker: p for p in current_positions}`
  abbrev positions_from :
      Dict String (CurrentPosition F) → List (CurrentPosition F) → Dict String (CurrentPosition F)
  positions_from d [] = d
  positions_from d (p ∷ ps) = positions_from (insert p.ticker p d) ps

  abbrev pub by_ticker : List (CurrentPosition F) → Dict String (CurrentPosition F)
  by_ticker ps = positions_from [] ps

  -- `{t.ticker: t.target_notional for t in targets}`
  abbrev targets_from : Dict String F → List (TargetPosition F) → Dict String F
  targets_from d [] = d
  targets_from d (t ∷ ts) = targets_from (insert t.ticker t.target_notional d) ts

  abbrev pub target_by_ticker : List (TargetPosition F) → Dict String F
  target_by_ticker ts = targets_from [] ts

  abbrev pub value_or_zero : Option (CurrentPosition F) → F
  value_or_zero none = whole 0
  value_or_zero (some p) = p.market_value

  abbrev pub number_or_zero : Option F → F
  number_or_zero none = whole 0
  number_or_zero (some x) = x

  -- `_position_reference_price`
  unfoldable pub position_reference_price : Option (CurrentPosition F) → Option F
  position_reference_price none = none
  position_reference_price (some p) =
      if p.quantity ≼ whole 0 || p.market_value ≼ whole 0
      then none
      else some (p.market_value ⊘ p.quantity)

  -- `price is None or price != price or price <= 0`, the other way round
  abbrev pub is_valid_price : Option F → Bool
  is_valid_price none = false
  is_valid_price (some price) = (price ≐ price) && not (price ≼ whole 0)

  -- `min(quantity, abs(current.quantity))` of a sale
  abbrev pub capped : OrderSide → Option (CurrentPosition F) → F → F
  capped side none quantity = quantity
  capped side (some p) quantity =
      if is_sell side then min_float quantity (abs_float p.quantity) else quantity

  -- the trade at a price, unless its quantity is not positive; the price of a position may underflow to
  -- zero
  unfoldable pub planned_at :
      PlanningLimits F
      → String
      → OrderSide
      → F
      → Option (CurrentPosition F)
      → List String
      → F
      → Planned F
  planned_at limits ticker side delta current warnings price =
      let quantity = capped side current (abs_float delta ⊘ price) in
      if price ≐ whole 0
      then raised
      else if quantity ≼ whole 0
      then nothing warnings
      else proposed warnings (record {
        ticker = ticker;
        side = side;
        quantity = quantity;
        notional = abs_float delta;
        reference_price = price;
        limit_price = some (build_limit_price side price limits.limit_offset_bps);
        reason = "rebalance_to_target_weight";
        order_ref = none;
        reference_price_source = "snapshot";
        reference_price_basis = "snapshot_price";
        reference_price_as_of_utc = none;
        quote_age_seconds = none;
        quote_spread_bps = none;
      })

  abbrev pub priced_if : Option F → (F → Planned F) → Planned F → Planned F
  priced_if none at other = other
  priced_if (some price) at other = at price

  unfoldable pub without_price :
      PlanningLimits F → String → OrderSide → F → Option (CurrentPosition F) → Planned F
  without_price limits ticker side delta current =
      priced_if (if is_sell side then position_reference_price current else none)
        (planned_at limits ticker side delta current (
          ("missing valid latest price for held " <> ticker
            <> "; using broker position market value for risk-reducing sell planning")
          ∷ []))
        (nothing (("missing valid latest price for " <> ticker <> "; skipping trade") ∷ []))

  -- with the latest price, or without a valid one
  abbrev pub priced_or : Option F → (F → Planned F) → Planned F → Planned F
  priced_or none at other = other
  priced_or (some price) at other = if is_valid_price (some price) then at price else other

  -- one pass of the loop over the tickers
  unfoldable pub plan_ticker :
      PlanningLimits F
      → Dict String (CurrentPosition F)
      → Dict String F
      → Dict String F
      → String
      → Planned F
  plan_ticker limits positions targets latest_prices ticker =
      let current = lookup ticker positions in
      let delta = number_or_zero (lookup ticker targets) ⊖ value_or_zero current in
      let side = if whole 0 ≺ delta then buy else sell in
      if abs_float delta ≺ limits.min_trade_notional_usd
      then nothing []
      else if limits.portfolio_value_usd ≐ whole 0
      then raised
      else if abs_float delta ⊘ limits.portfolio_value_usd ≺ limits.min_weight_delta_pct
      then nothing []
      else priced_or (lookup ticker latest_prices) (planned_at limits ticker side delta current [])
          (without_price limits ticker side delta current)

  -- the trades and warnings of the passes, unless one raises
  abbrev pub add_planned :
      Planned F
      → Option (List (ProposedTrade F) × List String)
      → Option (List (ProposedTrade F) × List String)
  add_planned p none = none
  add_planned raised (some rest) = none
  add_planned (nothing ws) (some (ts, rest)) = some (ts, ws ++ rest)
  add_planned (proposed ws t) (some (ts, rest)) = some (t ∷ ts, ws ++ rest)

  abbrev pub plan_tickers :
      (String → Planned F) → List String → Option (List (ProposedTrade F) × List String)
  plan_tickers step [] = some ([], [])
  plan_tickers step (t ∷ ts) = add_planned (step t) (plan_tickers step ts)

  -- `generate_trades`: the trades and the warnings, or `none` where it raises
  unfoldable pub generate_trades :
      PlanningLimits F
      → List (TargetPosition F)
      → List (CurrentPosition F)
      → Dict String F
      → Option (List (ProposedTrade F) × List String)
  generate_trades limits targets current_positions latest_prices =
      let positions = by_ticker current_positions in
      let wanted = target_by_ticker targets in
      plan_tickers (plan_ticker limits positions wanted latest_prices)
        (sorted (set_of (keys positions ++ keys wanted)))
