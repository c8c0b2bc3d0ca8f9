-- ===== src/Pricing/Batch.antt =====
-- src/poma/execution_pricing.py: `apply_execution_quotes`, with the rules given, as its callers do.
use poma.Prelude.{
  string_eq, Bool, ◌||◌, String, ◌<>◌, none, some, List, [], ◌∷◌, Dict, lookup, Float, whole, ◌⊗◌,
  ◌⊘◌, ◌≺◌, ◌≼◌, max_float, if◌then◌else◌,
}
use poma.Models.{is_sell, ProposedTrade, ExecutionQuote, InstrumentExecutionRule}
use poma.Config.{Settings, source_value}
use poma.Policy.{resolve_execution_rule, rounded_execution_quantity, is_untradable}
use poma.Pricing.Quotes.{pricing, no_price, quote_spread, price_from_quote}

-- what one trade becomes: itself at a fresh price, or a warning
pub data Repriced (F : Type 0) : Type 0 where
  accepted : ProposedTrade F → Repriced F
  dropped : String → Repriced F

module _ {F : Type 0} ⦃f : Float F⦄ where
  -- the trade at a price, a limit and the quantity that its instrument can execute
  unfoldable pub reprice_at :
      Settings F
      → InstrumentExecutionRule F
      → ExecutionQuote F
      → ProposedTrade F
      → F
      → F
      → String
      → Repriced F
  reprice_at s rule q t price limit basis =
      let raw = if is_sell t.side then t.quantity else t.notional ⊘ price in
      let quantity = rounded_execution_quantity raw t.side rule in
      if is_untradable quantity rule
      then dropped (
          t.ticker
          <> ": repriced quantity "
          <> f.fixed raw 6
          <> " rounds below the tradable minimum for this instrument; skipping trade")
      else if limit ≼ whole 0 || s.max_order_notional_usd ≺ quantity ⊗ max_float price limit
      then dropped
          (t.ticker <> ": repriced order exceeds price/notional safety limits; block execution")
      else accepted (record t {
        quantity = quantity;
        notional = quantity ⊗ price;
        reference_price = price;
        limit_price = some limit;
        reference_price_source = source_value s.execution_price_source;
        reference_price_basis = basis;
        reference_price_as_of_utc = q.selected_price_as_of_utc;
        quote_age_seconds = q.age_seconds;
        quote_spread_bps = quote_spread q;
      })

  -- the body of the loop
  unfoldable pub reprice_trade :
      Dict String (ExecutionQuote F)
      → Settings F
      → Dict String (InstrumentExecutionRule F)
      → Bool
      → ProposedTrade F
      → Repriced F
  unfolding reprice_at
  reprice_trade quotes s rules wide t = elim (lookup t.ticker quotes) [
    | none ↦ dropped (
        "missing "
        <> source_value s.execution_price_source
        <> " execution quote for "
        <> t.ticker
        <> "; block execution")
    | some q ↦
        elim (price_from_quote q t.side s s.limit_offset_bps wide
          (some s.execution_limit_aggression)) [
            | no_price w ↦ dropped w
            | pricing price limit basis ↦
                reprice_at s (resolve_execution_rule t.ticker rules) q t price limit basis
          ]
  ]

  abbrev pub add_repriced :
      Repriced F → List (ProposedTrade F) × List String → List (ProposedTrade F) × List String
  add_repriced (accepted t) (ts, ws) = (t ∷ ts, ws)
  add_repriced (dropped w) (ts, ws) = (ts, w ∷ ws)

  unfoldable pub apply_execution_quotes :
      List (ProposedTrade F)
      → Dict String (ExecutionQuote F)
      → Settings F
      → Dict String (InstrumentExecutionRule F)
      → Bool
      → List (ProposedTrade F) × List String
  apply_execution_quotes [] quotes s rules wide = ([], [])
  apply_execution_quotes (t ∷ ts) quotes s rules wide =
      add_repriced (reprice_trade quotes s rules wide t)
        (apply_execution_quotes ts quotes s rules wide)
