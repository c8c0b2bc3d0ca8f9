-- ===== src/Reconcile/Escalation.antt =====
-- src/poma/execution_manager.py: `_fresh_replace_limit_price`, the price of the one replacement of an
-- order; src/poma/order_lifecycle.py: `more_aggressive_limit_price`.
use poma.Prelude.{
  string_eq, Bool, true, false, not, ◌&&◌, ◌||◌, String, Option, none, some, [], ◌∷◌, lookup, Float,
  whole, ◌⊕◌, ◌⊖◌, ◌⊗◌, ◌⊘◌, ◌≺◌, ◌≼◌, if◌then◌else◌,
}
use poma.Models.{OrderSide, is_buy, is_sell, ExecutionQuote}
use poma.Config.{Settings, is_ibkr, source_value}
use poma.Lifecycle.Entry.{OrderLedgerEntry}
use poma.Pricing.{QuotePricing, pricing, no_price, price_from_quote, quote_spread}
use poma.Execution.World.{Broker, Exec, pure, ◌>>=◌}
use poma.Reconcile.Desk.{Desk, query}

-- the provenance of a fresh price
pub record QuoteMetadata (F : Type 0) : Type 0 where
  pub reference_price : F
  pub reference_price_source : String
  pub reference_price_basis : String
  pub reference_price_as_of_utc : Option String
  pub quote_age_seconds : Option F
  pub quote_spread_bps : Option F

-- the new limit, with the provenance that replaces the entry's, where there is one
pub record Escalation (F : Type 0) : Type 0 where
  pub new_limit : F
  pub metadata : Option (QuoteMetadata F)

-- `replace(entry, **quote_metadata)`
abbrev pub with_metadata :
    {F : Type 0} → Option (QuoteMetadata F) → OrderLedgerEntry F → OrderLedgerEntry F
with_metadata none e = e
with_metadata (some m) e = record e {
  reference_price = some m.reference_price;
  reference_price_source = some m.reference_price_source;
  reference_price_basis = some m.reference_price_basis;
  reference_price_as_of_utc = m.reference_price_as_of_utc;
  quote_age_seconds = m.quote_age_seconds;
  quote_spread_bps = m.quote_spread_bps;
}

module _ {F : Type 0} ⦃f : Float F⦄ where
  -- the spread is known and not above the largest for a tight quote
  abbrev pub is_tight : Settings F → Option F → Bool
  is_tight s none = false
  is_tight s (some spread) = not (s.execution_max_spread_bps ≺ spread)

  -- the old limit already reaches the far side of the quote
  abbrev pub is_executable : OrderSide → Option F → F → Bool
  is_executable side none new_limit = false
  is_executable side (some old) new_limit =
      (is_buy side && (new_limit ≼ old)) || (is_sell side && (old ≼ new_limit))

  -- the new limit is further against the order than its arrival price allows, or there is none
  abbrev pub is_adverse : Settings F → OrderSide → Option F → F → Bool
  is_adverse s side none new_limit = true
  is_adverse s side (some reference) new_limit =
      let sign = if is_buy side then whole 1 else f.neg (whole 1) in
      (reference ≼ whole 0)
      || (s.max_reprice_adverse_bps ≺ (new_limit ⊖ reference) ⊗ sign ⊘ reference ⊗ whole 10_000)

  -- the new limit may not replace that of the order
  abbrev pub is_refused : Settings F → OrderLedgerEntry F → F → Bool
  is_refused s e new_limit =
      is_executable e.side e.limit_price new_limit
      || is_adverse s e.side e.reference_price new_limit
      || (s.max_order_notional_usd ⊕ f.dec 1 6 ≺ e.quantity ⊗ new_limit)

  -- the far side of a tight quote with both sides
  abbrev pub far_side : Settings F → OrderSide → ExecutionQuote F → Option F → Option F → Option F
  far_side s side q none ask = none
  far_side s side q (some bid) none = none
  far_side s side q (some bid) (some ask) =
      if is_tight s (quote_spread q) then some (if is_buy side then ask else bid) else none

  abbrev bounded :
      Settings F → OrderLedgerEntry F → QuoteMetadata F → Option F → Option (Escalation F)
  bounded s e m none = none
  bounded s e m (some new_limit) =
      if is_refused s e new_limit
      then none
      else some (record { new_limit = new_limit; metadata = some m })

  -- the escalation that a quote allows
  abbrev priced_escalation :
      Settings F → OrderLedgerEntry F → ExecutionQuote F → QuotePricing F → Option (Escalation F)
  priced_escalation s e q (no_price w) = none
  priced_escalation s e q (pricing price limit basis) =
      bounded s e
        (record {
          reference_price = price;
          reference_price_source = source_value s.execution_price_source;
          reference_price_basis = basis;
          reference_price_as_of_utc = q.selected_price_as_of_utc;
          quote_age_seconds = q.age_seconds;
          quote_spread_bps = quote_spread q;
        })
        (far_side s e.side q q.bid q.ask)

  unfoldable pub quoted_escalation :
      Settings F → OrderLedgerEntry F → Option (ExecutionQuote F) → Option (Escalation F)
  quoted_escalation s e none = none
  quoted_escalation s e (some q) =
      priced_escalation s e q
        (price_from_quote q e.side s s.replace_price_improvement_bps true none)

  -- `more_aggressive_limit_price`
  unfoldable pub more_aggressive_limit_price : OrderSide → F → F → F
  more_aggressive_limit_price side limit_price improvement_bps =
      let step = improvement_bps ⊘ whole 10_000 in
      let multiplier = if is_buy side then whole 1 ⊕ step else whole 1 ⊖ step in
      f.round_to (limit_price ⊗ multiplier) 2

  abbrev improved : Settings F → OrderLedgerEntry F → Option F → Option (Escalation F)
  improved s e none = none
  improved s e (some old) = some (record {
    new_limit = more_aggressive_limit_price e.side old s.replace_price_improvement_bps;
    metadata = none;
  })

  -- `_fresh_replace_limit_price`
  unfoldable pub fresh_replace_limit_price :
      {S W : Type 0}
      → Broker F W
      → Settings F
      → OrderLedgerEntry F
      → Exec (Desk F S W) (Option (Escalation F))
  fresh_replace_limit_price br s e =
      if not (is_ibkr s.execution_price_source) then pure (improved s e e.limit_price) else (do
        quotes ← query (br.execution_quotes (e.ticker ∷ []))
        pure (quoted_escalation s e (lookup e.ticker quotes)))
