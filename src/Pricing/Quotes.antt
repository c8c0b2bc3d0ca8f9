-- ===== src/Pricing/Quotes.antt =====
-- src/poma/execution_pricing.py: `_select_execution_price` and `price_from_quote`. A refusal is the
-- text of its warning; every one of them ends in "block execution".
use poma.Prelude.{
  string_eq, Bool, false, not, ◌&&◌, ◌||◌, String, ◌<>◌, Option, none, some, [], ◌∷◌, ◌==◌, Float,
  whole, ◌⊕◌, ◌⊘◌, ◌≺◌, ◌≼◌, if◌then◌else◌, any, is_set, or_text, show,
}
use poma.Models.{OrderSide, is_buy, ExecutionQuote}
use poma.Config.{Settings, ExecutionPriceBasis, side_of_market, midpoint, last}
use poma.Pricing.Limits.{
  build_limit_price, inside_spread_limit_price, is_missing, compute_spread_bps,
}

abbrev pub wide_spread_midpoint_basis : String
wide_spread_midpoint_basis = "midpoint_wide_spread"

-- `_select_execution_price`: a price with its basis, or the warning that blocks the trade
pub data Selection (F : Type 0) : Type 0 where
  priced : F → String → Selection F
  refused : String → Selection F

-- `QuotePricing`, of a quote that prices the trade
pub data QuotePricing (F : Type 0) : Type 0 where
  pricing : F → F → String → QuotePricing F
  no_price : String → QuotePricing F

abbrev brackets : Option String → String
brackets e = if is_set e then " (" <> or_text e "" <> ")" else ""

abbrev inside_basis : String → Bool
inside_basis basis = basis == "side_of_market" || basis == wide_spread_midpoint_basis

module _ {F : Type 0} ⦃f : Float F⦄ where
  -- a number that is there and is NaN or infinite
  abbrev pub is_wild : Option F → Bool
  is_wild none = false
  is_wild (some x) = not (f.is_finite x)

  abbrev pub is_below : Option F → F → Bool
  is_below none bound = false
  is_below (some x) bound = x ≺ bound

  abbrev is_above : Option F → F → Bool
  is_above none bound = false
  is_above (some x) bound = bound ≺ x

  abbrev pub is_crossed : Option F → Option F → Bool
  is_crossed (some bid) (some ask) = ask ≺ bid
  is_crossed (some bid) none = false
  is_crossed none ask = false

  abbrev pub or_compute : Option F → Option F → Option F → Option F
  or_compute (some spread) bid ask = some spread
  or_compute none bid ask = compute_spread_bps bid ask

  -- the spread of a quote, as reported or from its two sides
  abbrev pub quote_spread : ExecutionQuote F → Option F
  quote_spread q = or_compute q.spread_bps q.bid q.ask

  abbrev missing_side : String → String → Selection F
  missing_side ticker side = refused (ticker <> " missing " <> side <> "; block execution")

  -- the midpoint of a quote with both sides
  abbrev middle : Option F → Option F → (F → Selection F) → Selection F → Selection F
  middle (some bid) (some ask) k other = k ((bid ⊕ ask) ⊘ whole 2)
  middle (some bid) none k other = other
  middle none ask k other = other

  -- the spread check, for a basis that is not `last`; `plain` is the price of a tight quote
  unfoldable pub check_spread : Settings F → ExecutionQuote F → Bool → Selection F → Selection F
  check_spread s q allow_wide_spread plain =
      let ceiling = s.execution_wide_spread_max_bps in
      let limit = if allow_wide_spread then ceiling else s.execution_max_spread_bps in
      elim (quote_spread q) [
        | none ↦ plain
        | some spread ↦
            let too_wide : Selection F = refused (
              "wide quote for "
              <> q.ticker
              <> " spread="
              <> f.fixed spread 0
              <> "bps max="
              <> f.fixed limit 0
              <> "bps; block execution") in
            if s.execution_max_spread_bps ≺ spread
            then (if allow_wide_spread && spread ≼ ceiling
                then middle q.bid q.ask (λ m. priced m wide_spread_midpoint_basis) too_wide
                else too_wide)
            else plain
      ]

  -- the price of the configured basis, of a quote that is usable and fresh
  unfoldable pub select_by_basis :
      ExecutionPriceBasis → Settings F → ExecutionQuote F → OrderSide → Bool → Selection F
  unfolding check_spread
  select_by_basis last s q side wide = elim q.last [
    | none ↦ missing_side q.ticker "last price"
    | some p ↦ if p ≼ whole 0 then missing_side q.ticker "last price" else priced p "last"
  ]
  select_by_basis midpoint s q side wide =
      if is_missing q.bid
      then missing_side q.ticker "bid"
      else if is_missing q.ask
      then missing_side q.ticker "ask"
      else check_spread s q wide
          (middle q.bid q.ask (λ m. priced m "midpoint") (missing_side q.ticker "bid"))
  select_by_basis side_of_market s q side wide =
      let label = if is_buy side then "ask" else "bid" in
      elim (if is_buy side then q.ask else q.bid) [
        | none ↦ missing_side q.ticker label
        | some p ↦
            if p ≼ whole 0
            then missing_side q.ticker label
            else check_spread s q wide (priced p "side_of_market")
      ]

  abbrev by_age : Option F → Selection F → (F → Selection F) → Selection F
  by_age none missing known = missing
  by_age (some age) missing known = known age

  -- the part of `_select_execution_price` from the check of the age on
  unfoldable pub select_fresh : ExecutionQuote F → OrderSide → Settings F → Bool → Selection F
  unfolding select_by_basis
  select_fresh q side s wide =
      let ticker = q.ticker in
      by_age q.age_seconds
        (refused (
          "missing quote timestamp for "
          <> ticker
          <> brackets q.broker_error
          <> "; block execution"))
        (λ age.
          if whole s.execution_quote_max_age_seconds ≺ age
          then refused (
              "stale "
              <> q.source
              <> " quote for "
              <> ticker
              <> " age="
              <> f.fixed age 0
              <> "s max="
              <> show s.execution_quote_max_age_seconds
              <> "s; block execution")
          else select_by_basis s.execution_price_basis s q side wide)

  -- `_select_execution_price`
  unfoldable pub select_execution_price :
      ExecutionQuote F → OrderSide → Settings F → Bool → Selection F
  select_execution_price q side s wide =
      let ticker = q.ticker in
      if q.contract_unresolved
      then refused (
          "IBKR has no US stock contract for "
          <> ticker
          <> brackets q.broker_error
          <> "; the symbol may have changed or been delisted; block execution")
      else if any is_wild (q.bid ∷ q.ask ∷ q.last ∷ q.age_seconds ∷ q.spread_bps ∷ [])
      then refused ("non-finite execution quote for " <> ticker <> "; block execution")
      else if is_below q.age_seconds (whole 0)
      then refused ("invalid quote age for " <> ticker <> "; block execution")
      else if is_crossed q.bid q.ask || is_below q.spread_bps (whole 0)
      then refused ("crossed execution quote for " <> ticker <> "; block execution")
      else if q.is_delayed && not s.allow_delayed_execution_quotes
      then refused (
          "delayed execution quote for " <> ticker
          <> " but ALLOW_DELAYED_EXECUTION_QUOTES=false; block execution")
      else select_fresh q side s wide

  -- the two sides of a quote, for a price of a basis that the limit may be placed inside of
  abbrev pub two_sided :
      Option F → Option F → (F → F → QuotePricing F) → QuotePricing F → QuotePricing F
  two_sided (some bid) (some ask) k other = k bid ask
  two_sided (some bid) none k other = other
  two_sided none ask k other = other

  -- `price_from_quote`; `aggression` is None for the replace of a reconcile pass
  unfoldable pub price_from_quote :
      ExecutionQuote F → OrderSide → Settings F → F → Bool → Option F → QuotePricing F
  price_from_quote q side s offset_bps wide aggression =
      elim (select_execution_price q side s wide) [
        | refused w ↦ no_price w
        | priced p basis ↦
            let plain = pricing p (build_limit_price side p offset_bps) basis in
            let crossing =
              if basis == wide_spread_midpoint_basis
              then two_sided q.bid q.ask
                  (λ bid ask. pricing p (inside_spread_limit_price side bid ask (whole 1)) basis)
                  plain
              else plain in
            elim aggression [
              | none ↦ crossing
              | some a ↦
                  if inside_basis basis
                  then two_sided q.bid q.ask
                      (λ bid ask. pricing p (inside_spread_limit_price side bid ask a) basis)
                      crossing
                  else crossing
            ]
      ]
