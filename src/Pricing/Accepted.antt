-- ===== src/Pricing/Accepted.antt =====
-- src/poma/execution_pricing.py: the trades that `apply_execution_quotes` accepts.
use poma.Prelude.{
  string_eq, suc, ◌+◌, Bool, false, ◌||◌, String, Option, none, some, List, [], ◌∷◌, ◌≡◌, refl,
  arith, All, length, Bool-cases, Option-cases, inl, inr, Dict, lookup, Float, whole, ◌⊗◌, ◌⊘◌, ◌≺◌,
  ◌≼◌, max_float, if◌then◌else◌,
}
use poma.Models.{is_sell, ProposedTrade, ExecutionQuote, InstrumentExecutionRule}
use poma.Config.{Settings}
use poma.Policy.{resolve_execution_rule, rounded_execution_quantity, is_untradable}
use poma.Pricing.Quotes.{price_from_quote}
use poma.Pricing.Batch.{
  Repriced, accepted, dropped, reprice_at, reprice_trade, apply_execution_quotes, add_repriced,
}
use poma.Pricing.Safety.{IsUsable, QuotePricing-cases, price_from_quote-IsUsable}

module _ {F : Type 0} ⦃f : Float F⦄ (quotes : Dict String (ExecutionQuote F)) (s : Settings F)
    (rules : Dict String (InstrumentExecutionRule F)) (wide : Bool) where
  abbrev pub QuoteUsable : Option (ExecutionQuote F) → Type 0
  QuoteUsable none = ⊥
  QuoteUsable (some q) = IsUsable s q

  -- an order that may be sent: its instrument trades that quantity, its limit is positive, neither its
  -- price nor its limit takes it above the largest notional, and its quote is usable
  pub record IsSafe (t : ProposedTrade F) : Type 0 where
    pub tradable : is_untradable t.quantity (resolve_execution_rule t.ticker rules) ≡ false
    pub limit : F
    pub limit_eq : t.limit_price ≡ some limit
    pub positive : (limit ≼ whole 0) ≡ false
    pub bounded :
        (s.max_order_notional_usd ≺ t.quantity ⊗ max_float t.reference_price limit) ≡ false
    pub quoted : QuoteUsable (lookup t.ticker quotes)

  abbrev AcceptedSafe : Repriced F → Type 0
  AcceptedSafe (accepted t) = IsSafe t
  AcceptedSafe (dropped w) = Unit

  reprice_at-AcceptedSafe :
      (q : ExecutionQuote F) (t : ProposedTrade F) (price limit : F) (basis : String)
      → QuoteUsable (lookup t.ticker quotes)
      → AcceptedSafe (reprice_at s (resolve_execution_rule t.ticker rules) q t price limit basis)
  unfolding reprice_at
  reprice_at-AcceptedSafe q t price limit basis usable =
      let rule = resolve_execution_rule t.ticker rules in
      let raw = if is_sell t.side then t.quantity else t.notional ⊘ price in
      let quantity = rounded_execution_quantity raw t.side rule in
      elim (Bool-cases (is_untradable quantity rule)) [
        | inl e ↦ simp e tt
        | inr fine ↦
            elim (Bool-cases
              (limit ≼ whole 0 || s.max_order_notional_usd ≺ quantity ⊗ max_float price limit)) [
                | inl e ↦ simp (fine, e) tt
                | inr within ↦
                    simp (fine, within)
                      (record {
                        tradable = fine;
                        limit = limit;
                        limit_eq = refl;
                        positive = ground arith;
                        bounded = ground arith;
                        quoted = usable;
                      })
              ]
      ]

  reprice_trade-AcceptedSafe :
      (t : ProposedTrade F) → AcceptedSafe (reprice_trade quotes s rules wide t)
  unfolding reprice_trade
  reprice_trade-AcceptedSafe t = elim (Option-cases (lookup t.ticker quotes)) [
    | inl e ↦ rw (e, reprice_trade) tt
    | inr (q, e) ↦
        let pricing_of =
          price_from_quote q t.side s s.limit_offset_bps wide (some s.execution_limit_aggression) in
        elim (QuotePricing-cases pricing_of) [
          | inl (w, none_left) ↦ rw (e, none_left, reprice_trade) tt
          | inr (price, limit, basis, found) ↦
              elim (price_from_quote-IsUsable q t.side s s.limit_offset_bps wide
                (some s.execution_limit_aggression)) [
                  | inl usable ↦
                      rw (e, found, reprice_trade)
                        (reprice_at-AcceptedSafe q t price limit basis (rw e usable))
                  | inr (w, refused) ↦ cc
                ]
        ]
  ]

  add_repriced-AcceptedSafe :
      (r : Repriced F) (rest : List (ProposedTrade F) × List String)
      → AcceptedSafe r
      → All IsSafe rest.0
      → All IsSafe (add_repriced r rest).0
        × (length (add_repriced r rest).0 + length (add_repriced r rest).1
            ≡ suc (length rest.0 + length rest.1))
  add_repriced-AcceptedSafe (accepted t) rest safe h = ((safe, h), omega arith)
  add_repriced-AcceptedSafe (dropped w) rest safe h = (h, omega arith)

  -- Every trade that `apply_execution_quotes` accepts has a quantity that its instrument can trade, a
  -- positive limit, a notional at its price and at its limit that is not above the largest allowed, and
  -- a quote that is resolved, finite, not crossed, not delayed unless that is allowed, and no older than
  -- allowed; and every trade of the batch is either accepted or has a warning.
  pub apply_execution_quotes-IsSafe :
      (ts : List (ProposedTrade F))
      → let (repriced, warnings) = apply_execution_quotes ts quotes s rules wide in
        All IsSafe repriced × (length repriced + length warnings ≡ length ts)
  unfolding apply_execution_quotes
  apply_execution_quotes-IsSafe [] = (tt, omega arith)
  apply_execution_quotes-IsSafe (t ∷ ts) =
      let (safe, count) = apply_execution_quotes-IsSafe ts in
      let (all, one_more) =
        add_repriced-AcceptedSafe (reprice_trade quotes s rules wide t)
          (apply_execution_quotes ts quotes s rules wide) (reprice_trade-AcceptedSafe t) safe in
      (all, omega (arith, count, one_more))
