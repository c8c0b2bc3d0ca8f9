-- ===== src/Risk/Planned.antt =====
-- src/poma/risk.py: one pass of the loop of `generate_trades`.
use poma.Prelude.{
  string_eq, true, false, not, String, Option, none, some, List, [], ◌≡◌, refl, arith, Option-cases,
  Bool-cases, inl, inr, Dict, lookup, Float, whole, IsOrdered, ◌⊖◌, ◌⊘◌, ◌≺◌, ◌≼◌, ◌≐◌, abs_float,
  if◌then◌else◌,
}
use poma.Models.{OrderSide, buy, sell, is_buy, is_sell, CurrentPosition, ProposedTrade}
use poma.Pricing.{build_limit_price}
use poma.Risk.Planning.{
  PlanningLimits, Planned, raised, nothing, proposed, is_valid_price, planned_at, without_price,
  plan_ticker, priced_or, capped, position_reference_price, number_or_zero, value_or_zero,
}

one_side : (side : OrderSide) → is_buy side ≡ not (is_sell side)
one_side buy = refl
one_side sell = refl

module _ {F : Type 0} ⦃f : Float F⦄ where
  -- a sale sells no more than the position holds
  abbrev pub FitsPosition : OrderSide → F → Option (CurrentPosition F) → Type 0
  FitsPosition side quantity none = Unit
  FitsPosition side quantity (some p) =
      is_sell side ≡ true → (abs_float p.quantity ≺ quantity) ≡ false

  -- What each proposed trade is: large enough, of a positive quantity, a sale within the position, a
  -- purchase at a valid latest price, with the limit of its price.
  pub record IsPlanned (limits : PlanningLimits F) (positions : Dict String (CurrentPosition F))
      (latest_prices : Dict String F) (t : ProposedTrade F) : Type 0 where
    pub large : (t.notional ≺ limits.min_trade_notional_usd) ≡ false
    pub tradable : (t.quantity ≼ whole 0) ≡ false
    pub fits : FitsPosition t.side t.quantity (lookup t.ticker positions)
    pub bought_at_latest :
        is_buy t.side ≡ true
        → (lookup t.ticker latest_prices ≡ some t.reference_price)
          × (is_valid_price (some t.reference_price) ≡ true)
    pub limited :
        t.limit_price ≡ some (build_limit_price t.side t.reference_price limits.limit_offset_bps)

  -- what a pass may give for a ticker
  abbrev pub PlannedFor :
      PlanningLimits F
      → Dict String (CurrentPosition F)
      → Dict String F
      → String
      → Planned F
      → Type 0
  PlannedFor limits positions prices ticker raised = Unit
  PlannedFor limits positions prices ticker (nothing ws) = Unit
  PlannedFor limits positions prices ticker (proposed ws t) =
      (t.ticker ≡ ticker) × IsPlanned limits positions prices t

  module _ (laws : IsOrdered F) (limits : PlanningLimits F)
      (positions : Dict String (CurrentPosition F)) (prices : Dict String F) (ticker : String) where
    capped-fits :
        (side : OrderSide) (p : CurrentPosition F) (q : F)
        → is_sell side ≡ true
        → (abs_float p.quantity ≺ capped side (some p) q) ≡ false
    capped-fits side p q sells = elim (Bool-cases (abs_float p.quantity ≺ q)) [
      | inl e ↦ simp (sells, e, laws.lt_irrefl)
      | inr e ↦ simp (sells, e)
    ]

    fits-capped :
        (side : OrderSide) (current : Option (CurrentPosition F)) (q : F)
        → FitsPosition side (capped side current q) current
    fits-capped side none q = tt
    fits-capped side (some p) q = capped-fits side p q

    planned_at-PlannedFor :
        (side : OrderSide) (delta : F) (ws : List String) (price : F)
        → (abs_float delta ≺ limits.min_trade_notional_usd) ≡ false
        → (is_buy side ≡ true
            → (lookup ticker prices ≡ some price) × (is_valid_price (some price) ≡ true))
        → PlannedFor limits positions prices ticker
            (planned_at limits ticker side delta (lookup ticker positions) ws price)
    unfolding planned_at
    planned_at-PlannedFor side delta ws price large bought =
        let current = lookup ticker positions in
        let quantity = capped side current (abs_float delta ⊘ price) in
        elim (Bool-cases (price ≐ whole 0)) [
          | inl z ↦ rw z tt
          | inr z ↦ elim (Bool-cases (quantity ≼ whole 0)) [
            | inl e ↦ rw (z, e) tt
            | inr e ↦
                rw (z, e)
                  (
                    refl,
                    record {
                      large = large;
                      tradable = e;
                      fits = fits-capped side current (abs_float delta ⊘ price);
                      bought_at_latest = bought;
                      limited = refl;
                    },
                  )
          ]
        ]

    without_price-PlannedFor :
        (side : OrderSide) (delta : F)
        → (abs_float delta ≺ limits.min_trade_notional_usd) ≡ false
        → PlannedFor limits positions prices ticker
            (without_price limits ticker side delta (lookup ticker positions))
    unfolding without_price
    without_price-PlannedFor side delta large = elim (Bool-cases (is_sell side)) [
      | inr s ↦ rw s tt
      | inl s ↦ elim (Option-cases (position_reference_price (lookup ticker positions))) [
        | inl e ↦ rw (s, e) tt
        | inr (p, e) ↦
            rw (s, e)
              (planned_at-PlannedFor side delta _ p large (λ b. ground (arith, one_side side)))
      ]
    ]

    priced-PlannedFor :
        (side : OrderSide) (delta : F)
        → (abs_float delta ≺ limits.min_trade_notional_usd) ≡ false
        → PlannedFor limits positions prices ticker (
            priced_or
              (lookup ticker prices)
              (planned_at limits ticker side delta (lookup ticker positions) [])
              (without_price limits ticker side delta (lookup ticker positions)))
    priced-PlannedFor side delta large = elim (Option-cases (lookup ticker prices)) [
      | inl e ↦ rw e (without_price-PlannedFor side delta large)
      | inr (p, e) ↦ elim (Bool-cases (is_valid_price (some p))) [
        | inl v ↦ rw (e, v) (planned_at-PlannedFor side delta [] p large (λ b. (e, v)))
        | inr v ↦ rw (e, v) (without_price-PlannedFor side delta large)
      ]
    ]

    pub plan_ticker-PlannedFor :
        (targets : Dict String F)
        → PlannedFor limits positions prices ticker
            (plan_ticker limits positions targets prices ticker)
    unfolding plan_ticker
    plan_ticker-PlannedFor targets =
        let delta =
          number_or_zero (lookup ticker targets) ⊖ value_or_zero (lookup ticker positions) in
        let value = limits.portfolio_value_usd in
        elim (Bool-cases (abs_float delta ≺ limits.min_trade_notional_usd)) [
          | inl small ↦ rw small tt
          | inr large ↦ elim (Bool-cases (value ≐ whole 0)) [
            | inl z ↦ rw (large, z) tt
            | inr z ↦ elim (Bool-cases (abs_float delta ⊘ value ≺ limits.min_weight_delta_pct)) [
              | inl light ↦ rw (large, z, light) tt
              | inr light ↦
                  rw (large, z, light)
                    (priced-PlannedFor (if whole 0 ≺ delta then buy else sell) delta large)
            ]
          ]
        ]
