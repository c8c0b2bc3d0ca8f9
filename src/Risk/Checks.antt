-- ===== src/Risk/Checks.antt =====
-- src/poma/risk.py: when the limits of a batch of trades give no warning.
use poma.Prelude.{
  string_eq, ℕ, ◌≤◌, false, List, [], ◌∷◌, ◌≡◌, ◌↔◌, refl, arith, length, keep, All, inl, inr,
  Bool-cases, Float, ◌≺◌,
}
use poma.Models.{ProposedTrade}
use poma.Risk.Limits.{some_trade, enforce_order_limits}

module _ {F : Type 0} ⦃f : Float F⦄ where
  oversized-none :
      (limit : F) (ts : List (ProposedTrade F))
      → (some_trade (keep (λ t. limit ≺ t.notional) ts) ≡ false)
        ↔ All (λ t. (limit ≺ t.notional) ≡ false) ts
  oversized-none limit [] = (λ e. tt, λ h. refl)
  oversized-none limit (t ∷ ts) = elim (Bool-cases (limit ≺ t.notional)) [
    | inl e ↦ ground (arith, oversized-none limit ts)
    | inr e ↦ ground (arith, oversized-none limit ts)
  ]

  -- `enforce_order_limits` gives no warning exactly where there are at most `max_daily_trades` trades
  -- and none of them is above `max_order_notional_usd`.
  pub enforce_order_limits-silent :
      (ts : List (ProposedTrade F)) (limit : F) (max_daily_trades : ℕ)
      → (enforce_order_limits ts limit max_daily_trades ≡ [])
        ↔ ((length ts ≤ max_daily_trades) × All (λ t. (limit ≺ t.notional) ≡ false) ts)
  unfolding enforce_order_limits
  enforce_order_limits-silent ts limit max_daily_trades =
      elim (Bool-cases (some_trade (keep (λ t. limit ≺ t.notional) ts))) [
        | inl e ↦ ground (arith, oversized-none limit ts)
        | inr e ↦ ground (arith, oversized-none limit ts)
      ]
