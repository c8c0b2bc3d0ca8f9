-- ===== src/Engine/Checks.antt =====
-- src/poma/risk.py: what a batch fulfils whose checks give no warning that blocks execution.
use poma.Prelude.{
  string_eq, ℕ, ◌≤◌, Bool, true, false, not, ◌&&◌, ◌||◌, String, ◌<>◌, List, [], ◌∷◌, ◌++◌, map,
  length, ltb, any, any-append, keep, show, has_infix, Float, All, whole, sum, ◌⊕◌, ◌⊗◌, ◌≺◌, ◌≡◌,
  refl, arith, Bool-cases, inl, inr, if◌then◌else◌,
}
use poma.Models.{TargetPosition, ProposedTrade}
use poma.Risk.Tickers.{contains}
use poma.Risk.Limits.{
  warn_if, validate_targets, turnover, enforce_turnover_limit, some_trade, enforce_order_limits,
}
use poma.Risk.Checks.{enforce_order_limits-silent}
use poma.Reconcile.Stale.{block_marker, is_blocked}
use poma.Reconcile.Blocking.{Marks, before}

-- the warnings of two groups
pub is_blocked-append :
    (xs ys : List String)
    → is_blocked (xs ++ ys) ≡ false
    → (is_blocked xs ≡ false) × (is_blocked ys ≡ false)
is_blocked-append xs ys h = ground (arith, h, any-append (has_infix block_marker) xs ys)

warn_if-clear : (b : Bool) (t : String) → Marks t → is_blocked (warn_if b t) ≡ false → b ≡ false
warn_if-clear true t marked h = ground (arith, marked, h)
warn_if-clear false t marked h = refl

-- the ends of the texts
ends_marked : Marks "; block execution"
unfolding has_infix poma.Prelude.has_prefix
ends_marked = refl

module _ {F : Type 0} ⦃f : Float F⦄ where
  -- above the largest weight of one company
  abbrev pub is_oversized : F → List String → TargetPosition F → Bool
  is_oversized max_position_pct exempt t =
      (max_position_pct ⊕ f.dec 1 9 ≺ t.target_weight) && not (contains exempt t.ticker)

  none_oversized :
      (limit : F) (exempt : List String) (ts : List (TargetPosition F))
      → any (is_oversized limit exempt) ts ≡ false
      → All (λ t. is_oversized limit exempt t ≡ false) ts
  none_oversized limit exempt [] h = tt
  none_oversized limit exempt (t ∷ ts) h = ground (arith, h, none_oversized limit exempt ts)

  pub validate_targets-clear :
      (ts : List (TargetPosition F)) (limit : F) (exempt : List String)
      → is_blocked (validate_targets ts limit exempt) ≡ false
      → ((f.dec 1_000_001 6 ≺ sum (map (λ t. t.target_weight) ts)) ≡ false)
        × All (λ t. is_oversized limit exempt t ≡ false) ts
  unfolding validate_targets
  validate_targets-clear ts limit exempt h =
      (let (front, rest) = is_blocked-append _ _ h in
        let (weights, single) = is_blocked-append _ _ front in
        (
          warn_if-clear _ _
              (before "target weights exceed 100%: " _ (before _ "; block execution" ends_marked))
              weights,
          none_oversized limit exempt ts (
              warn_if-clear _ _
                (before "one or more target weights exceed max_position_pct" "; block execution"
                  ends_marked)
                single),
        ))

  pub enforce_turnover_limit-clear :
      (ts : List (ProposedTrade F)) (value limit : F)
      → is_blocked (enforce_turnover_limit ts value limit) ≡ false
      → (limit ≺ turnover ts value) ≡ false
  unfolding enforce_turnover_limit
  enforce_turnover_limit-clear ts value limit h =
      warn_if-clear _ _
        (before "turnover " _
          (before _ _ (before " exceeds limit " _ (before _ "; block execution" ends_marked))))
        h

  pub enforce_order_limits-clear :
      (ts : List (ProposedTrade F)) (limit : F) (max_daily_trades : ℕ)
      → is_blocked (enforce_order_limits ts limit max_daily_trades) ≡ false
      → (length ts ≤ max_daily_trades) × All (λ t. (limit ≺ t.notional) ≡ false) ts
  unfolding enforce_order_limits
  enforce_order_limits-clear ts limit max_daily_trades h =
      (let (many, large) = is_blocked-append _ _ h in
        let few =
          warn_if-clear (ltb max_daily_trades (length ts)) _
            (before "trade count " _
              (before _ _ (before " exceeds limit " _ (before _ "; block execution" ends_marked))))
            many in
        let small =
          warn_if-clear (some_trade (keep (λ t. limit ≺ t.notional) ts)) _
            (before "orders exceed max notional " _
              (before _ _ (before ": " _ (before _ "; block execution" ends_marked))))
            large in
        (enforce_order_limits-silent ts limit max_daily_trades).0 (ground (arith, few, small)))
