-- ===== src/Audit/Reached.antt =====
-- src/poma/rebalance_quality.py: what `assess_rebalance` certifies.
use poma.Prelude.{
  string_eq, nat_eq, Bool, true, false, not, ◌||◌, String, Option, none, some, List, [], ◌∷◌, map,
  keep, keys, length, Float, whole, sum, ◌⊖◌, ◌⊗◌, ◌≺◌, ◌≼◌, max_float, abs_float, All, ◌≡◌, refl,
  arith,
}
use poma.Models.{AccountSnapshot, total_value_usd}
use poma.Lifecycle.State.{is_unknown}
use poma.Lifecycle.Entry.{OrderLedgerEntry, is_terminal}
use poma.Risk.Tickers.{contains, NoRepeat, set_of-NoRepeat}
use poma.Audit.Quality.{
  target_reached, Assessment, is_capped, reference_total, all_drifts, cash_drift, desired_cash,
  target_values, tolerance, assess_by, assess_rebalance,
}
use poma.Audit.Holdings.{
  held_value, target_value, is_wanted, is_held, drift_tickers, drifts-tickers,
  contains-drift_tickers, contains-target_values, NoRepeat-target_values, values-target_values,
}

module _ {F : Type 0} ⦃f : Float F⦄ where
  -- the larger of the minimum of a trade and the share of the account value
  abbrev pub allowed : Assessment F → AccountSnapshot F → F
  allowed i a = max_float i.min_trade_notional_usd (total_value_usd a ⊗ i.min_weight_delta_pct)

  -- how far the value held of a ticker is from its target
  abbrev pub drift_of : Assessment F → AccountSnapshot F → String → F
  drift_of i a t =
      abs_float (held_value a.positions t ⊖ target_value (total_value_usd a) (whole 0) i.targets t)

  -- The drifts of all tickers that are wanted or held, each once, sum to no more than what is allowed.
  pub record IsInvested (i : Assessment F) (a : AccountSnapshot F) : Type 0 where
    pub tickers : List String
    pub once : NoRepeat tickers
    pub complete :
        (t : String) → contains tickers t ≡ (is_wanted i.targets t || is_held a.positions t)
    pub close : (allowed i a ≺ sum (map (drift_of i a) tickers)) ≡ false

  -- The cash is no further than what is allowed from what the targets, each ticker once, leave of the
  -- account value.
  pub record IsFunded (i : Assessment F) (a : AccountSnapshot F) : Type 0 where
    pub tickers : List String
    pub once : NoRepeat tickers
    pub complete : (t : String) → contains tickers t ≡ is_wanted i.targets t
    pub close :
        (allowed i a
          ≺ abs_float (
              a.cash_usd
              ⊖ (total_value_usd a
                  ⊖ sum (map (target_value (total_value_usd a) (whole 0) i.targets) tickers))))
        ≡ false

  -- What stands behind a target that is reached: a snapshot of a finite, positive value, no order that is
  -- unknown or works on, no cap on the account, and positions and cash near the targets.
  pub record IsReached (i : Assessment F) (o : Option (AccountSnapshot F)) : Type 0 where
    pub account : AccountSnapshot F
    pub confirmed : o ≡ some account
    pub finite : f.is_finite (total_value_usd account) ≡ true
    pub positive : (total_value_usd account ≼ whole 0) ≡ false
    pub known : All (λ e. is_unknown e.lifecycle_state ≡ false) i.order_entries
    pub settled : All (λ e. is_terminal e ≡ true) i.order_entries
    pub uncapped : is_capped i ≡ false
    pub invested : IsInvested i account
    pub funded : IsFunded i account

  uncapped-total :
      (i : Assessment F) (a : AccountSnapshot F)
      → is_capped i ≡ false
      → reference_total i a ≡ total_value_usd a
  uncapped-total i a h = rw h refl

  near-IsInvested :
      (i : Assessment F) (a : AccountSnapshot F)
      → is_capped i ≡ false
      → (tolerance i a ≺ sum (all_drifts i a)) ≡ false
      → IsInvested i a
  near-IsInvested i a h close = record {
    tickers = drift_tickers (total_value_usd a) i.targets a.positions;
    once = set_of-NoRepeat _;
    complete = contains-drift_tickers (total_value_usd a) i.targets a.positions;
    close = ground (
      arith,
      uncapped-total i a h,
      close,
      drifts-tickers (total_value_usd a) i.targets a.positions,
    );
  }

  near-IsFunded :
      (i : Assessment F) (a : AccountSnapshot F)
      → is_capped i ≡ false
      → (tolerance i a ≺ abs_float (cash_drift i a)) ≡ false
      → IsFunded i a
  unfolding desired_cash
  near-IsFunded i a h close = record {
    tickers = keys (target_values (total_value_usd a) [] i.targets);
    once = NoRepeat-target_values (total_value_usd a) [] i.targets tt;
    complete = λ t. contains-target_values (total_value_usd a) t [] i.targets;
    close =
        ground
          (arith, uncapped-total i a h, close, values-target_values (total_value_usd a) i.targets);
  }

  none_kept :
      (p : OrderLedgerEntry F → Bool) (es : List (OrderLedgerEntry F))
      → length (keep p es) ≡ 0
      → All (λ e. p e ≡ false) es
  none_kept p [] h = tt
  none_kept p (e ∷ es) h = ground (arith, h, none_kept p es)

  all_terminal :
      (es : List (OrderLedgerEntry F))
      → All (λ e. not (is_terminal e) ≡ false) es
      → All (λ e. is_terminal e ≡ true) es
  all_terminal [] h = tt
  all_terminal (e ∷ es) (h, hs) = ground (arith, h, all_terminal es hs)

  assess_by-IsReached :
      (i : Assessment F) (o : Option (AccountSnapshot F))
      → (assess_by i o).status ≡ target_reached
      → IsReached i o
  assess_by-IsReached i none h = ground (arith, h)
  assess_by-IsReached i (some a) h =
      (let plain : is_capped i ≡ false = ground (arith, h) in
        record {
          account = a;
          confirmed = refl;
          finite = ground (arith, h);
          positive = ground (arith, h);
          known = none_kept (λ e. is_unknown e.lifecycle_state) i.order_entries (ground (arith, h));
          settled =
              all_terminal i.order_entries
                (none_kept (λ e. not (is_terminal e)) i.order_entries (ground (arith, h)));
          uncapped = plain;
          invested = near-IsInvested i a plain (ground (arith, h));
          funded = near-IsFunded i a plain (ground (arith, h));
        })

  -- assess_rebalance reports target_reached only with a snapshot of a finite, positive account value, where
  -- no order is unknown or works on, the account is not above its cap, and neither the sum of the drifts nor
  -- that of the cash is above the larger of the minimum of a trade and the share of the account value. The
  -- drifts are those of all tickers wanted or held, each once: the sum of its positions' values less the
  -- last target's share of the account value; and the cash is compared with what the targets leave.
  pub assess_rebalance-IsReached :
      (i : Assessment F) → (assess_rebalance i).status ≡ target_reached → IsReached i i.snapshot
  unfolding assess_rebalance
  assess_rebalance-IsReached i h = assess_by-IsReached i i.snapshot h
