-- ===== src/Audit/Quality.antt =====
-- src/poma/rebalance_quality.py: `assess_rebalance`. The tickers of the union of the two mappings come in
-- the order of the targets, then of the positions.
use poma.Prelude.{
  string_eq, nat_eq, ℕ, Bool, false, not, ◌||◌, String, Option, none, some, List, [], ◌∷◌, ◌++◌,
  ◌==◌, map, keep, length, is_some, Dict, lookup, insert, keys, values, Float, whole, sum, ◌⊕◌, ◌⊖◌,
  ◌⊗◌, ◌⊘◌, ◌≺◌, ◌≼◌, min_float, max_float, abs_float, if◌then◌else◌,
}
use poma.Models.{TargetPosition, CurrentPosition, AccountSnapshot, total_value_usd}
use poma.Lifecycle.State.{is_unknown}
use poma.Lifecycle.Entry.{OrderLedgerEntry, is_terminal}
use poma.Risk.Tickers.{set_of}

pub data RebalanceStatus : Type 0 where
  unknown_status pending incomplete target_reached : RebalanceStatus

abbrev pub rebalance_status_value : RebalanceStatus → String
rebalance_status_value unknown_status = "unknown"
rebalance_status_value pending = "pending"
rebalance_status_value incomplete = "incomplete"
rebalance_status_value target_reached = "target_reached"

-- the arguments of `assess_rebalance`
pub record Assessment (F : Type 0) : Type 0 where
  pub targets : List (TargetPosition F)
  pub planned_value_usd : F
  pub snapshot : Option (AccountSnapshot F)
  pub order_entries : List (OrderLedgerEntry F)
  pub original_broker_value_usd : Option F
  pub min_trade_notional_usd : F
  pub min_weight_delta_pct : F

-- the dictionary that it returns
pub record RebalanceReport (F : Type 0) : Type 0 where
  pub status : RebalanceStatus
  pub order_count : ℕ
  pub working_orders : ℕ
  pub unverified_orders : ℕ
  pub requested_shares : F
  pub filled_shares : F
  pub fill_ratio : F
  pub target_error_usd : F
  pub target_error_pct : F
  pub max_ticker_drift_usd : F
  pub cash_drift_usd : Option F
  pub target_cash_usd : Option F
  pub observed_cash_usd : Option F
  pub snapshot_available : Bool
  pub warning : String

module _ {F : Type 0} ⦃f : Float F⦄ where
  abbrev pub requested_shares : List (OrderLedgerEntry F) → F
  requested_shares es = sum (map (λ e. max_float e.quantity (whole 0)) es)

  abbrev pub filled_shares : List (OrderLedgerEntry F) → F
  filled_shares es =
      sum (
        map (λ e. min_float (max_float e.filled_qty (whole 0)) (max_float e.quantity (whole 0))) es)

  abbrev pub working_orders : List (OrderLedgerEntry F) → ℕ
  working_orders es = length (keep (λ e. not (is_terminal e)) es)

  abbrev pub unverified_orders : List (OrderLedgerEntry F) → ℕ
  unverified_orders es = length (keep (λ e. is_unknown e.lifecycle_state) es)

  abbrev pub fill_ratio : List (OrderLedgerEntry F) → F
  fill_ratio es =
      if whole 0 ≺ requested_shares es
      then min_float (whole 1) (filled_shares es ⊘ requested_shares es)
      else whole 1

  -- the report where nothing is certified
  abbrev pub uncertified : Assessment F → String → RebalanceReport F
  uncertified i warning = record {
    status = unknown_status;
    order_count = length i.order_entries;
    working_orders = working_orders i.order_entries;
    unverified_orders = unverified_orders i.order_entries;
    requested_shares = requested_shares i.order_entries;
    filled_shares = filled_shares i.order_entries;
    fill_ratio = fill_ratio i.order_entries;
    target_error_usd = whole 0;
    target_error_pct = whole 0;
    max_ticker_drift_usd = whole 0;
    cash_drift_usd = none;
    target_cash_usd = none;
    observed_cash_usd = none;
    snapshot_available = is_some i.snapshot;
    warning = warning;
  }

  abbrev above_cap : Option F → F → Bool
  above_cap none planned = false
  above_cap (some original) planned = planned ⊗ f.dec 1_001 3 ≺ original

  abbrev pub is_capped : Assessment F → Bool
  is_capped i = above_cap i.original_broker_value_usd i.planned_value_usd

  abbrev pub reference_total : Assessment F → AccountSnapshot F → F
  reference_total i a =
      if is_capped i then min_float i.planned_value_usd (total_value_usd a) else total_value_usd a

  abbrev pub target_values : F → Dict String F → List (TargetPosition F) → Dict String F
  target_values total d [] = d
  target_values total d (t ∷ ts) =
      target_values total (insert t.ticker (t.target_weight ⊗ total) d) ts

  abbrev pub value_or_zero : Option F → F
  value_or_zero none = whole 0
  value_or_zero (some v) = v

  abbrev pub actual_values : Dict String F → List (CurrentPosition F) → Dict String F
  actual_values d [] = d
  actual_values d (p ∷ ps) =
      actual_values (insert p.ticker (value_or_zero (lookup p.ticker d) ⊕ p.market_value) d) ps

  -- the drift of every ticker that is wanted or held
  abbrev pub drifts : Dict String F → Dict String F → List F
  drifts wanted held =
      map (λ t. abs_float (value_or_zero (lookup t held) ⊖ value_or_zero (lookup t wanted)))
        (set_of (keys wanted ++ keys held))

  -- `max(xs, default=0.0)`
  abbrev pub largest : List F → F
  largest [] = whole 0
  largest (x ∷ []) = x
  largest (x ∷ y ∷ xs) = largest (max_float x y ∷ xs)

  abbrev pub wanted : Assessment F → AccountSnapshot F → Dict String F
  wanted i a = target_values (reference_total i a) [] i.targets

  abbrev pub all_drifts : Assessment F → AccountSnapshot F → List F
  all_drifts i a = drifts (wanted i a) (actual_values [] a.positions)

  unfoldable pub desired_cash : Assessment F → AccountSnapshot F → F
  desired_cash i a = reference_total i a ⊖ sum (values (wanted i a))

  abbrev pub cash_drift : Assessment F → AccountSnapshot F → F
  cash_drift i a = a.cash_usd ⊖ desired_cash i a

  abbrev pub tolerance : Assessment F → AccountSnapshot F → F
  tolerance i a = max_float i.min_trade_notional_usd (reference_total i a ⊗ i.min_weight_delta_pct)

  abbrev pub is_off : Assessment F → AccountSnapshot F → Bool
  is_off i a =
      (tolerance i a ≺ sum (all_drifts i a)) || (tolerance i a ≺ abs_float (cash_drift i a))

  abbrev pub status_of : Assessment F → AccountSnapshot F → RebalanceStatus
  status_of i a =
      if is_capped i
      then unknown_status
      else if not (unverified_orders i.order_entries == 0)
      then unknown_status
      else if not (working_orders i.order_entries == 0)
      then pending
      else if is_off i a
      then incomplete
      else target_reached

  abbrev pub compared : Assessment F → AccountSnapshot F → RebalanceReport F
  compared i a =
      record (uncertified i (
        if is_capped i
        then "broker equity exceeds the planned managed cap; outside-cap assets and cash may affect this exposure comparison"
        else "")) {
          status = status_of i a;
          target_error_usd = sum (all_drifts i a);
          target_error_pct = sum (all_drifts i a) ⊘ reference_total i a;
          max_ticker_drift_usd = largest (all_drifts i a);
          cash_drift_usd = some (cash_drift i a);
          target_cash_usd = some (desired_cash i a);
          observed_cash_usd = some a.cash_usd;
        }

  abbrev pub assess_by : Assessment F → Option (AccountSnapshot F) → RebalanceReport F
  assess_by i none =
      uncertified i "no confirmed post-execution portfolio snapshot; cannot certify rebalance"
  assess_by i (some a) =
      if i.planned_value_usd ≼ whole 0
      then uncertified i "no confirmed post-execution portfolio snapshot; cannot certify rebalance"
      else if not (f.is_finite (total_value_usd a)) || (total_value_usd a ≼ whole 0)
      then uncertified i "invalid broker portfolio value; cannot certify rebalance"
      else compared i a

  -- `assess_rebalance`
  unfoldable pub assess_rebalance : Assessment F → RebalanceReport F
  assess_rebalance i = assess_by i i.snapshot
