-- ===== src/Execution/Replay.antt =====
-- src/poma/execution_manager.py: the stable order references of a plan, the replay of an order that an
-- earlier attempt already sent, and what is recorded of a trade.
use poma.Prelude.{
  string_eq, ℕ, ◌+◌, Bool, ◌||◌, ◌&&◌, String, ◌<>◌, Option, none, some, List, [], ◌∷◌, Float,
  whole, ◌≼◌, if◌then◌else◌, is_none, is_set, or_text, non_empty,
}
use poma.Models.{ProposedTrade, OrderResult, RebalancePlan}
use poma.Lifecycle.State.{
  OrderLifecycleState, planned, submitted, broker_accepted, partially_filled, filled,
  replace_pending, cancel_pending, cancelled, rejected, expired, unknown, is_planned, one_of,
  execution_quote_blocked_status, buying_power_blocked_status, broker_unavailable_status,
  order_not_accepted_status, idempotent_replay_status,
}
use poma.Lifecycle.Entry.{OrderLedgerEntry, with_order_result}
use poma.Lifecycle.Reference.{build_order_ref}
use poma.Execution.Ledger.{Ledger}

-- `OrderLifecycleState.value`
abbrev pub state_value : OrderLifecycleState → String
state_value planned = "planned"
state_value submitted = "submitted"
state_value broker_accepted = "broker_accepted"
state_value partially_filled = "partially_filled"
state_value filled = "filled"
state_value replace_pending = "replace_pending"
state_value cancel_pending = "cancel_pending"
state_value cancelled = "cancelled"
state_value rejected = "rejected"
state_value expired = "expired"
state_value unknown = "unknown"

-- `_RETRYABLE_PRE_ACCEPTANCE_STATUSES`
abbrev pub retryable_pre_acceptance_statuses : List String
retryable_pre_acceptance_statuses =
    execution_quote_blocked_status ∷ buying_power_blocked_status ∷ broker_unavailable_status
    ∷ order_not_accepted_status ∷ []

-- the status of a trade that is on its way to the broker
abbrev pub submission_unconfirmed : String
submission_unconfirmed = "SubmissionUnconfirmed"

-- the text of an order reference; every tagged trade has one
abbrev pub ref_text : Option String → String
ref_text none = ""
ref_text (some ref) = ref

abbrev pub ref_of : {F : Type 0} → ProposedTrade F → String
ref_of t = ref_text t.order_ref

module _ {F : Type 0} ⦃f : Float F⦄ where
  -- no broker order can exist for the entry, so the same reference may be sent again
  unfoldable pub is_retryable : OrderLedgerEntry F → Bool
  is_retryable e =
      is_planned e.lifecycle_state
      || (one_of retryable_pre_acceptance_statuses e.raw_status
          && (is_none e.order_id && e.filled_qty ≼ f.dec 1 9))

  -- the outcome of the earlier attempt, in words
  earlier_outcome : OrderLedgerEntry F → String
  earlier_outcome e =
      let earlier =
        if non_empty e.raw_status then e.raw_status else state_value e.lifecycle_state in
      if is_set e.terminal_reason then earlier <> ": " <> or_text e.terminal_reason "" else earlier

  -- the result of a trade that an earlier attempt already brought to the broker
  unfoldable pub replay_result : ProposedTrade F → OrderLedgerEntry F → OrderResult F
  unfolding earlier_outcome
  replay_result t e = record {
    ticker = t.ticker;
    side = t.side;
    quantity = t.quantity;
    notional = t.notional;
    order_id = e.order_id;
    status = idempotent_replay_status;
    filled = e.filled_qty;
    average_fill_price = e.avg_fill_price;
    message = some (
        "orderRef "
        <> ref_of t
        <> " already "
        <> state_value e.lifecycle_state
        <> " from an earlier attempt of this run ("
        <> earlier_outcome e
        <> "); not resubmitted");
    order_ref = t.order_ref;
    perm_id = e.perm_id;
  }

  -- `_idempotent_replay`, of the entry that the ledger has for the reference
  unfoldable pub idempotent_replay :
      ProposedTrade F → Option (OrderLedgerEntry F) → Option (OrderResult F)
  idempotent_replay t none = none
  idempotent_replay t (some e) = if is_retryable e then none else some (replay_result t e)

  -- `_blocked_result`
  unfoldable pub blocked_result : ProposedTrade F → String → String → OrderResult F
  blocked_result t status message = record {
    ticker = t.ticker;
    side = t.side;
    quantity = t.quantity;
    notional = t.notional;
    order_id = none;
    status = status;
    filled = whole 0;
    average_fill_price = none;
    message = some message;
    order_ref = t.order_ref;
    perm_id = none;
  }

  -- the entry of a trade of a plan that nothing is known of yet
  unfoldable pub planned_entry : RebalancePlan F → ProposedTrade F → OrderLedgerEntry F
  planned_entry plan t = record {
    ledger_key = ref_of t;
    order_ref = ref_of t;
    run_id = plan.run_id;
    session_date = plan.session_date;
    ticker = t.ticker;
    side = t.side;
    quantity = t.quantity;
    limit_price = t.limit_price;
    reference_price = some t.reference_price;
    reference_price_source = some t.reference_price_source;
    reference_price_basis = some t.reference_price_basis;
    reference_price_as_of_utc = t.reference_price_as_of_utc;
    quote_age_seconds = t.quote_age_seconds;
    quote_spread_bps = t.quote_spread_bps;
    order_id = none;
    perm_id = none;
    submitted_at = none;
    lifecycle_state = planned;
    raw_status = "";
    filled_qty = whole 0;
    remaining_qty = whole 0;
    avg_fill_price = none;
    last_status_at = none;
    terminal_reason = none;
    replace_count = 0;
    replacement_order_ref = none;
  }

  abbrev entry_or : Option (OrderLedgerEntry F) → OrderLedgerEntry F → OrderLedgerEntry F
  entry_or none e = e
  entry_or (some e) _ = e

  module _ {S : Type 0} (l : Ledger F S) where
    -- `_record_planned`
    unfoldable pub record_planned : RebalancePlan F → ProposedTrade F → S → S
    record_planned plan t s = l.upsert (planned_entry plan t) s

    -- `_record_result`, at the time `now`
    unfoldable pub record_result :
        String → RebalancePlan F → ProposedTrade F → OrderResult F → S → S
    record_result now plan t r s =
        l.upsert (with_order_result now (entry_or (l.get (ref_of t) s) (planned_entry plan t)) r) s

    abbrev tagged_ref : String → ℕ → ProposedTrade F → Option (OrderLedgerEntry F) → String
    tagged_ref run_id index t none = build_order_ref run_id index t.ticker t.side
    tagged_ref run_id index t (some prior) = prior.ledger_key

    -- `_tag`, from the index `offset`
    unfoldable pub tag : String → ℕ → List (ProposedTrade F) → S → List (ProposedTrade F)
    tag run_id offset [] s = []
    tag run_id offset (t ∷ ts) s =
        record t {
          order_ref =
              some (tagged_ref run_id offset t (l.latest_run_trade run_id t.ticker t.side s));
        }
        ∷ tag run_id (offset + 1) ts s
