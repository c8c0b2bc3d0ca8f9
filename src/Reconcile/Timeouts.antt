-- ===== src/Reconcile/Timeouts.antt =====
-- src/poma/execution_manager.py: `_apply_timeout_policy`, which cancels or once replaces an order that
-- works too long without a fill; src/poma/order_lifecycle.py: `seconds_since`.
use poma.Prelude.{
  string_eq, ℕ, ◌+◌, Bool, not, ◌&&◌, ◌==◌, option_eq, String, ◌<>◌, Option, none, some, ltb, show,
  is_set, Float, whole, ◌≺◌, ◌≼◌, ◌≐◌, if◌then◌else◌,
}
use poma.Models.{OpenOrderSnapshot}
use poma.Config.{Settings}
use poma.Lifecycle.State.{is_working_state, cancel_pending, replace_pending}
use poma.Lifecycle.Entry.{OrderLedgerEntry, with_snapshot}
use poma.Execution.Ledger.{Ledger}
use poma.Execution.World.{
  Broker, Exec, pure, raise, ◌>>=◌, ◌>>◌, ReplaceReply, placed, cancel_not_confirmed, failed,
  Replacement,
}
use poma.Reconcile.Desk.{Desk, cancels, replaces, order_call, settle, clock, store}
use poma.Reconcile.Escalation.{Escalation, with_metadata, fresh_replace_limit_price}

module _ {F : Type 0} ⦃f : Float F⦄ where
  -- at most the tolerance of 1e-9 is filled
  abbrev pub is_unfilled : OrderLedgerEntry F → Bool
  is_unfilled e = e.filled_qty ≼ f.dec 1 9

  -- more than the tolerance is filled
  abbrev pub has_fill : OrderLedgerEntry F → Bool
  has_fill e = f.dec 1 9 ≺ e.filled_qty

  -- `seconds_since`
  abbrev pub seconds_since : {W : Type 0} → Broker F W → Option String → String → Option F
  seconds_since br none now = none
  seconds_since br (some text) now =
      if is_set (some text) then br.seconds_between text now else none

  -- the conditions of the one replacement, beside the order id
  abbrev pub is_replaceable : Settings F → F → OrderLedgerEntry F → Bool
  is_replaceable s elapsed e =
      s.auto_replace_unfilled_orders
      && is_unfilled e
      && (whole s.replace_after_seconds ≼ elapsed)
      && ltb e.replace_count 1

  abbrev pub replacement_ref : OrderLedgerEntry F → String
  replacement_ref e = e.ledger_key <> ":r" <> show (e.replace_count + 1)

  -- the entry that reserves the replacement
  abbrev pub intent_of : OrderLedgerEntry F → OrderLedgerEntry F
  intent_of e = record e {
    lifecycle_state = replace_pending;
    raw_status = "ReplacementUnconfirmed";
    replace_count = e.replace_count + 1;
    replacement_order_ref = some (replacement_ref e);
  }

  abbrev pub replacement_of : OrderLedgerEntry F → F → Replacement F
  replacement_of e new_limit = record {
    ticker = e.ticker;
    side = e.side;
    quantity = if e.remaining_qty ≐ whole 0 then e.quantity else e.remaining_qty;
    new_limit_price = new_limit;
    order_ref = replacement_ref e;
  }

  -- the cancel of the original is not confirmed yet
  abbrev pub deferred_entry : OrderLedgerEntry F → String → OrderLedgerEntry F
  deferred_entry e error = record (intent_of e) {
    lifecycle_state = cancel_pending;
    raw_status = "PendingCancel";
    terminal_reason = some error;
  }

  -- the original ended before it could be replaced
  abbrev pub outrun_entry : String → OrderLedgerEntry F → OpenOrderSnapshot F → OrderLedgerEntry F
  outrun_entry at e snapshot = record (with_snapshot at e snapshot) {
    replace_count = e.replace_count + 1;
  }

  abbrev pub replaced_entry :
      String → String → Escalation F → OrderLedgerEntry F → OpenOrderSnapshot F → OrderLedgerEntry F
  replaced_entry now at fresh e snapshot =
      with_metadata fresh.metadata
        (record (with_snapshot at
          (record (intent_of e) { order_ref = replacement_ref e; replacement_order_ref = none })
          snapshot) { limit_price = some fresh.new_limit; submitted_at = some now })

-- an entry that the caller writes, with the action that was taken
abbrev pub Taken : Type 0 → Type 0
Taken F = Option (OrderLedgerEntry F × String)

module _ {F S W : Type 0} ⦃f : Float F⦄ (br : Broker F W) (l : Ledger F S) (s : Settings F)
    (now : String) where
  -- what becomes of the entry by the broker's answer
  unfoldable pub settle_replace :
      OrderLedgerEntry F → Escalation F → ReplaceReply F → Exec (Desk F S W) (Taken F)
  settle_replace e fresh (failed error) = raise error
  settle_replace e fresh (cancel_not_confirmed error) =
      pure (some (deferred_entry e error, "replace_deferred"))
  settle_replace e fresh (placed snapshot) = do
    at ← clock br
    if not (snapshot.order_ref == some (replacement_ref e))
        then pure (some (outrun_entry at e snapshot, "closed"))
        else pure (some (replaced_entry now at fresh e snapshot, "replace"))

  -- the reservation is made durable before the order is replaced
  unfoldable pub replace_unfilled :
      ℕ → OrderLedgerEntry F → Option (Escalation F) → Exec (Desk F S W) (Taken F)
  replace_unfilled order_id e none = pure none
  replace_unfilled order_id e (some fresh) = do
    store l (intent_of e)
    reply ←
        order_call (replaces e (replacement_of e fresh.new_limit))
          (br.replace_order order_id (replacement_of e fresh.new_limit))
    settle_replace e fresh reply

  abbrev pub cancelled_entry : OrderLedgerEntry F → OrderLedgerEntry F
  cancelled_entry e = record e {
    lifecycle_state = cancel_pending;
    terminal_reason = some ("cancelled after " <> show s.cancel_after_seconds <> "s unfilled");
  }

  unfoldable pub cancel_unfilled : OrderLedgerEntry F → Option ℕ → Exec (Desk F S W) (Taken F)
  cancel_unfilled e none = pure none
  cancel_unfilled e (some order_id) = do
    reply ← order_call (cancels e) (br.cancel_order order_id)
    done ← settle reply
    if done then pure (some (cancelled_entry e, "cancel")) else pure none

  unfoldable pub escalate : OrderLedgerEntry F → Option ℕ → Exec (Desk F S W) (Taken F)
  escalate e none = pure none
  escalate e (some order_id) = do
    fresh ← fresh_replace_limit_price br s e
    replace_unfilled order_id e fresh

  unfoldable pub time_out : OrderLedgerEntry F → Option F → Exec (Desk F S W) (Taken F)
  time_out e none = pure none
  time_out e (some elapsed) =
      if (whole s.cancel_after_seconds ≼ elapsed) && is_unfilled e
      then cancel_unfilled e e.order_id
      else if is_replaceable s elapsed e
      then escalate e e.order_id
      else pure none

  -- `_apply_timeout_policy`
  unfoldable pub apply_timeout_policy : OrderLedgerEntry F → Exec (Desk F S W) (Taken F)
  apply_timeout_policy e =
      if not (is_working_state e.lifecycle_state)
      then pure none
      else time_out e (seconds_since br e.submitted_at now)
