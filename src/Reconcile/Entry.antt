-- ===== src/Reconcile/Entry.antt =====
-- src/poma/execution_manager.py: `_reconcile_entry`, one open entry against the open and the completed
-- orders of the broker.
use poma.Prelude.{
  string_eq, Bool, true, false, not, ◌&&◌, String, Option, none, some, List, is_set, or_text, Float,
  ◌==◌, if◌then◌else◌,
}
use poma.Models.{OpenOrderSnapshot}
use poma.Config.{Settings}
use poma.Lifecycle.State.{is_working_state, is_cancelled, is_unknown}
use poma.Lifecycle.Entry.{OrderLedgerEntry, is_terminal, with_snapshot}
use poma.Execution.Ledger.{Ledger}
use poma.Execution.World.{Broker, Exec, pure, ◌>>=◌, ◌>>◌}
use poma.Reconcile.Desk.{Desk, clock, store}
use poma.Reconcile.Match.{
  Match, unmatched, as_original, as_replacement, match_snapshot, has_recovery_mark,
  close_unreported_open_entry,
}
use poma.Reconcile.Timeouts.{Taken, apply_timeout_policy}
use poma.Reconcile.Resume.{adopt_replacement, resume_replacement}

pub record ReconcileUpdate (F : Type 0) : Type 0 where
  pub entry : OrderLedgerEntry F
  pub action : Option String
  pub matched : Bool
  pub detail : Option String

module _ {F : Type 0} where
  abbrev pub update_of : OrderLedgerEntry F → Option String → Bool → ReconcileUpdate F
  update_of e action matched = record {
    entry = e;
    action = action;
    matched = matched;
    detail = none;
  }

  abbrev pub without_replacement : OrderLedgerEntry F → OrderLedgerEntry F
  without_replacement e = record e { replacement_order_ref = none }

  -- the original is cancelled, and its reserved replacement can be resumed
  abbrev pub is_resumable : OrderLedgerEntry F → OrderLedgerEntry F → Bool
  is_resumable e updated = is_set e.replacement_order_ref && is_cancelled updated.lifecycle_state

module _ {F S W : Type 0} ⦃f : Float F⦄ (br : Broker F W) (l : Ledger F S) (s : Settings F)
    (now : String) where
  -- `self.store.upsert(entry)`, and the update that reports the entry
  abbrev pub report :
      OrderLedgerEntry F → Option String → Bool → Exec (Desk F S W) (ReconcileUpdate F)
  report e action matched = do store l e; pure (update_of e action matched)

  unfoldable pub report_taken : OrderLedgerEntry F → Taken F → Exec (Desk F S W) (ReconcileUpdate F)
  report_taken e none = report e none true
  report_taken e (some (e', action)) = report e' (some action) true

  -- the time-outs, unless the entry carries the mark of a rediscovered order
  unfoldable pub follow_up : OrderLedgerEntry F → Exec (Desk F S W) (ReconcileUpdate F)
  follow_up e =
      if has_recovery_mark e
      then report e none true
      else (do taken ← apply_timeout_policy br l s now e; report_taken e taken)

  -- the rest, where the resumed replacement is none
  unfoldable pub report_resumed :
      Option (OrderLedgerEntry F)
      → Exec (Desk F S W) (ReconcileUpdate F)
      → Exec (Desk F S W) (ReconcileUpdate F)
  report_resumed none other = other
  report_resumed (some e) other = report e (some "replace") true

  -- an open order that is the entry's own
  unfoldable pub reconcile_open :
      OrderLedgerEntry F → OrderLedgerEntry F → Exec (Desk F S W) (ReconcileUpdate F)
  reconcile_open e updated =
      if is_resumable e updated
      then (do
        resumed ← resume_replacement br s now updated (or_text e.replacement_order_ref "")
        report_resumed resumed (follow_up (without_replacement updated)))
      else if is_set e.replacement_order_ref && is_working_state updated.lifecycle_state
      then follow_up (without_replacement updated)
      else follow_up updated

  unfoldable pub close_unreported : OrderLedgerEntry F → Exec (Desk F S W) (ReconcileUpdate F)
  close_unreported e =
      if is_unknown e.lifecycle_state && e.raw_status == "NotOpenUnverified"
      then pure (update_of e none false)
      else (let closed = close_unreported_open_entry now e in
          report closed (some (if is_terminal closed then "closed" else "unverified")) false)

  -- a completed order that is the entry's own
  unfoldable pub reconcile_completed :
      OrderLedgerEntry F → OrderLedgerEntry F → Exec (Desk F S W) (ReconcileUpdate F)
  reconcile_completed e updated =
      let closed = report (without_replacement updated) (some "closed") true in
      if not (is_terminal updated)
      then close_unreported e
      else if is_resumable e updated
      then (do
        resumed ← resume_replacement br s now updated (or_text e.replacement_order_ref "")
        report_resumed resumed closed)
      else closed

  -- against the completed orders
  unfoldable pub by_completed : OrderLedgerEntry F → Match F → Exec (Desk F S W) (ReconcileUpdate F)
  by_completed e unmatched = close_unreported e
  by_completed e (as_replacement snapshot) = do
    at ← clock br
    let adopted = adopt_replacement at e snapshot
    report adopted (some (if is_terminal adopted then "closed" else "replace")) true
  by_completed e (as_original snapshot) = do
    at ← clock br
    reconcile_completed e (with_snapshot at e snapshot)

  -- against the open orders first
  unfoldable pub by_open :
      OrderLedgerEntry F
      → List (OpenOrderSnapshot F)
      → Match F
      → Exec (Desk F S W) (ReconcileUpdate F)
  by_open e completed unmatched = by_completed e (match_snapshot e completed)
  by_open e completed (as_replacement snapshot) = do
    at ← clock br
    report (adopt_replacement at e snapshot) (some "replace") true
  by_open e completed (as_original snapshot) = do
    at ← clock br
    reconcile_open e (with_snapshot at e snapshot)

  -- `_reconcile_entry`
  unfoldable pub reconcile_entry :
      List (OpenOrderSnapshot F)
      → List (OpenOrderSnapshot F)
      → OrderLedgerEntry F
      → Exec (Desk F S W) (ReconcileUpdate F)
  reconcile_entry open_snapshots completed e = by_open e completed (match_snapshot e open_snapshots)
