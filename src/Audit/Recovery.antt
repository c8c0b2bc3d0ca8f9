-- ===== src/Audit/Recovery.antt =====
-- src/poma/recovery_readiness.py: `verify_broker_recovery`, which raises or certifies, and places no order.
use poma.Prelude.{
  string_eq, option_eq, Bool, not, ◌&&◌, ◌||◌, String, Option, none, some, List, [], ◌∷◌, ◌==◌, any,
  values, Dict, lookup, insert, Float, whole, ◌≼◌, if◌then◌else◌,
}
use poma.Models.{AccountSnapshot, OpenOrderSnapshot, side_eq, total_value_usd}
use poma.Lifecycle.State.{is_unknown, is_filled}
use poma.Lifecycle.Entry.{OrderLedgerEntry, is_terminal}
use poma.Execution.World.{Exec, Reply, raise, pure, catch, ◌>>=◌}
use poma.Reconcile.Entry.{ReconcileUpdate}
use poma.Reconcile.RefParts.{root_ref}
use poma.Reconcile.Restore.{snapshot_ref}

abbrev pub passed_text : String
passed_text =
    "Broker recovery audit passed: open POMA orders, authenticated account cash/positions and available recent completed orders/executions checked. Historical broker order finality beyond IBKR retention is not certified."

-- the account snapshot of the broker and its completed orders, and the account of the settings
pub record Probe (F W : Type 0) : Type 0 where
  pub ibkr_account : Option String
  pub account_snapshot : W → Reply (AccountSnapshot F) × W
  pub fetch_completed_order_snapshots : W → Reply (List (OpenOrderSnapshot F)) × W

abbrev pub raise_or : {W A : Type 0} → Option String → Exec W A → Exec W A
raise_or none next = next
raise_or (some error) next = raise error

module _ {F : Type 0} where
  abbrev pub is_unresolved_update : ReconcileUpdate F → Bool
  is_unresolved_update u = u.action == some "error" || u.action == some "unverified"

  abbrev pub is_unknown_open : OrderLedgerEntry F → Bool
  is_unknown_open e =
      not (is_terminal e) && (is_unknown e.lifecycle_state || e.raw_status == "NotOpenUnverified")

  -- the entries by the reference of their original
  abbrev pub known_roots :
      Dict String (OrderLedgerEntry F)
      → List (OrderLedgerEntry F)
      → Dict String (OrderLedgerEntry F)
  known_roots d [] = d
  known_roots d (e ∷ es) = known_roots (insert (root_ref e.ledger_key) e d) es

  -- the completed order against the entry that is recorded for it
  unfoldable pub completed_conflict :
      Option (OrderLedgerEntry F) → OpenOrderSnapshot F → Option String
  completed_conflict none order =
      some
        "broker recovery audit found a recent completed POMA order absent from the durable ledger; manual investigation required"
  completed_conflict (some e) order =
      if not (e.ticker == order.ticker) || not (e.side == order.side)
      then some "broker recovery audit found a completed order identity conflict"
      else if not (snapshot_ref order == e.order_ref)
      then none
      else if is_unknown e.lifecycle_state
      then some "broker recovery audit found an unknown completed order"
      else if order.raw_status == "Filled" && (is_terminal e && not (is_filled e.lifecycle_state))
      then some "broker recovery audit found a completed fill/ledger status conflict"
      else if not (is_terminal e)
      then some "broker recovery audit found a completed order still recorded as working"
      else none

  -- the loop over the completed orders
  unfoldable pub check_completed :
      {W : Type 0} → Dict String (OrderLedgerEntry F) → List (OpenOrderSnapshot F) → Exec W String
  check_completed roots [] = pure passed_text
  check_completed roots (order ∷ more) =
      let rest = check_completed roots more in
      raise_or (completed_conflict (lookup (root_ref (snapshot_ref order)) roots) order) rest

module _ {F W : Type 0} ⦃f : Float F⦄ (p : Probe F W) where
  abbrev pub is_unverified_account : AccountSnapshot F → Bool
  is_unverified_account a =
      not (a.account_id == p.ibkr_account)
      || not (f.is_finite (total_value_usd a))
      || (total_value_usd a ≼ whole 0)

  unfoldable pub check_history : List (OrderLedgerEntry F) → Exec W String
  check_history entries = do
    completed ← catch p.fetch_completed_order_snapshots (λ error.
        raise "broker recovery audit failed: completed-order/execution evidence unavailable")
    check_completed (known_roots [] entries) completed

  unfoldable pub check_account : List (OrderLedgerEntry F) → Exec W String
  check_account entries = do
    account ← catch p.account_snapshot (λ error.
        raise "broker recovery audit failed: authenticated cash/positions snapshot unavailable")
    if is_unverified_account account
        then raise "broker recovery audit failed: account identity or portfolio value not verified"
        else check_history entries

  -- `verify_broker_recovery`, of the updates of the summary and the latest entries of the store
  unfoldable pub verify_broker_recovery :
      List (ReconcileUpdate F) → Dict String (OrderLedgerEntry F) → Exec W String
  verify_broker_recovery updates entries =
      if any is_unresolved_update updates
      then raise "broker recovery audit failed: unresolved order updates"
      else if any is_unknown_open (values entries)
      then raise "broker recovery audit failed: unknown local order state"
      else check_account (values entries)
