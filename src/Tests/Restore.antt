-- ===== src/Tests/Restore.antt =====
-- An order of the broker that the ledger has lost.
use poma.Prelude.{string_eq, ℕ, List, [], ◌∷◌, values, ◌≡◌, refl}
use poma.Lifecycle.Entry.{OrderLedgerEntry}
use poma.Store.Defs.{OrderStore}
use poma.Store.History.{start as no_history, History-IsCoherent}
use poma.Execution.FileLedger.{file_ledger, file_ledger-LedgerLaws}
use poma.Execution.World.{Reply, ok}
use poma.Reconcile.Desk.{Desk}
use poma.Reconcile.Restore.{recovered_entry, restore_untracked_broker_orders}
use poma.Reconcile.Restored.{Restored, restore_untracked_broker_orders-Restored}
use poma.Tests.Fixed.{ℤ, fixed_float}
use poma.Tests.Scenario.{accepting}
use poma.Tests.Reconcile.{IsValid, empty, snapshot}

abbrev restored : Reply (List (OrderLedgerEntry ℤ)) × Desk ℤ (OrderStore ℤ × ℕ) ℕ
restored =
    restore_untracked_broker_orders accepting file_ledger (snapshot "poma:run:0:SP1:BUY" ∷ []) empty

abbrev found : List (OrderLedgerEntry ℤ)
found =
    recovered_entry "0" "1" (record { run_id = "run"; index = "0"; ticker = "SP1"; side = "BUY" })
      (snapshot "poma:run:0:SP1:BUY")
    ∷ []

-- the order becomes an entry
restored_order : restored.0 ≡ ok found
unfolding restore_untracked_broker_orders poma.Reconcile.Restore.restore_all
    poma.Reconcile.Restore.restore_by poma.Reconcile.Restore.recover
    poma.Reconcile.Restore.keep_recovered poma.Reconcile.RefParts.root_ref
    poma.Reconcile.RefParts.parse_ref poma.Reconcile.RefParts.is_replacement_mark
    poma.Prelude.split_colon poma.Prelude.join_colon poma.Prelude.unsnoc poma.Prelude.is_digits
    poma.Prelude.show recovered_entry poma.Lifecycle.Entry.with_snapshot
    poma.Lifecycle.State.classify_lifecycle poma.Lifecycle.State.is_terminal_state
    poma.Store.Defs.latest_entries poma.Store.Defs.on_disk poma.Store.Lines.replay
restored_order = refl

restore_untracked_broker_orders-Restored_example :
    (restored.1.calls ≡ empty.calls)
    × Restored file_ledger
        (values (file_ledger.load_latest_entries empty.ledger))
        (snapshot "poma:run:0:SP1:BUY" ∷ [])
        restored
restore_untracked_broker_orders-Restored_example =
    restore_untracked_broker_orders-Restored accepting file_ledger IsValid file_ledger-LedgerLaws
      (snapshot "poma:run:0:SP1:BUY" ∷ []) empty (History-IsCoherent no_history)
