-- ===== src/Reconcile/Pass.antt =====
-- src/poma/execution_manager.py: the loop of `reconcile` over the open entries, where the failure of one
-- does not hide the others.
use poma.Prelude.{
  string_eq, false, ◌&&◌, String, ◌<>◌, Option, none, some, List, [], ◌∷◌, ◌==◌, any, is_some,
  is_none, Float, if◌then◌else◌,
}
use poma.Models.{OpenOrderSnapshot}
use poma.Config.{Settings}
use poma.Lifecycle.Entry.{OrderLedgerEntry}
use poma.Execution.Ledger.{Ledger}
use poma.Execution.World.{Broker, Exec, ok, pure, catch, ◌>>=◌}
use poma.Reconcile.Desk.{Desk}
use poma.Reconcile.Match.{is_unmatched, match_snapshot}
use poma.Reconcile.Entry.{ReconcileUpdate, reconcile_entry}

-- what the completed orders of the broker came to
pub record Evidence (F : Type 0) : Type 0 where
  pub open_snapshots : List (OpenOrderSnapshot F)
  pub completed_snapshots : List (OpenOrderSnapshot F)
  pub history_error : Option String
  pub recovered_keys : List String

module _ {F : Type 0} where
  abbrev entry_or : Option (OrderLedgerEntry F) → OrderLedgerEntry F → OrderLedgerEntry F
  entry_or none e = e
  entry_or (some current) e = current

  abbrev pub error_update : OrderLedgerEntry F → String → ReconcileUpdate F
  error_update e detail = record {
    entry = e;
    action = some "error";
    matched = false;
    detail = some detail;
  }

  -- `update.action is None` of an entry that was just rediscovered
  abbrev pub mark_recovered : List String → String → ReconcileUpdate F → ReconcileUpdate F
  mark_recovered recovered_keys key u =
      if any (λ k. k == key) recovered_keys && is_none u.action
      then record u { action = some "recovered" }
      else u

module _ {F S W : Type 0} ⦃f : Float F⦄ (br : Broker F W) (l : Ledger F S) (s : Settings F)
    (now : String) (ev : Evidence F) where
  unfoldable pub error_current : OrderLedgerEntry F → String → Exec (Desk F S W) (ReconcileUpdate F)
  error_current e detail w =
      (ok (error_update (entry_or (l.get e.ledger_key w.ledger) e) detail), w)

  -- one entry, where the history of completed orders is at hand
  unfoldable pub reconcile_known : OrderLedgerEntry F → Exec (Desk F S W) (ReconcileUpdate F)
  reconcile_known e = do
    u ← reconcile_entry br l s now ev.open_snapshots ev.completed_snapshots e
    pure (mark_recovered ev.recovered_keys e.ledger_key u)

  abbrev history_text : Option String → String
  history_text none = ""
  history_text (some error) =
      "IBKR completed-order history unavailable: " <> error <> "; retaining prior state"

  -- the body of the loop
  unfoldable pub reconcile_one : OrderLedgerEntry F → Exec (Desk F S W) (ReconcileUpdate F)
  reconcile_one e =
      if is_some ev.history_error && is_unmatched (match_snapshot e ev.open_snapshots)
      then pure (error_update e (history_text ev.history_error))
      else catch (reconcile_known e) (error_current e)

  unfoldable pub reconcile_all :
      List (OrderLedgerEntry F) → Exec (Desk F S W) (List (ReconcileUpdate F))
  reconcile_all [] = pure []
  reconcile_all (e ∷ es) = do u ← reconcile_one e; us ← reconcile_all es; pure (u ∷ us)
