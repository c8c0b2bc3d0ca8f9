-- ===== src/Reconcile/Whole.antt =====
-- src/poma/execution_manager.py: `reconcile`, from the open orders of the ledger to the summary.
use poma.Prelude.{
  string_eq, Bool, true, false, not, ◌&&◌, ℕ, String, Option, none, some, List, [], ◌∷◌, ◌++◌, any,
  keep, map, length, has_prefix, is_set, Float, if◌then◌else◌,
}
use poma.Models.{OpenOrderSnapshot}
use poma.Config.{Settings}
use poma.Lifecycle.Entry.{OrderLedgerEntry}
use poma.Execution.Ledger.{Ledger}
use poma.Execution.World.{Broker, Exec, Reply, pure, catch, ◌>>=◌}
use poma.Reconcile.Desk.{Desk, query, clock}
use poma.Reconcile.Match.{entry_refs, is_unmatched, match_snapshot}
use poma.Reconcile.Entry.{ReconcileUpdate}
use poma.Reconcile.Pass.{reconcile_all}
use poma.Reconcile.Restore.{snapshot_ref, restore_untracked_broker_orders}

pub record ReconcileSummary (F : Type 0) : Type 0 where
  pub checked : ℕ
  pub updates : List (ReconcileUpdate F)

-- the completed orders, or why there are none
pub record History (F : Type 0) : Type 0 where
  pub completed : List (OpenOrderSnapshot F)
  pub error : Option String

abbrev is_empty : {A : Type 0} → List A → Bool
is_empty [] = true
is_empty (x ∷ xs) = false

module _ {F : Type 0} where
  abbrev pub all_refs : List (OrderLedgerEntry F) → List String
  all_refs [] = []
  all_refs (e ∷ es) = entry_refs e ++ all_refs es

  -- a completed order of one of these families of references
  abbrev pub is_wanted : List String → OpenOrderSnapshot F → Bool
  is_wanted refs s = is_set s.order_ref && any (λ ref. has_prefix ref (snapshot_ref s)) refs

  abbrev pub no_summary : ReconcileSummary F
  no_summary = record { checked = 0; updates = [] }

module _ {F S W : Type 0} ⦃f : Float F⦄ (br : Broker F W) (l : Ledger F S)
    (settings : Settings F) where
  abbrev pub open_entries : Exec (Desk F S W) (List (OrderLedgerEntry F))
  open_entries w = pure (l.load_open_orders w.ledger) w

  abbrev fetch_by :
      List String
      → List (OrderLedgerEntry F)
      → Option
          (List String → List (OrderLedgerEntry F) → W → Reply (List (OpenOrderSnapshot F)) × W)
      → Exec (Desk F S W) (List (OpenOrderSnapshot F))
  fetch_by refs unmatched none = pure []
  fetch_by refs unmatched (some fetch) = query (fetch refs unmatched)

  -- the broker's completed orders, asked for only where an entry is unmatched
  unfoldable pub fetch_history : List (OrderLedgerEntry F) → Exec (Desk F S W) (History F)
  fetch_history unmatched =
      if is_empty unmatched
      then pure (record { completed = []; error = none })
      else catch
          (do
            completed ← fetch_by (all_refs unmatched) unmatched br.fetch_completed_order_snapshots
            pure (record {
              completed = keep (is_wanted (all_refs unmatched)) completed;
              error = none;
            }))
          (λ error. pure (record { completed = []; error = some error }))

  unfoldable pub reconcile_open_entries :
      List (OpenOrderSnapshot F)
      → List (OrderLedgerEntry F)
      → List (OrderLedgerEntry F)
      → Exec (Desk F S W) (ReconcileSummary F)
  reconcile_open_entries snapshots recovered [] = pure no_summary
  reconcile_open_entries snapshots recovered (e ∷ es) = do
    history ← fetch_history (keep (λ x. is_unmatched (match_snapshot x snapshots)) (e ∷ es))
    now ← clock br
    updates ←
        reconcile_all br l settings now
          (record {
            open_snapshots = snapshots;
            completed_snapshots = history.completed;
            history_error = history.error;
            recovered_keys = map (λ x. x.ledger_key) recovered;
          })
          (e ∷ es)
    pure (record { checked = length (e ∷ es); updates = updates })

  -- the broker is asked first, and orders that the ledger lacks are restored
  unfoldable pub reconcile_with_broker : Exec (Desk F S W) (ReconcileSummary F)
  reconcile_with_broker = do
    snapshots ← query br.fetch_open_order_snapshots
    let named = keep (λ s. is_set s.order_ref) snapshots
    recovered ← if br.is_ibkr_broker then restore_untracked_broker_orders br l named else pure []
    es ← open_entries
    reconcile_open_entries named recovered es

  -- `reconcile`
  unfoldable pub reconcile : Exec (Desk F S W) (ReconcileSummary F)
  reconcile w =
      if is_empty (l.load_open_orders w.ledger) && not br.is_ibkr_broker
      then pure no_summary w
      else reconcile_with_broker w
