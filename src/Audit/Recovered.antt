-- ===== src/Audit/Recovered.antt =====
-- src/poma/recovery_readiness.py: what `verify_broker_recovery` certifies.
use poma.Prelude.{
  string_eq, option_eq, true, false, String, Option, none, some, List, [], ◌∷◌, ◌==◌, any, values,
  Dict, lookup, Float, whole, ◌≼◌, All, ◌≡◌, refl, arith, Bool-cases, Option-cases, inl, inr, ◌⊎◌,
  if◌then◌else◌,
}
use poma.Models.{AccountSnapshot, OpenOrderSnapshot, side_eq, total_value_usd}
use poma.Lifecycle.Entry.{OrderLedgerEntry, is_terminal}
use poma.Execution.World.{Reply, ok, raised, raise, handled, ◌>>=◌}
use poma.Reconcile.Entry.{ReconcileUpdate}
use poma.Reconcile.RefParts.{root_ref}
use poma.Reconcile.Restore.{snapshot_ref}
use poma.Audit.Recovery.{
  Probe, is_unresolved_update, is_unknown_open, known_roots, completed_conflict, check_completed,
  is_unverified_account, check_history, check_account, verify_broker_recovery,
}

module _ {F : Type 0} where
  -- A completed order is of an entry with its ticker and side, and that entry is terminal where the order
  -- is its current one.
  pub record IsRecorded (roots : Dict String (OrderLedgerEntry F)) (order : OpenOrderSnapshot F)
      : Type 0 where
    pub entry : OrderLedgerEntry F
    pub found : lookup (root_ref (snapshot_ref order)) roots ≡ some entry
    pub ticker : (entry.ticker == order.ticker) ≡ true
    pub side : (entry.side == order.side) ≡ true
    pub settled : ((snapshot_ref order == entry.order_ref) ≡ false) ⊎ (is_terminal entry ≡ true)

  without_conflict :
      (roots : Dict String (OrderLedgerEntry F)) (order : OpenOrderSnapshot F)
      (o : Option (OrderLedgerEntry F))
      → lookup (root_ref (snapshot_ref order)) roots ≡ o
      → completed_conflict o order ≡ none
      → IsRecorded roots order
  unfolding completed_conflict
  without_conflict roots order none eq h = ground (arith, h)
  without_conflict roots order (some e) eq h = record {
    entry = e;
    found = eq;
    ticker = ground (arith, h);
    side = ground (arith, h);
    settled = elim (Bool-cases (snapshot_ref order == e.order_ref)) [
      | inl same ↦ inr (ground (arith, same, h))
      | inr other ↦ inl other
    ];
  }

  check_completed-IsRecorded :
      {W : Type 0} (roots : Dict String (OrderLedgerEntry F)) (orders : List (OpenOrderSnapshot F))
      (w w' : W) (text : String)
      → check_completed roots orders w ≡ (ok text, w')
      → All (IsRecorded roots) orders
  unfolding check_completed
  check_completed-IsRecorded roots [] w w' text eq = tt
  check_completed-IsRecorded roots (order ∷ more) w w' text eq =
      elim (Option-cases
        (completed_conflict (lookup (root_ref (snapshot_ref order)) roots) order)) [
          | inl fine ↦ (
            without_conflict roots order (lookup (root_ref (snapshot_ref order)) roots) refl fine,
            check_completed-IsRecorded roots more w w' text (ground (arith, fine, eq)),
          )
          | inr (error, found) ↦ ground (arith, found, eq)
        ]

module _ {F W : Type 0} ⦃f : Float F⦄ (p : Probe F W) where
  -- A recovery that is certified: of updates without an error and entries without an unknown one, after
  -- the broker has given the account of the settings with a finite, positive value, and completed orders
  -- that are all recorded.
  pub record IsVerified (updates : List (ReconcileUpdate F))
      (entries : Dict String (OrderLedgerEntry F)) (w : W) : Type 0 where
    pub resolved : any is_unresolved_update updates ≡ false
    pub known : any is_unknown_open (values entries) ≡ false
    pub account : AccountSnapshot F
    pub probed : (p.account_snapshot w).0 ≡ ok account
    pub same_account : (account.account_id == p.ibkr_account) ≡ true
    pub finite : f.is_finite (total_value_usd account) ≡ true
    pub positive : (total_value_usd account ≼ whole 0) ≡ false
    pub completed : List (OpenOrderSnapshot F)
    pub fetched : (p.fetch_completed_order_snapshots (p.account_snapshot w).1).0 ≡ ok completed
    pub recorded : All (IsRecorded (known_roots [] (values entries))) completed

  history_by :
      (roots : Dict String (OrderLedgerEntry F)) (r : Reply (List (OpenOrderSnapshot F)))
      (error : String) (v w' : W) (text : String)
      → (handled r (λ _. raise error) >>= check_completed roots) v ≡ (ok text, w')
      → (completed : List (OpenOrderSnapshot F)) × (r ≡ ok completed)
        × All (IsRecorded roots) completed
  history_by roots (ok completed) error v w' text eq =
      (completed, refl, check_completed-IsRecorded roots completed v w' text eq)
  history_by roots (raised e) error v w' text eq = ground (arith, eq)

  account_by :
      (entries : List (OrderLedgerEntry F)) (r : Reply (AccountSnapshot F)) (error other : String)
      (v w' : W) (text : String)
      → (handled r (λ _. raise error) >>= (λ account.
            if is_unverified_account p account then raise other else check_history p entries))
          v
        ≡ (ok text, w')
      → (account : AccountSnapshot F) × (r ≡ ok account)
        × (is_unverified_account p account ≡ false)
        × (check_history p entries v ≡ (ok text, w'))
  account_by entries (raised e) error other v w' text eq = ground (arith, eq)
  account_by entries (ok account) error other v w' text eq =
      elim (Bool-cases (is_unverified_account p account)) [
        | inl bad ↦ ground (arith, bad, eq)
        | inr fine ↦ (account, refl, fine, ground (arith, fine, eq))
      ]

  checked-IsVerified :
      (updates : List (ReconcileUpdate F)) (entries : Dict String (OrderLedgerEntry F)) (w w' : W)
      (text : String)
      → any is_unresolved_update updates ≡ false
      → any is_unknown_open (values entries) ≡ false
      → check_account p (values entries) w ≡ (ok text, w')
      → IsVerified updates entries w
  unfolding check_account check_history
  checked-IsVerified updates entries w w' text resolved known eq =
      (let (account, probed, fine, rest) =
          account_by (values entries) (p.account_snapshot w).0 _ _ (p.account_snapshot w).1 w' text
            eq in
        let (completed, fetched, recorded) =
          history_by (known_roots [] (values entries))
            (p.fetch_completed_order_snapshots (p.account_snapshot w).1).0 _
            (p.fetch_completed_order_snapshots (p.account_snapshot w).1).1 w' text rest in
        record {
          resolved = resolved;
          known = known;
          account = account;
          probed = probed;
          same_account = ground (arith, fine);
          finite = ground (arith, fine);
          positive = ground (arith, fine);
          completed = completed;
          fetched = fetched;
          recorded = recorded;
        })

  -- verify_broker_recovery returns only where no update failed or stays unverified, no entry of the ledger
  -- that is not terminal is unknown, the broker gives the account of the settings with a finite, positive
  -- value, and each completed order that it gives is of an entry of the ledger with its ticker and side,
  -- which is terminal where the order is its current one.
  pub verify_broker_recovery-IsVerified :
      (updates : List (ReconcileUpdate F)) (entries : Dict String (OrderLedgerEntry F)) (w w' : W)
      (text : String)
      → verify_broker_recovery p updates entries w ≡ (ok text, w')
      → IsVerified updates entries w
  unfolding verify_broker_recovery
  verify_broker_recovery-IsVerified updates entries w w' text eq =
      elim (Bool-cases (any is_unresolved_update updates)) [
        | inl failed ↦ ground (arith, failed, eq)
        | inr resolved ↦ elim (Bool-cases (any is_unknown_open (values entries))) [
          | inl unsure ↦ ground (arith, resolved, unsure, eq)
          | inr known ↦
              checked-IsVerified updates entries w w' text resolved known
                (ground (arith, resolved, known, eq))
        ]
      ]
