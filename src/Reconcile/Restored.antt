-- ===== src/Reconcile/Restored.antt =====
-- src/poma/execution_manager.py: what `_restore_untracked_broker_orders` adds to the ledger.
use poma.Prelude.{
  string_eq, true, some, List, [], ◌++◌, any, values, All, All-map, ◌≡◌, any-append, arith, ◌∷◌,
  Bool, Float,
}
use poma.Models.{OpenOrderSnapshot}
use poma.Lifecycle.Entry.{OrderLedgerEntry}
use poma.Execution.Ledger.{Ledger, LedgerLaws}
use poma.Execution.World.{Broker, Reply, ok, raised, pure, ◌>>=◌}
use poma.Reconcile.Desk.{Desk, BrokerCall}
use poma.Reconcile.Passes.{answer}
use poma.Reconcile.Restore.{Recovery, restore_all, restore_untracked_broker_orders}
use poma.Reconcile.Restoring.{is_order_of, IsMarked, IsSaved, Progress}
use poma.Reconcile.RestoreSteps.{Steps, restore_all-Steps}

module _ {F S W : Type 0} (l : Ledger F S) where
  -- What a restore of these orders leaves when it returns: its entries are marked and are the latest of
  -- their keys in the ledger, and each order has an open entry, of the start or restored.
  abbrev pub Restored :
      List (OrderLedgerEntry F)
      → List (OpenOrderSnapshot F)
      → Reply (List (OrderLedgerEntry F)) × Desk F S W
      → Type 0
  Restored start snapshots (raised error, w) = Unit
  Restored start snapshots (ok es, w) =
      All IsMarked es
      × All (λ e. l.latest e.ledger_key w.ledger ≡ some e) es
      × All (λ s. any (is_order_of s) (start ++ es) ≡ true) snapshots

module _ {F S W : Type 0} ⦃f : Float F⦄ (br : Broker F W) (l : Ledger F S) (Valid : S → Type 0)
    (laws : LedgerLaws l Valid) where
  -- every member of a list passes a test that finds it
  all_found :
      (xs ys : List (OrderLedgerEntry F))
      → ((p : OrderLedgerEntry F → Bool) → any p xs ≡ true → any p ys ≡ true)
      → All (λ e. (p : OrderLedgerEntry F → Bool) → p e ≡ true → any p ys ≡ true) xs
  all_found [] ys h = tt
  all_found (x ∷ xs) ys h =
      (λ p g. h p (ground (arith, g)), all_found xs ys (λ p g. h p (ground (arith, g))))

  start-Progress :
      (s : S)
      → Valid s
      → Progress l Valid
          (values (l.load_latest_entries s))
          (record { known = l.load_latest_entries s; recovered = [] })
          s
  start-Progress s valid = record {
    valid = valid;
    mirrored = λ k. laws.lookup-load_latest_entries k s valid;
    marked = tt;
    saved = tt;
    within =
        all_found (values (l.load_latest_entries s)) (values (l.load_latest_entries s) ++ [])
          (λ p g. ground (arith, any-append p (values (l.load_latest_entries s)) [], g));
  }

  finish_restore :
      (start : List (OrderLedgerEntry F)) (ss : List (OpenOrderSnapshot F)) (r : Recovery F)
      (calls : List (BrokerCall F × S)) (o : Reply (Recovery F)) (w : Desk F S W)
      → Steps br l Valid laws start ss r calls (o, w)
      → (((answer o >>= (λ x. pure x.recovered)) w).1.calls ≡ calls)
        × Restored l start ss ((answer o >>= (λ x. pure x.recovered)) w)
  finish_restore start ss r calls (raised error) w h = (h, tt)
  finish_restore start ss r calls (ok x) w (h, covered, grows, same) = (
    same,
    (
      h.marked,
      All-map (IsSaved l Valid start w.ledger) (λ e. l.latest e.ledger_key w.ledger ≡ some e)
          x.recovered (λ e g. g.1) h.saved,
      covered,
    ),
  )

  -- Where the ledger keeps its laws and is valid, restoring the open orders that the ledger lacks calls no
  -- order of the broker, also where it raises. Where it returns, every entry that it returns carries the
  -- mark of a rediscovered order, is not terminal, is of the session 1970-01-01 and is the latest of its key
  -- in the ledger, and every given order has an entry, of the ledger at the start or restored, with its
  -- reference, ticker and side that is not terminal.
  pub restore_untracked_broker_orders-Restored :
      (snapshots : List (OpenOrderSnapshot F)) (w : Desk F S W)
      → Valid w.ledger
      → ((restore_untracked_broker_orders br l snapshots w).1.calls ≡ w.calls)
        × Restored l
            (values (l.load_latest_entries w.ledger))
            snapshots
            (restore_untracked_broker_orders br l snapshots w)
  unfolding restore_untracked_broker_orders
  restore_untracked_broker_orders-Restored snapshots w valid =
      (let start : Recovery F = record { known = l.load_latest_entries w.ledger; recovered = [] } in
        let all = restore_all br l start snapshots w in
        finish_restore (values start.known) snapshots start w.calls all.0 all.1 (
          restore_all-Steps br l Valid laws (values start.known) start snapshots w
            (start-Progress w.ledger valid)))
