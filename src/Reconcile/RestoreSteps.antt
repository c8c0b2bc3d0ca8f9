-- ===== src/Reconcile/RestoreSteps.antt =====
-- src/poma/execution_manager.py: the steps of `_restore_untracked_broker_orders`.
use poma.Prelude.{
  string_eq, option_eq, Bool, true, false, not, ◌&&◌, ◌||◌, String, Option, none, some, List, [],
  ◌∷◌, ◌++◌, ◌==◌, ==_refl, any, is_some, is_none, lookup, values, All, All-map, ◌≡◌, refl, arith,
  subst, ap, Float, whole, ◌⊕◌, ◌≼◌, Bool-cases, Option-cases, inl, inr, if◌then◌else◌,
}
use poma.Models.{OpenOrderSnapshot, side_eq}
use poma.Lifecycle.Entry.{OrderLedgerEntry, is_terminal, with_snapshot}
use poma.Execution.Ledger.{Ledger, LedgerLaws}
use poma.Execution.World.{Broker, Exec, Reply, ok, raised, ◌>>=◌}
use poma.Reconcile.Desk.{Desk, BrokerCall}
use poma.Reconcile.Match.{find}
use poma.Reconcile.RefParts.{RefParts, root_ref, parse_ref}
use poma.Reconcile.Passes.{answer}
use poma.Reconcile.Restore.{
  Recovery, snapshot_ref, disagrees, names_order, recovered_entry, keep_recovered, recover,
  restore_by, restore_all,
}
use poma.Reconcile.Restoring.{
  is_order_of, IsMarked, Covers, Grows, Progress, find-All, find-none, Grows-with_recovered,
  Covers-with_recovered, Progress-with_recovered,
}

module _ {F S W : Type 0} ⦃f : Float F⦄ (br : Broker F W) (l : Ledger F S) (Valid : S → Type 0)
    (laws : LedgerLaws l Valid) (start : List (OrderLedgerEntry F)) where
  -- what some steps from a recovery leave, when they return and when they raise
  abbrev pub Steps :
      List (OpenOrderSnapshot F)
      → Recovery F
      → List (BrokerCall F × S)
      → Reply (Recovery F) × Desk F S W
      → Type 0
  Steps ss r calls (ok r', w) =
      Progress l Valid start r' w.ledger
      × All (λ s. Covers l Valid start r' (is_order_of s)) ss
      × Grows l Valid start r r'
      × (w.calls ≡ calls)
  Steps ss r calls (raised error, w) = w.calls ≡ calls

  -- the entry of a live order of a reference, where no known entry has the reference
  keep_recovered-Steps :
      (r : Recovery F) (s : OpenOrderSnapshot F) (e : OrderLedgerEntry F) (w : Desk F S W)
      → Progress l Valid start r w.ledger
      → All (λ x. (x.order_ref == e.ledger_key) ≡ false) (values r.known)
      → (is_terminal e ≡ false → IsMarked e × (is_order_of s e ≡ true))
      → e.order_ref ≡ e.ledger_key
      → Steps (s ∷ []) r w.calls (keep_recovered br l r e w)
  unfolding keep_recovered
  keep_recovered-Steps r s e w h fresh live same = elim (Bool-cases (is_terminal e)) [
    | inl ended ↦ rw ended refl
    | inr alive ↦ rw alive (
      Progress-with_recovered l Valid start laws r w.ledger e h fresh (live alive).0 same,
      (Covers-with_recovered l Valid start r e (is_order_of s) (live alive).1, tt),
      Grows-with_recovered l Valid start r e,
      refl,
    )
  ]

  recovered_entry-is_order_of :
      (now at : String) (p : RefParts) (s : OpenOrderSnapshot F)
      → is_terminal (recovered_entry now at p s) ≡ false
      → IsMarked (recovered_entry now at p s) × (is_order_of s (recovered_entry now at p s) ≡ true)
  unfolding recovered_entry with_snapshot poma.Prelude.has_prefix
  recovered_entry-is_order_of now at p s h = (
    (rw h refl, h, refl),
    rw (h, ==_refl (snapshot_ref s), ==_refl s.ticker, ==_refl s.side) refl,
  )

  recovered_entry-ledger_key :
      (now at : String) (p : RefParts) (s : OpenOrderSnapshot F)
      → ((recovered_entry now at p s).ledger_key ≡ snapshot_ref s)
        × ((recovered_entry now at p s).order_ref ≡ snapshot_ref s)
  unfolding recovered_entry with_snapshot
  recovered_entry-ledger_key now at p s = (refl, refl)

  keep_new-Steps :
      (now at : String) (r : Recovery F) (p : RefParts) (s : OpenOrderSnapshot F) (w : Desk F S W)
      → Progress l Valid start r w.ledger
      → All (λ x. (x.order_ref == snapshot_ref s) ≡ false) (values r.known)
      → Steps (s ∷ []) r w.calls (keep_recovered br l r (recovered_entry now at p s) w)
  keep_new-Steps now at r p s w h fresh =
      (let (key, ref) = recovered_entry-ledger_key now at p s in
        keep_recovered-Steps r s (recovered_entry now at p s) w h (rw key fresh)
          (recovered_entry-is_order_of now at p s) (rw (key, ref) refl))

  recover-Steps :
      (r : Recovery F) (p : Option RefParts) (s : OpenOrderSnapshot F) (w : Desk F S W)
      → Progress l Valid start r w.ledger
      → All (λ x. (x.order_ref == snapshot_ref s) ≡ false) (values r.known)
      → Steps (s ∷ []) r w.calls (recover br l r p s w)
  unfolding recover
  recover-Steps r none s w h fresh = refl
  recover-Steps r (some p) s w h fresh = elim (Bool-cases (not (names_order p s))) [
    | inl other ↦ rw other refl
    | inr same ↦ elim (Bool-cases ((s.filled ⊕ s.remaining ≼ whole 0) || is_none s.order_id)) [
      | inl lacking ↦ rw (same, lacking) refl
      | inr full ↦ rw (same, full) (keep_new-Steps _ _ r p s _ h fresh)
    ]
  ]

  agreed-is_order_of :
      (e : OrderLedgerEntry F) (s : OpenOrderSnapshot F)
      → (e.order_ref == snapshot_ref s) ≡ true
      → disagrees e s ≡ false
      → is_order_of s e ≡ true
  agreed-is_order_of e s same agreed = ground (arith, same, agreed)

  restore_known-Steps :
      (r : Recovery F) (s : OpenOrderSnapshot F) (e : OrderLedgerEntry F) (w : Desk F S W)
      → Progress l Valid start r w.ledger
      → find (λ x. x.order_ref == snapshot_ref s) (values r.known) ≡ some e
      → Steps (s ∷ []) r w.calls (restore_by br l r s (some e) w)
  unfolding restore_by
  restore_known-Steps r s e w h found = elim (Bool-cases (disagrees e s)) [
    | inl other ↦ rw other refl
    | inr same ↦
        let (within, ref) =
          find-All _ (λ x. x.order_ref == snapshot_ref s) (values r.known) e h.within found in
        rw same (h, (within (is_order_of s) (agreed-is_order_of e s ref same), tt), λ p g. g, refl)
  ]

  restore_new-Steps :
      (r : Recovery F) (s : OpenOrderSnapshot F) (w : Desk F S W)
      → Progress l Valid start r w.ledger
      → All (λ x. (x.order_ref == snapshot_ref s) ≡ false) (values r.known)
      → Steps (s ∷ []) r w.calls (restore_by br l r s none w)
  unfolding restore_by
  restore_new-Steps r s w h fresh =
      elim (Bool-cases (is_some (lookup (root_ref (snapshot_ref s)) r.known))) [
        | inl known ↦ rw known refl
        | inr other ↦ rw other (recover-Steps r (parse_ref (root_ref (snapshot_ref s))) s w h fresh)
      ]

  restore_by-Steps :
      (r : Recovery F) (s : OpenOrderSnapshot F) (w : Desk F S W)
      → Progress l Valid start r w.ledger
      → Steps
          (s ∷ [])
          r
          w.calls
          (restore_by br l r s (find (λ x. x.order_ref == snapshot_ref s) (values r.known)) w)
  restore_by-Steps r s w h =
      elim (Option-cases (find (λ x. x.order_ref == snapshot_ref s) (values r.known))) [
        | inl e ↦ rw e (
            restore_new-Steps r s w h
              (find-none (λ x. x.order_ref == snapshot_ref s) (values r.known) e))
        | inr (x, e) ↦ rw e (restore_known-Steps r s x w h e)
      ]

  -- the rest of the steps after the first
  add_step :
      (s : OpenOrderSnapshot F) (ss : List (OpenOrderSnapshot F)) (r r' : Recovery F)
      (calls : List (BrokerCall F × S)) (o : Reply (Recovery F) × Desk F S W)
      → Covers l Valid start r' (is_order_of s)
      → Grows l Valid start r r'
      → Steps ss r' calls o
      → Steps (s ∷ ss) r calls o
  add_step s ss r r' calls (raised error, w) c g h = h
  add_step s ss r r' calls (ok r'', w) c g (h, cs, g', same) =
      (h, (g' (is_order_of s) c, cs), λ p x. g' p (g p x), same)

  then-Steps :
      (s : OpenOrderSnapshot F) (ss : List (OpenOrderSnapshot F)) (r : Recovery F)
      (calls : List (BrokerCall F × S)) (o : Reply (Recovery F)) (w : Desk F S W)
      (next : Recovery F → Exec (Desk F S W) (Recovery F))
      → Steps (s ∷ []) r calls (o, w)
      → ((x : Recovery F) (v : Desk F S W)
          → Progress l Valid start x v.ledger
          → Steps ss x v.calls (next x v))
      → Steps (s ∷ ss) r calls ((answer o >>= next) w)
  then-Steps s ss r calls (raised error) w next h g = h
  then-Steps s ss r calls (ok x) w next (h, (c, _), grows, same) g =
      add_step s ss r x calls (next x w) c grows
        (subst (λ z. Steps ss x z (next x w)) same (g x w h))

  pub restore_all-Steps :
      (r : Recovery F) (ss : List (OpenOrderSnapshot F)) (w : Desk F S W)
      → Progress l Valid start r w.ledger
      → Steps ss r w.calls (restore_all br l r ss w)
  unfolding restore_all
  restore_all-Steps r [] w h = (h, tt, λ p g. g, refl)
  restore_all-Steps r (s ∷ ss) w h =
      (let step =
          restore_by br l r s (find (λ e. e.order_ref == snapshot_ref s) (values r.known)) w in
        then-Steps s ss r w.calls step.0 step.1 (λ r'. restore_all br l r' ss)
          (restore_by-Steps r s w h) (λ x v good. restore_all-Steps x ss v good))
