-- ===== src/Reconcile/Restoring.antt =====
-- src/poma/execution_manager.py: `_restore_untracked_broker_orders`, what is known while it runs.
use poma.Prelude.{
  string_eq, Bool, true, false, not, ◌&&◌, String, none, some, List, [], ◌∷◌, ◌++◌, ◌==◌, ==_iff,
  ==_refl, any, any-append, lookup, insert, lookup-insert, values, All, All-map, All-append,
  All-insert, All-lookup, ◌≡◌, arith,
}
use poma.Models.{OpenOrderSnapshot, side_eq}
use poma.Lifecycle.Entry.{OrderLedgerEntry, is_terminal}
use poma.Execution.Ledger.{Ledger, LedgerLaws}
use poma.Reconcile.Match.{find, has_recovery_mark}
use poma.Reconcile.Restore.{Recovery, snapshot_ref}

module _ {ℓ κ} {A : Type ℓ} (Q : A → Type κ) (p : A → Bool) where
  pub find-All : (xs : List A) (x : A) → All Q xs → find p xs ≡ some x → Q x × (p x ≡ true)
  find-All [] x h e = cc
  find-All (y ∷ ys) x (hy, h) e = ground (arith, find-All ys x h)

module _ {ℓ} {A : Type ℓ} (p : A → Bool) where
  pub find-none : (xs : List A) → find p xs ≡ none → All (λ x. p x ≡ false) xs
  find-none [] e = tt
  find-none (y ∷ ys) e = ground (arith, find-none ys)

module _ {F : Type 0} where
  -- an open entry of the broker's order: by reference, ticker and side
  abbrev pub is_order_of : OpenOrderSnapshot F → OrderLedgerEntry F → Bool
  is_order_of s e =
      e.order_ref == snapshot_ref s
      && e.ticker == s.ticker
      && e.side == s.side
      && not (is_terminal e)

  -- marked as rediscovered, not terminal, and of no current session
  abbrev pub IsMarked : OrderLedgerEntry F → Type 0
  IsMarked e =
      (has_recovery_mark e ≡ true) × (is_terminal e ≡ false) × (e.session_date ≡ "1970-01-01")

module _ {F S : Type 0} (l : Ledger F S) (Valid : S → Type 0)
    (start : List (OrderLedgerEntry F)) where
  -- an entry at the start or a recovered one passes the test
  abbrev pub Covers : Recovery F → (OrderLedgerEntry F → Bool) → Type 0
  Covers r p = any p (start ++ r.recovered) ≡ true

  abbrev pub Grows : Recovery F → Recovery F → Type 0
  Grows r r' = (p : OrderLedgerEntry F → Bool) → Covers r p → Covers r' p

  -- the entry is in the ledger, under its reference
  abbrev pub IsSaved : S → OrderLedgerEntry F → Type 0
  IsSaved s e = (e.order_ref ≡ e.ledger_key) × (l.latest e.ledger_key s ≡ some e)

  -- What is known mirrors the ledger and holds nothing but the entries of the start and the recovered ones,
  -- and these are marked and saved.
  pub record Progress (r : Recovery F) (s : S) : Type 0 where
    pub valid : Valid s
    pub mirrored : (k : String) → lookup k r.known ≡ l.latest k s
    pub marked : All IsMarked r.recovered
    pub saved : All (IsSaved s) r.recovered
    pub within :
        All (λ e. (p : OrderLedgerEntry F → Bool) → p e ≡ true → Covers r p) (values r.known)

  abbrev pub with_recovered : Recovery F → OrderLedgerEntry F → Recovery F
  with_recovered r e = record {
    known = insert e.ledger_key e r.known;
    recovered = r.recovered ++ (e ∷ []);
  }

  pub Grows-with_recovered :
      (r : Recovery F) (e : OrderLedgerEntry F) → Grows r (with_recovered r e)
  Grows-with_recovered r e p h = ground (
    arith,
    any-append p start r.recovered,
    any-append p start (r.recovered ++ (e ∷ [])),
    any-append p r.recovered (e ∷ []),
    h,
  )

  pub Covers-with_recovered :
      (r : Recovery F) (e : OrderLedgerEntry F) (p : OrderLedgerEntry F → Bool)
      → p e ≡ true
      → Covers (with_recovered r e) p
  Covers-with_recovered r e p h =
      ground
        (arith, any-append p start (r.recovered ++ (e ∷ [])), any-append p r.recovered (e ∷ []), h)

  module _ (laws : LedgerLaws l Valid) (r : Recovery F) (s : S) (e : OrderLedgerEntry F)
      (h : Progress r s)
      (fresh : All (λ x. (x.order_ref == e.ledger_key) ≡ false) (values r.known)) where
    -- a recovered entry of another key stays in the ledger
    still-IsSaved : (x : OrderLedgerEntry F) → IsSaved s x → IsSaved (l.upsert e s) x
    still-IsSaved x (same, held) =
        (let other =
            All-lookup (λ y. (y.order_ref == e.ledger_key) ≡ false) x.ledger_key x r.known fresh
              (ground (arith, h.mirrored x.ledger_key, held)) in
          (
            same,
            ground (
              arith,
              laws.latest-upsert e x.ledger_key s h.valid,
              other,
              same,
              held,
              ==_iff e.ledger_key x.ledger_key,
              ==_refl e.ledger_key,
            ),
          ))

    pub Progress-with_recovered :
        IsMarked e → e.order_ref ≡ e.ledger_key → Progress (with_recovered r e) (l.upsert e s)
    Progress-with_recovered marked same = record {
      valid = laws.upsert_Valid e s h.valid;
      mirrored = λ k. ground (
        arith,
        lookup-insert e.ledger_key k e r.known,
        laws.latest-upsert e k s h.valid,
        h.mirrored k,
      );
      marked = All-append IsMarked r.recovered (e ∷ []) h.marked (marked, tt);
      saved =
          All-append (IsSaved (l.upsert e s)) r.recovered (e ∷ [])
            (All-map (IsSaved s) (IsSaved (l.upsert e s)) r.recovered still-IsSaved h.saved)
            (
              (
                same,
                ground (arith, laws.latest-upsert e e.ledger_key s h.valid, ==_refl e.ledger_key),
              ),
              tt,
            );
      within =
          All-insert
            (λ x. (p : OrderLedgerEntry F → Bool) → p x ≡ true → Covers (with_recovered r e) p)
            e.ledger_key e r.known (Covers-with_recovered r e)
            (All-map (λ x. (p : OrderLedgerEntry F → Bool) → p x ≡ true → Covers r p)
              (λ x. (p : OrderLedgerEntry F → Bool) → p x ≡ true → Covers (with_recovered r e) p)
              (values r.known) (λ x g p hp. Grows-with_recovered r e p (g p hp)) h.within);
    }
