-- ===== src/Store/Upsert.antt =====
-- `OrderStore.upsert` against the view of the store as a map, also where the process is killed
-- between the append to the event log and the new snapshot.
use poma.Prelude.{
  string_eq, nat_eq, option_eq, ℕ, not, String, none, some, [], ◌∷◌, ◌++◌, ◌==◌, lookup, insert,
  if◌then◌else◌, ◌≡◌, refl, arith, lookup-insert, ◌∙◌,
}
use poma.Lifecycle.Entry.{OrderLedgerEntry, is_terminal}
use poma.Store.Lines.{
  open_lines, last_line, only, last_line-append, IsKeyed, insert-IsKeyed, last_line-open,
}
use poma.Store.Defs.{Entries, OrderStore, lines_of, latest_entries, upsert, interrupted_upsert}
use poma.Store.View.{
  latest, latest-eq-lines, IsBacked, IsCoherent, lookup-latest_entries, latest_entries-IsKeyed,
  latest_entries-files,
}

module _ {F : Type 0} (a b : ℕ) (e : OrderLedgerEntry F) (s : OrderStore F) where
  -- the dict that `upsert` writes
  abbrev written : Entries F
  written = insert e.ledger_key e (latest_entries s).0

  upsert-events : lines_of (upsert a b e s).events ≡ lines_of s.events ++ (e ∷ [])
  unfolding upsert
  upsert-events = ground (arith, latest_entries-files s)

  upsert-open : lines_of (upsert a b e s).open_orders ≡ open_lines written
  unfolding upsert
  upsert-open = refl

  written-IsKeyed : IsCoherent s → IsKeyed written
  written-IsKeyed h = insert-IsKeyed e (latest_entries s).0 (latest_entries-IsKeyed s h)

  lookup-written :
      (k : String)
      → IsCoherent s
      → lookup k written ≡ (if e.ledger_key == k then some e else latest s k)
  lookup-written k h =
      ground
        (arith, lookup-insert e.ledger_key k e (latest_entries s).0, lookup-latest_entries s k h)

  last_line-events :
      (k : String)
      → last_line k (lines_of (upsert a b e s).events)
        ≡ (if e.ledger_key == k then some e else last_line k (lines_of s.events))
  last_line-events k =
      rw upsert-events (ground (arith, last_line-append k (lines_of s.events) (e ∷ [])))

  last_line-open_orders :
      (k : String)
      → IsCoherent s
      → last_line k (lines_of (upsert a b e s).open_orders)
        ≡ only (λ x. not (is_terminal x)) (if e.ledger_key == k then some e else latest s k)
  last_line-open_orders k h =
      rw upsert-open (last_line-open k written (written-IsKeyed h) ∙ rw (lookup-written k h))

  -- The files of the store after `upsert`: the new entry under its key, all else as before.
  pub latest-upsert :
      (k : String)
      → IsCoherent s
      → latest (upsert a b e s) k ≡ (if e.ledger_key == k then some e else latest s k)
  latest-upsert k h = ground (
    arith,
    latest-eq-lines (upsert a b e s) k,
    latest-eq-lines s k,
    last_line-events k,
    last_line-open_orders k h,
    h.backed k,
  )

  upsert-IsBacked : IsCoherent s → IsBacked (upsert a b e s)
  upsert-IsBacked h k none_left = ground (arith, last_line-open_orders k h)

  upsert-cache : (upsert a b e s).cache ≡ some written
  unfolding upsert
  upsert-cache = refl

  -- `upsert` keeps the invariant.
  pub upsert-IsCoherent : IsCoherent s → IsCoherent (upsert a b e s)
  upsert-IsCoherent h = record {
    backed = upsert-IsBacked h;
    fresh_lookup =
        λ d k c fits. ground (arith, upsert-cache, lookup-written k h, latest-upsert k h);
    fresh_keyed = λ d c fits. ground (arith, upsert-cache, written-IsKeyed h);
  }

module _ {F : Type 0} (a : ℕ) (e : OrderLedgerEntry F) (s : OrderStore F) where
  interrupted-events : lines_of (interrupted_upsert a e s).events ≡ lines_of s.events ++ (e ∷ [])
  unfolding interrupted_upsert
  interrupted-events = refl

  interrupted-open : (interrupted_upsert a e s).open_orders ≡ s.open_orders
  unfolding interrupted_upsert
  interrupted-open = refl

  interrupted-cache : (interrupted_upsert a e s).cache ≡ none
  unfolding interrupted_upsert
  interrupted-cache = refl

  -- A kill between the append and the snapshot loses nothing: the next process reads the new entry.
  pub latest-interrupted :
      (k : String)
      → latest (interrupted_upsert a e s) k ≡ (if e.ledger_key == k then some e else latest s k)
  latest-interrupted k = ground (
    arith,
    latest-eq-lines (interrupted_upsert a e s) k,
    latest-eq-lines s k,
    interrupted-events,
    interrupted-open,
    last_line-append k (lines_of s.events) (e ∷ []),
  )

  pub interrupted-IsCoherent : IsCoherent s → IsCoherent (interrupted_upsert a e s)
  interrupted-IsCoherent h = record {
    backed = λ k gone. ground (
      arith,
      interrupted-events,
      interrupted-open,
      last_line-append k (lines_of s.events) (e ∷ []),
      h.backed k,
    );
    fresh_lookup = λ d k c fits. ground (arith, interrupted-cache);
    fresh_keyed = λ d c fits. ground (arith, interrupted-cache);
  }
