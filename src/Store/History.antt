-- ===== src/Store/History.antt =====
-- Every store that a sequence of processes can reach, with the entries that they recorded.
use poma.Prelude.{
  string_eq, ℕ, String, none, some, List, [], ◌∷◌, ◌++◌, ◌≡◌, refl, arith, ◌∙◌, Option-cases, inl,
  inr,
}
use poma.Lifecycle.Entry.{OrderLedgerEntry}
use poma.Store.Lines.{last_line, last_line-append}
use poma.Store.Defs.{OrderStore, on_disk, latest_entries, upsert, interrupted_upsert}
use poma.Store.View.{
  latest, IsCoherent, lookup-latest_entries, latest_entries-IsKeyed, latest-eq-lines,
  latest_entries-files,
}
use poma.Store.Upsert.{latest-upsert, upsert-IsCoherent, latest-interrupted, interrupted-IsCoherent}

module _ {F : Type 0} where
  -- no files yet, and a process that has read nothing
  abbrev pub new_store : OrderStore F
  new_store = record {
    open_orders = none;
    events = none;
    cache = none;
    cache_open = none;
    cache_events = none;
  }

  -- a new process over the same files
  abbrev pub restart : OrderStore F → OrderStore F
  restart s = record s { cache = none; cache_open = none; cache_events = none }

  -- `History s es`: from no files, the recorded entries `es` have led to the store `s`.
  pub data History : OrderStore F → List (OrderLedgerEntry F) → Type 0 where
    start : History new_store []
    read :
        {s : OrderStore F} {es : List (OrderLedgerEntry F)}
        → History s es
        → History (latest_entries s).1 es
    reopen :
        {s : OrderStore F} {es : List (OrderLedgerEntry F)} → History s es → History (restart s) es
    record_entry :
        {s : OrderStore F} {es : List (OrderLedgerEntry F)} (a b : ℕ) (e : OrderLedgerEntry F)
        → History s es
        → History (upsert a b e s) (es ++ (e ∷ []))
    killed :
        {s : OrderStore F} {es : List (OrderLedgerEntry F)} (a : ℕ) (e : OrderLedgerEntry F)
        → History s es
        → History (interrupted_upsert a e s) (es ++ (e ∷ []))

  read-latest : (s : OrderStore F) (k : String) → latest (latest_entries s).1 k ≡ latest s k
  read-latest s k =
      ground
        (arith, latest-eq-lines s k, latest-eq-lines (latest_entries s).1 k, latest_entries-files s)

  read-cache : (s : OrderStore F) → (latest_entries s).1.cache ≡ some (latest_entries s).0
  unfolding latest_entries
  read-cache s = elim (Option-cases s.cache) [ inl e ↦ ground arith | inr (d, e) ↦ ground arith ]

  read-IsCoherent : (s : OrderStore F) → IsCoherent s → IsCoherent (latest_entries s).1
  read-IsCoherent s h = record {
    backed = λ k gone. ground (arith, latest_entries-files s, h.backed k);
    fresh_lookup =
        λ d k c fits. ground (arith, read-cache s, read-latest s k, lookup-latest_entries s k h);
    fresh_keyed = λ d c fits. ground (arith, read-cache s, latest_entries-IsKeyed s h);
  }

  restart-latest : (s : OrderStore F) (k : String) → latest (restart s) k ≡ latest s k
  unfolding on_disk
  restart-latest s k = refl

  restart-IsCoherent : (s : OrderStore F) → IsCoherent s → IsCoherent (restart s)
  restart-IsCoherent s h = record {
    backed = λ k gone. h.backed k gone;
    fresh_lookup = λ d k c fits. ground arith;
    fresh_keyed = λ d c fits. ground arith;
  }

  new_store-IsCoherent : IsCoherent new_store
  new_store-IsCoherent = record {
    backed = λ k gone. refl;
    fresh_lookup = λ d k c fits. ground arith;
    fresh_keyed = λ d c fits. ground arith;
  }

  pub History-IsCoherent :
      {s : OrderStore F} {es : List (OrderLedgerEntry F)} → History s es → IsCoherent s
  History-IsCoherent start = new_store-IsCoherent
  History-IsCoherent (read {s = s} h) = read-IsCoherent s (History-IsCoherent h)
  History-IsCoherent (reopen {s = s} h) = restart-IsCoherent s (History-IsCoherent h)
  History-IsCoherent (record_entry {s = s} a b e h) =
      upsert-IsCoherent a b e s (History-IsCoherent h)
  History-IsCoherent (killed {s = s} a e h) = interrupted-IsCoherent a e s (History-IsCoherent h)

  -- Whatever reads, writes, restarts and kills came before, the store answers every key with the
  -- entry last recorded for it.
  pub History-latest :
      (k : String) {s : OrderStore F} {es : List (OrderLedgerEntry F)}
      → History s es
      → latest s k ≡ last_line k es
  unfolding on_disk
  History-latest k start = latest-eq-lines new_store k
  History-latest k (read {s = s} h) = read-latest s k ∙ History-latest k h
  History-latest k (reopen {s = s} h) = restart-latest s k ∙ History-latest k h
  History-latest k (record_entry {s = s} {es = es} a b e h) = ground (
    arith,
    latest-upsert a b e s k (History-IsCoherent h),
    History-latest k h,
    last_line-append k es (e ∷ []),
  )
  History-latest k (killed {s = s} {es = es} a e h) =
      ground (arith, latest-interrupted a e s k, History-latest k h, last_line-append k es (e ∷ []))
