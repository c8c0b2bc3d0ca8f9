-- ===== src/Store/View.antt =====
-- src/poma/order_store.py: the store as a map from ledger keys to the latest entries, and the invariant
-- on its cache and its snapshot file.
use poma.Prelude.{
  string_eq, nat_eq, option_eq, true, not, String, Option, none, some, [], lookup, or_else, ◌≡◌,
  arith, Option-cases, inl, inr,
}
use poma.Lifecycle.Entry.{OrderLedgerEntry, is_terminal}
use poma.Store.Lines.{replay, last_line, only, lookup-replay, IsKeyed, replay-IsKeyed}
use poma.Store.Defs.{Entries, OrderStore, lines_of, on_disk, is_fresh, latest_entries}

module _ {F : Type 0} where
  -- the latest entry of a key by the files alone
  abbrev pub latest : OrderStore F → String → Option (OrderLedgerEntry F)
  latest s k = lookup k (on_disk s)

  pub latest-eq-lines :
      (s : OrderStore F) (k : String)
      → latest s k
        ≡ or_else (last_line k (lines_of s.events)) (last_line k (lines_of s.open_orders))
  unfolding on_disk
  latest-eq-lines s k = ground (
    arith,
    lookup-replay k (replay [] (lines_of s.open_orders)) (lines_of s.events),
    lookup-replay k [] (lines_of s.open_orders),
  )

  -- A terminal entry of the snapshot file is in the event log too.
  abbrev pub IsBacked : OrderStore F → Type 0
  IsBacked s =
      (k : String)
      → last_line k (lines_of s.events) ≡ none
      → only (λ e. not (is_terminal e)) (last_line k (lines_of s.open_orders))
        ≡ last_line k (lines_of s.open_orders)

  -- the cache, where its signature fits, and the files give the same entry for every key
  pub record IsCoherent (s : OrderStore F) : Type 0 where
    pub backed : IsBacked s
    pub fresh_lookup :
        (d : Entries F) (k : String)
        → s.cache ≡ some d
        → is_fresh s (some d) ≡ true
        → lookup k d ≡ latest s k
    pub fresh_keyed : (d : Entries F) → s.cache ≡ some d → is_fresh s (some d) ≡ true → IsKeyed d

  pub on_disk-IsKeyed : (s : OrderStore F) → IsKeyed (on_disk s)
  unfolding on_disk
  on_disk-IsKeyed s =
      replay-IsKeyed (replay [] (lines_of s.open_orders)) (lines_of s.events)
        (replay-IsKeyed [] (lines_of s.open_orders) tt)

  -- Reading through the cache gives what the files hold.
  pub lookup-latest_entries :
      (s : OrderStore F) (k : String) → IsCoherent s → lookup k (latest_entries s).0 ≡ latest s k
  unfolding latest_entries
  lookup-latest_entries s k h = elim (Option-cases s.cache) [
    | inl e ↦ ground arith
    | inr (d, e) ↦ ground (arith, h.fresh_lookup d k e)
  ]

  pub latest_entries-IsKeyed : (s : OrderStore F) → IsCoherent s → IsKeyed (latest_entries s).0
  unfolding latest_entries
  latest_entries-IsKeyed s h = elim (Option-cases s.cache) [
    | inl e ↦ ground (arith, on_disk-IsKeyed s)
    | inr (d, e) ↦ ground (arith, on_disk-IsKeyed s, h.fresh_keyed d e)
  ]

  -- filling the cache writes no file
  pub latest_entries-files :
      (s : OrderStore F)
      → ((latest_entries s).1.open_orders ≡ s.open_orders)
        × ((latest_entries s).1.events ≡ s.events)
  unfolding latest_entries
  latest_entries-files s = ground arith
