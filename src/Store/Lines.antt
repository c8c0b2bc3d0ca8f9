-- ===== src/Store/Lines.antt =====
-- The lines of a ledger file, as `OrderStore._latest_entries` reads them into a dict and
-- `OrderStore._save_open_orders` writes them back.
use poma.Prelude.{
  string_eq, is_before, Bool, not, String, Option, none, some, List, [], ◌∷◌, ◌++◌, ◌==◌, ==_iff,
  Dict, lookup, insert, values, keep, ◌∙◌, if◌then◌else◌, or_else, ◌≡◌, refl, arith, lookup-insert,
}
use poma.Lifecycle.Entry.{OrderLedgerEntry, is_terminal}

module _ {F : Type 0} where
  -- `entries[entry.ledger_key] = entry`, for each line
  unfoldable pub replay :
      Dict String (OrderLedgerEntry F)
      → List (OrderLedgerEntry F)
      → Dict String (OrderLedgerEntry F)
  replay d [] = d
  replay d (e ∷ es) = replay (insert e.ledger_key e d) es

  -- `sorted(entries, key=lambda e: e.ledger_key)`
  place : OrderLedgerEntry F → List (OrderLedgerEntry F) → List (OrderLedgerEntry F)
  place e [] = e ∷ []
  place e (x ∷ xs) = if is_before x.ledger_key e.ledger_key then x ∷ place e xs else e ∷ x ∷ xs

  sort_by_key : List (OrderLedgerEntry F) → List (OrderLedgerEntry F)
  unfolding place
  sort_by_key [] = []
  sort_by_key (x ∷ xs) = place x (sort_by_key xs)

  -- the lines of the open snapshot of a dict
  unfoldable pub open_lines : Dict String (OrderLedgerEntry F) → List (OrderLedgerEntry F)
  unfolding sort_by_key
  open_lines d = sort_by_key (keep (λ e. not (is_terminal e)) (values d))

  -- the last line of a key
  abbrev pub last_line : String → List (OrderLedgerEntry F) → Option (OrderLedgerEntry F)
  last_line k [] = none
  last_line k (e ∷ es) = or_else (last_line k es) (if e.ledger_key == k then some e else none)

  -- a value that passes a test
  abbrev pub only :
      (OrderLedgerEntry F → Bool) → Option (OrderLedgerEntry F) → Option (OrderLedgerEntry F)
  only p none = none
  only p (some e) = if p e then some e else none

  pub lookup-replay :
      (k : String) (d : Dict String (OrderLedgerEntry F)) (es : List (OrderLedgerEntry F))
      → lookup k (replay d es) ≡ or_else (last_line k es) (lookup k d)
  unfolding replay
  lookup-replay k d [] = refl
  lookup-replay k d (e ∷ es) =
      ground (arith, lookup-replay k (insert e.ledger_key e d) es, lookup-insert e.ledger_key k e d)

  pub last_line-append :
      (k : String) (xs ys : List (OrderLedgerEntry F))
      → last_line k (xs ++ ys) ≡ or_else (last_line k ys) (last_line k xs)
  last_line-append k [] ys = ground arith
  last_line-append k (x ∷ xs) ys = ground (arith, last_line-append k xs ys)

  -- every value stands under its own ledger key, and no key stands twice
  abbrev pub IsKeyed : Dict String (OrderLedgerEntry F) → Type 0
  IsKeyed [] = Unit
  IsKeyed ((k, e) ∷ d) = (e.ledger_key ≡ k) × (lookup k d ≡ none) × IsKeyed d

  pub insert-IsKeyed :
      (e : OrderLedgerEntry F) (d : Dict String (OrderLedgerEntry F))
      → IsKeyed d
      → IsKeyed (insert e.ledger_key e d)
  insert-IsKeyed e [] h = (refl, refl, tt)
  insert-IsKeyed e ((k, x) ∷ d) h = ground (
    arith,
    insert-IsKeyed e d h.2,
    lookup-insert e.ledger_key k e d,
    ==_iff k e.ledger_key,
    ==_iff e.ledger_key k,
  )

  pub replay-IsKeyed :
      (d : Dict String (OrderLedgerEntry F)) (es : List (OrderLedgerEntry F))
      → IsKeyed d
      → IsKeyed (replay d es)
  unfolding replay
  replay-IsKeyed d [] h = h
  replay-IsKeyed d (e ∷ es) h = replay-IsKeyed (insert e.ledger_key e d) es (insert-IsKeyed e d h)

  last_line-keep :
      (p : OrderLedgerEntry F → Bool) (k : String) (d : Dict String (OrderLedgerEntry F))
      → IsKeyed d
      → last_line k (keep p (values d)) ≡ only p (lookup k d)
  last_line-keep p k [] h = refl
  last_line-keep p k ((j, e) ∷ d) h =
      ground (arith, last_line-keep p k d h.2, ==_iff j k, ==_iff e.ledger_key k)

  abbrev IsDistinct : List (OrderLedgerEntry F) → Type 0
  IsDistinct [] = Unit
  IsDistinct (e ∷ es) = (last_line e.ledger_key es ≡ none) × IsDistinct es

  keep-IsDistinct :
      (p : OrderLedgerEntry F → Bool) (d : Dict String (OrderLedgerEntry F))
      → IsKeyed d
      → IsDistinct (keep p (values d))
  keep-IsDistinct p [] h = tt
  keep-IsDistinct p ((j, e) ∷ d) h =
      ground (arith, keep-IsDistinct p d h.2, last_line-keep p e.ledger_key d h.2)

  last_line-place :
      (k : String) (e : OrderLedgerEntry F) (xs : List (OrderLedgerEntry F))
      → last_line e.ledger_key xs ≡ none
      → last_line k (place e xs) ≡ (if e.ledger_key == k then some e else last_line k xs)
  unfolding place
  last_line-place k e [] h = refl
  last_line-place k e (x ∷ xs) h = ground (
    arith,
    last_line-place k e xs,
    ==_iff x.ledger_key k,
    ==_iff e.ledger_key k,
    ==_iff x.ledger_key e.ledger_key,
  )

  last_line-sort :
      (k : String) (xs : List (OrderLedgerEntry F))
      → IsDistinct xs
      → last_line k (sort_by_key xs) ≡ last_line k xs
  unfolding sort_by_key
  last_line-sort k [] h = refl
  last_line-sort k (x ∷ xs) h = ground (
    arith,
    last_line-sort k xs h.1,
    last_line-sort x.ledger_key xs h.1,
    last_line-place k x (sort_by_key xs),
    ==_iff x.ledger_key k,
  )

  -- the open snapshot holds the entry of a key just where it is not terminal
  pub last_line-open :
      (k : String) (d : Dict String (OrderLedgerEntry F))
      → IsKeyed d
      → last_line k (open_lines d) ≡ only (λ e. not (is_terminal e)) (lookup k d)
  unfolding open_lines
  last_line-open k d h =
      last_line-sort k (keep (λ e. not (is_terminal e)) (values d))
        (keep-IsDistinct (λ e. not (is_terminal e)) d h)
      ∙ last_line-keep (λ e. not (is_terminal e)) k d h
