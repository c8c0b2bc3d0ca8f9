-- ===== src/Store/Queries.antt =====
-- The queries of `OrderStore` against its view as a map.
use poma.Prelude.{
  string_eq, Bool, not, String, none, some, List, [], ◌∷◌, ◌==◌, ==_iff, lookup, values, keep, any,
  if◌then◌else◌, ◌≡◌, refl, sym, arith, ◌∙◌, Option-cases, Bool-cases, inl, inr, All, false, Option,
  subst,
}
use poma.Models.{OrderSide, side_eq}
use poma.Execution.Ledger.{AreLatest}
use poma.Lifecycle.Entry.{OrderLedgerEntry, is_terminal}
use poma.Store.Lines.{only, IsKeyed}
use poma.Store.Defs.{
  Entries, on_disk, OrderStore, latest_entries, load_open_orders, find_key, get, select_keys,
  get_latest_many, run_trade,
}
use poma.Store.View.{
  on_disk-IsKeyed, latest, IsCoherent, lookup-latest_entries, latest_entries-IsKeyed,
}

module _ {F : Type 0} where
  find_key-keep :
      (p : OrderLedgerEntry F → Bool) (k : String) (d : Entries F)
      → IsKeyed d
      → find_key k (keep p (values d)) ≡ only p (lookup k d)
  find_key-keep p k [] h = refl
  find_key-keep p k ((j, e) ∷ d) h =
      ground (arith, find_key-keep p k d h.2, ==_iff j k, ==_iff e.ledger_key k)

  -- `get` finds the latest entry of a key where that entry is open, and nothing else.
  pub get-eq-open :
      (k : String) (s : OrderStore F)
      → IsCoherent s
      → get k s ≡ only (λ e. not (is_terminal e)) (latest s k)
  unfolding get load_open_orders
  get-eq-open k s h =
      find_key-keep (λ e. not (is_terminal e)) k (latest_entries s).0 (latest_entries-IsKeyed s h)
      ∙ rw (lookup-latest_entries s k h)

  lookup-select_keys :
      (ks : List String) (k : String) (d : Entries F)
      → lookup k (select_keys ks d) ≡ (if any (λ j. j == k) ks then lookup k d else none)
  lookup-select_keys ks k [] = ground arith
  lookup-select_keys ks k ((j, e) ∷ d) = elim (Option-cases (lookup k d)) [
    | inl gone ↦ ground (arith, lookup-select_keys ks k d, ==_iff j k, ap_any j k)
    | inr (x, found) ↦ ground (arith, lookup-select_keys ks k d, ==_iff j k, ap_any j k)
  ]
    where
      ap_any : (j k : String) → j ≡ k → any (λ i. i == j) ks ≡ any (λ i. i == k) ks
      ap_any j k e = rw e

  -- `get_latest_many` answers a wanted key with its latest entry, terminal or not.
  pub lookup-get_latest_many :
      (ks : List String) (k : String) (s : OrderStore F)
      → IsCoherent s
      → lookup k (get_latest_many ks s) ≡ (if any (λ j. j == k) ks then latest s k else none)
  unfolding get_latest_many
  lookup-get_latest_many ks k s h =
      lookup-select_keys ks k (latest_entries s).0 ∙ rw (lookup-latest_entries s k h)

  run_trade_sound :
      (run ticker : String) (side : OrderSide) (e : OrderLedgerEntry F) (d : Entries F)
      → IsKeyed d
      → run_trade run ticker side d ≡ some e
      → (e.run_id ≡ run) × (e.ticker ≡ ticker) × (e.side ≡ side) × (lookup e.ledger_key d ≡ some e)
  run_trade_sound run ticker side e [] h eq = cc
  run_trade_sound run ticker side e ((k, x) ∷ d) h eq = ground (
    arith,
    run_trade_sound run ticker side e d h.2,
    ==_iff x.run_id run,
    ==_iff x.ticker ticker,
    ==_iff x.side side,
    ==_iff k e.ledger_key,
    ==_iff k x.ledger_key,
  )

  -- The entry that `get_latest_run_trades` gives for a ticker and side is of that run, ticker and
  -- side, and is the latest entry of its ledger key.
  pub run_trade-latest :
      (run ticker : String) (side : OrderSide) (e : OrderLedgerEntry F) (s : OrderStore F)
      → IsCoherent s
      → run_trade run ticker side (latest_entries s).0 ≡ some e
      → (e.run_id ≡ run) × (e.ticker ≡ ticker) × (e.side ≡ side) × (latest s e.ledger_key ≡ some e)
  run_trade-latest run ticker side e s h eq =
      let found =
        run_trade_sound run ticker side e (latest_entries s).0 (latest_entries-IsKeyed s h) eq in
      (found.0, found.1, found.2, sym (lookup-latest_entries s e.ledger_key h) ∙ found.3)

  key_of_IsKeyed :
      (k : String) (e : OrderLedgerEntry F) (d : Entries F)
      → IsKeyed d
      → lookup k d ≡ some e
      → e.ledger_key ≡ k
  key_of_IsKeyed k e [] h eq = cc
  key_of_IsKeyed k e ((j, x) ∷ d) h eq = ground (arith, key_of_IsKeyed k e d h.2, ==_iff j k)

  -- an entry stands under its own ledger key
  pub latest_key :
      (k : String) (e : OrderLedgerEntry F) (s : OrderStore F)
      → latest s k ≡ some e
      → e.ledger_key ≡ k
  latest_key k e s eq = key_of_IsKeyed k e (on_disk s) (on_disk-IsKeyed s) eq

  -- a key that is not there is the key of no entry
  absent_key :
      (k : String) (p : OrderLedgerEntry F → Bool) (d : Entries F)
      → IsKeyed d
      → lookup k d ≡ none
      → All (λ x. (k == x.ledger_key) ≡ false) (keep p (values d))
  absent_key k p [] h gone = tt
  absent_key k p ((j, x) ∷ d) h gone =
      ground (arith, absent_key k p d h.2, ==_iff j k, ==_iff k x.ledger_key)

  keep-AreLatest :
      (latest_of : String → Option (OrderLedgerEntry F)) (p : OrderLedgerEntry F → Bool)
      (d : Entries F)
      → IsKeyed d
      → ((k : String) (e : OrderLedgerEntry F) → lookup k d ≡ some e → latest_of k ≡ some e)
      → AreLatest latest_of (keep p (values d))
  keep-AreLatest latest_of p [] h same = tt
  keep-AreLatest latest_of p ((j, x) ∷ d) (key, fresh, h) same =
      let rest =
        keep-AreLatest latest_of p d h
          (λ k e found. same k e (ground (arith, ==_iff j k, found, fresh))) in
      elim (Bool-cases (p x)) [
        | inl e ↦ simp e (
          same x.ledger_key x (ground (arith, ==_iff j x.ledger_key)),
          subst (λ k. All (λ y. (k == y.ledger_key) ≡ false) (keep p (values d))) (sym key)
              (absent_key j p d h fresh),
          rest,
        )
        | inr e ↦ simp e rest
      ]

  -- The open orders are each the latest entry of its key, and no two have one key.
  pub load_open_orders-AreLatest :
      (s : OrderStore F) → IsCoherent s → AreLatest (λ k. latest s k) (load_open_orders s)
  unfolding load_open_orders
  load_open_orders-AreLatest s h =
      keep-AreLatest (λ k. latest s k) (λ e. not (is_terminal e)) (latest_entries s).0
        (latest_entries-IsKeyed s h) (λ k e found. sym (lookup-latest_entries s k h) ∙ found)
