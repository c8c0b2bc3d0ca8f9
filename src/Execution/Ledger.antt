-- ===== src/Execution/Ledger.antt =====
-- The order ledger as `ExecutionManager` uses it, and the laws that it relies on. The file store of
-- src/poma/order_store.py is an instance (`poma.Execution.FileLedger`).
use poma.Prelude.{
  string_eq, not, String, Option, none, some, List, ◌==◌, [], ◌∷◌, false, All, any, if◌then◌else◌,
  ◌≡◌, Dict, lookup,
}
use poma.Models.{OrderSide}
use poma.Lifecycle.Entry.{OrderLedgerEntry, is_terminal}
use poma.Store.Lines.{only}

-- `latest` is the specification's view of the ledger: the entry last recorded for a key.
pub record Ledger (F S : Type 0) : Type 0 where
  pub latest : String → S → Option (OrderLedgerEntry F)
  pub get_latest_many : List String → S → Dict String (OrderLedgerEntry F)
  pub latest_run_trade : String → String → OrderSide → S → Option (OrderLedgerEntry F)
  pub get : String → S → Option (OrderLedgerEntry F)
  pub load_open_orders : S → List (OrderLedgerEntry F)
  pub load_latest_entries : S → Dict String (OrderLedgerEntry F)
  pub upsert : OrderLedgerEntry F → S → S

-- the entries are each the latest of its key, and no key has two
abbrev pub AreLatest :
    {F : Type 0} → (String → Option (OrderLedgerEntry F)) → List (OrderLedgerEntry F) → Type 0
AreLatest latest [] = Unit
AreLatest latest (e ∷ es) =
    (latest e.ledger_key ≡ some e)
    × All (λ x. (e.ledger_key == x.ledger_key) ≡ false) es
    × AreLatest latest es

pub record LedgerLaws {F S : Type 0} (l : Ledger F S) (Valid : S → Type 0) : Type 0 where
  pub upsert_Valid : (e : OrderLedgerEntry F) (s : S) → Valid s → Valid (l.upsert e s)
  pub latest-upsert :
      (e : OrderLedgerEntry F) (k : String) (s : S)
      → Valid s
      → l.latest k (l.upsert e s) ≡ (if e.ledger_key == k then some e else l.latest k s)
  pub get-latest :
      (k : String) (s : S) → Valid s → l.get k s ≡ only (λ e. not (is_terminal e)) (l.latest k s)
  pub latest_key :
      (k : String) (e : OrderLedgerEntry F) (s : S)
      → Valid s
      → l.latest k s ≡ some e
      → e.ledger_key ≡ k
  pub lookup-get_latest_many :
      (ks : List String) (k : String) (s : S)
      → Valid s
      → lookup k (l.get_latest_many ks s) ≡ (if any (λ j. j == k) ks then l.latest k s else none)
  pub latest_run_trade_sound :
      (run ticker : String) (side : OrderSide) (e : OrderLedgerEntry F) (s : S)
      → Valid s
      → l.latest_run_trade run ticker side s ≡ some e
      → (e.run_id ≡ run)
        × (e.ticker ≡ ticker)
        × (e.side ≡ side)
        × (l.latest e.ledger_key s ≡ some e)
  pub load_open_orders-AreLatest :
      (s : S) → Valid s → AreLatest (λ k. l.latest k s) (l.load_open_orders s)
  pub lookup-load_latest_entries :
      (k : String) (s : S) → Valid s → lookup k (l.load_latest_entries s) ≡ l.latest k s
