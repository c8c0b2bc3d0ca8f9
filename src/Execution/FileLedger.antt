-- ===== src/Execution/FileLedger.antt =====
-- src/poma/order_store.py: the file store as the ledger of the execution manager. The number beside the
-- store is the stamp that the next write of a file gets.
use poma.Prelude.{ℕ, ◌+◌}
use poma.Store.Defs.{
  OrderStore, latest_entries, load_open_orders, get, get_latest_many, run_trade, upsert,
}
use poma.Store.View.{latest, IsCoherent, lookup-latest_entries}
use poma.Store.Upsert.{latest-upsert, upsert-IsCoherent}
use poma.Store.Queries.{
  get-eq-open, lookup-get_latest_many, run_trade-latest, latest_key, load_open_orders-AreLatest,
}
use poma.Execution.Ledger.{Ledger, LedgerLaws}

module _ {F : Type 0} where
  abbrev pub file_ledger : Ledger F (OrderStore F × ℕ)
  file_ledger = record {
    latest = λ k (s, n). latest s k;
    get_latest_many = λ ks (s, n). get_latest_many ks s;
    latest_run_trade = λ run ticker side (s, n). run_trade run ticker side (latest_entries s).0;
    get = λ k (s, n). get k s;
    load_open_orders = λ (s, n). load_open_orders s;
    load_latest_entries = λ (s, n). (latest_entries s).0;
    upsert = λ e (s, n). (upsert n (n + 1) e s, n + 2);
  }

  -- The file store fulfils every law of the ledger interface that the execution manager relies on,
  -- where the store is coherent.
  pub file_ledger-LedgerLaws :
      LedgerLaws {F = F} {S = OrderStore F × ℕ} file_ledger (λ (s, n). IsCoherent s)
  file_ledger-LedgerLaws = record {
    upsert_Valid = λ e (s, n) h. upsert-IsCoherent n (n + 1) e s h;
    latest-upsert = λ e k (s, n) h. latest-upsert n (n + 1) e s k h;
    get-latest = λ k (s, n) h. get-eq-open k s h;
    latest_key = λ k e (s, n) h eq. latest_key k e s eq;
    lookup-get_latest_many = λ ks k (s, n) h. lookup-get_latest_many ks k s h;
    latest_run_trade_sound =
        λ run ticker side e (s, n) h eq. run_trade-latest run ticker side e s h eq;
    load_open_orders-AreLatest = λ (s, n) h. load_open_orders-AreLatest s h;
    lookup-load_latest_entries = λ k (s, n) h. lookup-latest_entries s k h;
  }
