-- ===== src/Store/Refinement.antt =====
-- What the read methods of `OrderStore` answer after any history of processes over its files.
use poma.Prelude.{
  string_eq, not, String, some, List, none, ◌≡◌, ◌==◌, ◌∙◌, lookup, any, if◌then◌else◌, sym,
}
use poma.Models.{OrderSide}
use poma.Lifecycle.Entry.{OrderLedgerEntry, is_terminal}
use poma.Store.Lines.{only, last_line}
use poma.Store.Defs.{OrderStore, latest_entries, get, get_latest_many, run_trade}
use poma.Store.Queries.{get-eq-open, lookup-get_latest_many, run_trade-latest}
use poma.Store.History.{History, History-latest, History-IsCoherent}

module _ {F : Type 0} (s : OrderStore F) (es : List (OrderLedgerEntry F)) (h : History s es) where
  -- After any history of reads, writes, restarts and kills, `get` answers a key with the entry that
  -- was recorded last for it where that entry is not terminal, and with nothing otherwise.
  pub get-History : (k : String) → get k s ≡ only (λ e. not (is_terminal e)) (last_line k es)
  get-History k = get-eq-open k s (History-IsCoherent h) ∙ rw (History-latest k h)

  -- After any history of reads, writes, restarts and kills, `get_latest_many` has, under every key
  -- that was asked for, the entry that was recorded last for it, terminal or not, and no other keys.
  pub get_latest_many-History :
      (ks : List String) (k : String)
      → lookup k (get_latest_many ks s) ≡ (if any (λ j. j == k) ks then last_line k es else none)
  get_latest_many-History ks k =
      lookup-get_latest_many ks k s (History-IsCoherent h) ∙ rw (History-latest k h)

  -- After any history of reads, writes, restarts and kills, an entry that `get_latest_run_trades`
  -- gives for a ticker and side is of that run, ticker and side, and is the one recorded last under
  -- its ledger key.
  pub run_trade-History :
      (run ticker : String) (side : OrderSide) (e : OrderLedgerEntry F)
      → run_trade run ticker side (latest_entries s).0 ≡ some e
      → (e.run_id ≡ run)
        × (e.ticker ≡ ticker)
        × (e.side ≡ side)
        × (last_line e.ledger_key es ≡ some e)
  run_trade-History run ticker side e found =
      let (run_eq, ticker_eq, side_eq, latest_eq) =
        run_trade-latest run ticker side e s (History-IsCoherent h) found in
      (run_eq, ticker_eq, side_eq, sym (History-latest e.ledger_key h) ∙ latest_eq)
