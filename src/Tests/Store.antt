-- ===== src/Tests/Store.antt =====
-- Ledger entries, a history of processes over the two files, and the theorems at that history.
use poma.Prelude.{string_eq, ℕ, String, none, some, lookup, List, [], ◌∷◌, refl, ◌≡◌}
use poma.Models.{buy}
use poma.Lifecycle.State.{OrderLifecycleState, submitted, filled, is_terminal_state}
use poma.Lifecycle.Entry.{OrderLedgerEntry}
use poma.Store.Defs.{
  OrderStore, upsert, interrupted_upsert, latest_entries, get, get_latest_many, run_trade, on_disk,
  append_event, save_open_orders,
}
use poma.Store.Lines.{last_line, replay, open_lines}
use poma.Store.View.{IsCoherent}
use poma.Store.History.{History, new_store, restart, start, read, reopen, record_entry, killed}
use poma.Store.Refinement.{get-History, get_latest_many-History, run_trade-History}
use poma.Execution.FileLedger.{file_ledger, file_ledger-LedgerLaws}
use poma.Execution.Ledger.{LedgerLaws}
use poma.Tests.Fixed.{ℤ, usd}

abbrev pub entry : String → OrderLifecycleState → OrderLedgerEntry ℤ
entry key state = record {
  ledger_key = key;
  order_ref = key;
  run_id = "run";
  session_date = "2025-01-02";
  ticker = "AAPL";
  side = buy;
  quantity = usd 2 0;
  limit_price = some (usd 100 10);
  reference_price = some (usd 100 0);
  reference_price_source = none;
  reference_price_basis = none;
  reference_price_as_of_utc = none;
  quote_age_seconds = none;
  quote_spread_bps = none;
  order_id = some 7;
  perm_id = none;
  submitted_at = none;
  lifecycle_state = state;
  raw_status = "Submitted";
  filled_qty = usd 0 0;
  remaining_qty = usd 2 0;
  avg_fill_price = none;
  last_status_at = none;
  terminal_reason = none;
  replace_count = 0;
  replacement_order_ref = none;
}

-- record "a", read, be killed while recording that "b" is filled, restart, record "a" again
abbrev final_store : OrderStore ℤ
final_store = upsert 5 6 (entry "a" filled) (
    restart (
      interrupted_upsert 4 (entry "b" submitted)
        (latest_entries (upsert 1 2 (entry "a" submitted) new_store)).1))

abbrev recorded : List (OrderLedgerEntry ℤ)
recorded = entry "a" submitted ∷ entry "b" submitted ∷ entry "a" filled ∷ []

abbrev history : History final_store recorded
history =
    record_entry 5 6 (entry "a" filled) (
      reopen (killed 4 (entry "b" submitted) (read (record_entry 1 2 (entry "a" submitted) start))))

found_entry : run_trade "run" "AAPL" buy (latest_entries final_store).0 ≡ some (entry "b" submitted)
unfolding upsert interrupted_upsert latest_entries on_disk append_event save_open_orders replay
    open_lines is_terminal_state
found_entry = refl

get-History_example : get "a" final_store ≡ none
unfolding is_terminal_state
get-History_example = get-History final_store recorded history "a"

get_latest_many-History_example :
    lookup "b" (get_latest_many ("a" ∷ "b" ∷ []) final_store) ≡ some (entry "b" submitted)
get_latest_many-History_example =
    get_latest_many-History final_store recorded history ("a" ∷ "b" ∷ []) "b"

run_trade-History_example :
    ((entry "b" submitted).run_id ≡ "run")
    × ((entry "b" submitted).ticker ≡ "AAPL")
    × (buy ≡ buy)
    × (last_line "b" recorded ≡ some (entry "b" submitted))
run_trade-History_example =
    run_trade-History final_store recorded history "run" "AAPL" buy (entry "b" submitted)
      found_entry

file_ledger-LedgerLaws_example :
    LedgerLaws {F = ℤ} {S = OrderStore ℤ × ℕ} file_ledger (λ (s, n). IsCoherent s)
file_ledger-LedgerLaws_example = file_ledger-LedgerLaws {F = ℤ}
