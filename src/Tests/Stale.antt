-- ===== src/Tests/Stale.antt =====
-- `check_stale_orders` over one order of this run that the broker no longer reports.
use poma.Prelude.{string_eq, ℕ, true, none, some, [], ◌∷◌, List, refl, All, keep, not, ◌==◌, ◌≡◌}
use poma.Lifecycle.State.{unknown}
use poma.Lifecycle.Entry.{OrderLedgerEntry}
use poma.Execution.Ledger.{Ledger}
use poma.Reconcile.Match.{find}
use poma.Execution.World.{Reply}
use poma.Reconcile.Desk.{Desk}
use poma.Reconcile.Stale.{StaleOrderCheck, is_own, is_blocked, check_stale_orders}
use poma.Reconcile.Unresolved.{check_stale_orders-is_own}
use poma.Tests.Fixed.{ℤ, fixed_float}
use poma.Tests.Scenario.{settings, accepting}
use poma.Tests.Reconcile.{waiting}

abbrev unverified : OrderLedgerEntry ℤ
unverified = record waiting { lifecycle_state = unknown; raw_status = "NotOpenUnverified" }

-- a ledger in memory, whose entries are all open and have distinct keys
abbrev pub memory : Ledger ℤ (List (OrderLedgerEntry ℤ))
memory = record {
  latest = λ k es. find (λ e. e.ledger_key == k) es;
  get_latest_many = λ ks es. [];
  latest_run_trade = λ run ticker side es. none;
  get = λ k es. find (λ e. e.ledger_key == k) es;
  load_open_orders = λ es. es;
  load_latest_entries = λ es. [];
  upsert = λ e es. e ∷ keep (λ x. not (x.ledger_key == e.ledger_key)) es;
}

abbrev desk : Desk ℤ (List (OrderLedgerEntry ℤ)) ℕ
desk = record { ledger = unverified ∷ []; outside = 0; calls = [] }

abbrev checked : Reply StaleOrderCheck × Desk ℤ (List (OrderLedgerEntry ℤ)) ℕ
checked = check_stale_orders accepting memory settings "2025-01-02" "run" desk

abbrev report : StaleOrderCheck
report = record {
  warnings =
      "1 open order(s) from this run are still unresolved (SP1); run `poma reconcile-orders` to follow up"
      ∷ [];
  cancelled_ledger_keys = [];
}

check_stale_orders-is_own_example :
    All (λ e. is_own "2025-01-02" "run" e ≡ true) (memory.load_open_orders checked.1.ledger)
unfolding check_stale_orders poma.Reconcile.Stale.check_by_entries poma.Reconcile.Stale.refreshed
    poma.Reconcile.Whole.reconcile poma.Reconcile.Whole.reconcile_with_broker
    poma.Reconcile.Whole.reconcile_open_entries poma.Reconcile.Whole.fetch_history
    poma.Reconcile.Match.match_snapshot poma.Reconcile.Pass.reconcile_all
    poma.Reconcile.Pass.reconcile_one poma.Reconcile.Pass.reconcile_known
    poma.Reconcile.Entry.reconcile_entry poma.Reconcile.Entry.by_open
    poma.Reconcile.Entry.by_completed poma.Reconcile.Entry.close_unreported
    poma.Reconcile.Stale.check_refreshed poma.Reconcile.Stale.check_lists
    poma.Reconcile.Stale.check_group poma.Prelude.show poma.Risk.Tickers.set_of
    poma.Risk.Tickers.sorted poma.Prelude.has_infix poma.Prelude.has_prefix
check_stale_orders-is_own_example =
    check_stale_orders-is_own accepting memory settings "2025-01-02" "run" desk checked.1 report
      refl refl
