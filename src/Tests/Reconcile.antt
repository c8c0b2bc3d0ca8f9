-- ===== src/Tests/Reconcile.antt =====
-- Passes over one order that waits for its fill, and is replaced.
use poma.Prelude.{string_eq, true, ℕ, ◌≤◌, none, some, [], ◌∷◌, String, refl, ◌≡◌, arith, All}
use poma.Models.{buy, OpenOrderSnapshot}
use poma.Lifecycle.State.{submitted}
use poma.Lifecycle.Entry.{OrderLedgerEntry}
use poma.Execution.FileLedger.{file_ledger, file_ledger-LedgerLaws}
use poma.Execution.World.{Broker, placed}
use poma.Reconcile.Desk.{Desk}
use poma.Reconcile.Pass.{Evidence, reconcile_all}
use poma.Reconcile.Careful.{IsCareful, replacements}
use poma.Reconcile.Worked.{Worked, opened, passed, recorded, Worked-IsOnce, Worked-replacements}
use poma.Reconcile.Closed.{has_ended, IsClosed, reconcile_all-IsClosed}
use poma.Reconcile.FailClosed.{answered, reconcile_all-answered, IsKept, reconcile_all-IsKept}
use poma.Reconcile.RefParts.{root_ref, parse_ref}
use poma.Reconcile.RoundTrip.{parts_of, parse_ref-root_ref}
use poma.Reconcile.Timeouts.{replacement_ref}
use poma.Store.Defs.{OrderStore}
use poma.Store.View.{IsCoherent}
use poma.Store.History.{new_store, start as no_history, History-IsCoherent}
use poma.Tests.Fixed.{ℤ, fixed_float, usd}
use poma.Tests.Scenario.{settings, accepting}

abbrev pub waiting : OrderLedgerEntry ℤ
waiting = record {
  ledger_key = "poma:run:0:SP1:BUY";
  order_ref = "poma:run:0:SP1:BUY";
  run_id = "run";
  session_date = "2025-01-02";
  ticker = "SP1";
  side = buy;
  quantity = usd 2 0;
  limit_price = some (usd 100 0);
  reference_price = some (usd 100 0);
  reference_price_source = none;
  reference_price_basis = none;
  reference_price_as_of_utc = none;
  quote_age_seconds = none;
  quote_spread_bps = none;
  order_id = some 7;
  perm_id = none;
  submitted_at = some "10:00";
  lifecycle_state = submitted;
  raw_status = "Submitted";
  filled_qty = usd 0 0;
  remaining_qty = usd 2 0;
  avg_fill_price = none;
  last_status_at = none;
  terminal_reason = none;
  replace_count = 0;
  replacement_order_ref = none;
}

abbrev pub snapshot : String → OpenOrderSnapshot ℤ
snapshot ref = record {
  order_ref = some ref;
  order_id = some 7;
  perm_id = none;
  ticker = "SP1";
  side = buy;
  raw_status = "Submitted";
  filled = usd 0 0;
  remaining = usd 2 0;
  avg_fill_price = none;
}

abbrev replacing : Broker ℤ ℕ
replacing = record accepting { replace_order = λ i r n. (placed (snapshot r.order_ref), n) }

abbrev evidence : Evidence ℤ
evidence = record {
  open_snapshots = snapshot "poma:run:0:SP1:BUY" ∷ [];
  completed_snapshots = [];
  history_error = none;
  recovered_keys = [];
}

abbrev pub empty : Desk ℤ (OrderStore ℤ × ℕ) ℕ
empty = record { ledger = (new_store, 0); outside = 0; calls = [] }

abbrev desk : Desk ℤ (OrderStore ℤ × ℕ) ℕ
desk = record empty { ledger = file_ledger.upsert waiting empty.ledger }

abbrev pass : Desk ℤ (OrderStore ℤ × ℕ) ℕ → Desk ℤ (OrderStore ℤ × ℕ) ℕ
pass w =
    (reconcile_all replacing file_ledger settings "10:03" evidence
      (file_ledger.load_open_orders w.ledger) w).1

abbrev pub IsValid : OrderStore ℤ × ℕ → Type 0
IsValid (s, n) = IsCoherent s

one_entry : Worked file_ledger IsValid desk
unfolding poma.Store.Defs.on_disk poma.Store.Lines.replay
one_entry =
    recorded waiting empty (omega arith) (omega arith)
      (opened empty.ledger empty.outside (History-IsCoherent no_history) (λ k. omega arith))

-- the first pass replaces the order, and the second keeps it
two_passes : Worked file_ledger IsValid (pass (pass desk))
two_passes =
    passed replacing settings "10:03" evidence (pass desk)
      (passed replacing settings "10:03" evidence desk one_entry)

Worked-replacements_example :
    (replacements "poma:run:0:SP1:BUY" (pass (pass desk)).calls ≤ 1)
    × All (IsCareful file_ledger) (pass (pass desk)).calls
Worked-replacements_example =
    Worked-replacements file_ledger IsValid file_ledger-LedgerLaws (pass (pass desk))
      "poma:run:0:SP1:BUY" two_passes

-- the broker reports no open order, and its history of completed orders cannot be read
abbrev blind : Evidence ℤ
blind = record evidence { open_snapshots = []; history_error = some "timeout" }

reconcile_all-answered_example :
    answered
      (reconcile_all replacing file_ledger settings "10:03" blind (waiting ∷ waiting ∷ []) desk).0
    ≡ some 2
reconcile_all-answered_example =
    reconcile_all-answered replacing file_ledger settings "10:03" blind (waiting ∷ waiting ∷ [])
      desk

reconcile_all-IsKept_example :
    All
      (IsKept replacing file_ledger IsValid settings "10:03" blind file_ledger-LedgerLaws
        (reconcile_all replacing file_ledger settings "10:03" blind
          (file_ledger.load_open_orders desk.ledger)
          desk).1.ledger)
      (file_ledger.load_open_orders desk.ledger)
reconcile_all-IsKept_example =
    reconcile_all-IsKept replacing file_ledger IsValid settings "10:03" blind file_ledger-LedgerLaws
      (file_ledger.load_open_orders desk.ledger) desk
      (Worked-IsOnce file_ledger IsValid file_ledger-LedgerLaws desk one_entry)
      (file_ledger-LedgerLaws.load_open_orders-AreLatest desk.ledger
        (Worked-IsOnce file_ledger IsValid file_ledger-LedgerLaws desk one_entry).valid)
      refl

parse_ref-root_ref_example :
    (parse_ref (root_ref waiting.ledger_key) ≡ some (parts_of "run" 0 "SP1" buy))
    × (parse_ref (root_ref (replacement_ref waiting)) ≡ some (parts_of "run" 0 "SP1" buy))
unfolding poma.Lifecycle.Reference.build_order_ref poma.Prelude.show
parse_ref-root_ref_example = parse_ref-root_ref waiting "run" 0 "SP1" buy refl refl refl

-- the order is not open any more, and was filled
abbrev ended : OpenOrderSnapshot ℤ
ended = record (snapshot "poma:run:0:SP1:BUY") {
  raw_status = "Filled";
  filled = usd 2 0;
  remaining = usd 0 0;
}

abbrev after_fill : Evidence ℤ
after_fill = record evidence { open_snapshots = []; completed_snapshots = ended ∷ [] }

waiting_ended : has_ended after_fill waiting ≡ true
unfolding poma.Reconcile.Match.match_snapshot poma.Lifecycle.State.classify_lifecycle
    poma.Lifecycle.State.is_terminal_state
waiting_ended = refl

reconcile_all-IsClosed_example :
    All
      (IsClosed replacing file_ledger IsValid settings "10:03" after_fill file_ledger-LedgerLaws
        (reconcile_all replacing file_ledger settings "10:03" after_fill
          (file_ledger.load_open_orders desk.ledger)
          desk).1.ledger)
      (file_ledger.load_open_orders desk.ledger)
reconcile_all-IsClosed_example =
    reconcile_all-IsClosed replacing file_ledger IsValid settings "10:03" after_fill
      file_ledger-LedgerLaws (file_ledger.load_open_orders desk.ledger) desk
      (Worked-IsOnce file_ledger IsValid file_ledger-LedgerLaws desk one_entry)
      (file_ledger-LedgerLaws.load_open_orders-AreLatest desk.ledger
        (Worked-IsOnce file_ledger IsValid file_ledger-LedgerLaws desk one_entry).valid)
      refl
