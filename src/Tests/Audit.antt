-- ===== src/Tests/Audit.antt =====
-- A session from 10:00 to 16:00, a portfolio at its target, and a recovery with one filled order.
use poma.Prelude.{
  string_eq, ℕ, ◌≤◌, ◌&&◌, Bool, not, true, false, none, some, Option, List, [], ◌∷◌, Dict, String,
  ◌≡◌, refl, ◌≼◌, whole,
}
use poma.Models.{AccountSnapshot, OpenOrderSnapshot}
use poma.Lifecycle.State.{filled}
use poma.Lifecycle.Entry.{OrderLedgerEntry}
use poma.Execution.World.{ok}
use poma.Audit.Window.{
  MarketSession, is_market_open, has_waited, should_rebalance_now, should_rebalance_now-window,
}
use poma.Audit.Quality.{Assessment, assess_rebalance}
use poma.Audit.Reached.{IsReached, assess_rebalance-IsReached}
use poma.Audit.Recovery.{Probe, passed_text, verify_broker_recovery}
use poma.Audit.Recovered.{IsVerified, verify_broker_recovery-IsVerified}
use poma.Tests.Fixed.{ℤ, fixed_float, usd}
use poma.Tests.Reconcile.{waiting, snapshot}

abbrev day : ℕ → Option MarketSession
day now = some (record {
  session_date = "2025-01-02";
  market_open = 36_000_000_000;
  market_close = 57_600_000_000;
})

should_rebalance_now-window_example :
    (should_rebalance_now day 10 false 36_600_000_000).should_run
    ≡ (not false && is_market_open day 36_600_000_000 && has_waited day 10 36_600_000_000)
should_rebalance_now-window_example = should_rebalance_now-window day 10 false 36_600_000_000

abbrev done : OrderLedgerEntry ℤ
done = record waiting {
  lifecycle_state = filled;
  raw_status = "Filled";
  filled_qty = usd 2 0;
  remaining_qty = usd 0 0;
}

abbrev account : AccountSnapshot ℤ
account = record {
  cash_usd = usd 800 0;
  positions = record { ticker = "SP1"; quantity = usd 2 0; market_value = usd 200 0 } ∷ [];
  positions_market_value_usd = usd 200 0;
  net_liquidation_usd = some (usd 1000 0);
  account_id = some "DU1";
  warnings = [];
}

abbrev assessment : Assessment ℤ
assessment = record {
  targets = record { ticker = "SP1"; target_weight = usd 0 20; target_notional = usd 200 0 } ∷ [];
  planned_value_usd = usd 1000 0;
  snapshot = some account;
  order_entries = done ∷ [];
  original_broker_value_usd = none;
  min_trade_notional_usd = usd 50 0;
  min_weight_delta_pct = usd 0 1;
}

assess_rebalance-IsReached_example : IsReached assessment assessment.snapshot
unfolding assess_rebalance poma.Models.resolve_account_total_value
    poma.Lifecycle.State.is_terminal_state poma.Risk.Tickers.set_of poma.Audit.Quality.desired_cash
assess_rebalance-IsReached_example = assess_rebalance-IsReached assessment refl

abbrev filled_snapshot : OpenOrderSnapshot ℤ
filled_snapshot = record (snapshot "poma:run:0:SP1:BUY") {
  raw_status = "Filled";
  filled = usd 2 0;
  remaining = usd 0 0;
}

abbrev probe : Probe ℤ ℕ
probe = record {
  ibkr_account = some "DU1";
  account_snapshot = λ n. (ok account, n);
  fetch_completed_order_snapshots = λ n. (ok (filled_snapshot ∷ []), n);
}

abbrev entries : Dict String (OrderLedgerEntry ℤ)
entries = ("poma:run:0:SP1:BUY", done) ∷ []

verify_broker_recovery-IsVerified_example : IsVerified probe [] entries 0
unfolding verify_broker_recovery poma.Lifecycle.State.is_terminal_state
    poma.Audit.Recovery.check_account poma.Models.resolve_account_total_value
    poma.Audit.Recovery.check_history poma.Audit.Recovery.check_completed
    poma.Audit.Recovery.completed_conflict poma.Reconcile.RefParts.root_ref poma.Prelude.unsnoc
    poma.Prelude.split_colon poma.Reconcile.RefParts.is_replacement_mark
verify_broker_recovery-IsVerified_example =
    verify_broker_recovery-IsVerified probe [] entries 0 0 passed_text refl
