-- ===== src/Reconcile/Unresolved.antt =====
-- src/poma/execution_manager.py: `check_stale_orders` and the orders of other sessions and runs.
use poma.Prelude.{
  string_eq, option_eq, nat_eq, true, false, not, ◌&&◌, String, ◌<>◌, Option, none, some, List, [],
  ◌∷◌, ◌==◌, keep, length, show, has_infix-append, Float, All, ◌≡◌, refl, arith, Bool-cases, inl,
  inr, subst,
}
use Prim.Native.String.append.{nil}
use poma.Config.{Settings}
use poma.Lifecycle.Entry.{OrderLedgerEntry}
use poma.Execution.Ledger.{Ledger}
use poma.Execution.World.{Broker, Reply, ok, raised, ◌>>=◌}
use poma.Reconcile.Desk.{Desk}
use poma.Reconcile.Passes.{answer}
use poma.Reconcile.Stale.{
  StaleOrderCheck, block_marker, is_blocked, tickers_text, is_prior, is_foreign, is_own,
  own_warnings, refresh_warning, check_groups, refreshed, check_refreshed, check_by_entries,
  check_stale_orders,
}
use poma.Reconcile.Blocking.{Blocks, Marks, before, check_lists-clear}

module _ {F : Type 0} where
  -- the entries of no other session and no other run
  own_entries :
      (session_date run_id : String) (es : List (OrderLedgerEntry F))
      → keep (is_prior session_date) es ≡ []
      → keep (is_foreign session_date run_id) es ≡ []
      → All (λ e. is_own session_date run_id e ≡ true) es
  own_entries session_date run_id [] p q = tt
  own_entries session_date run_id (e ∷ es) p q =
      ground (arith, p, q, own_entries session_date run_id es)

module _ {F S W : Type 0} ⦃f : Float F⦄ (br : Broker F W) (l : Ledger F S) (settings : Settings F)
    (session_date run_id : String) where
  check_groups-clear :
      (es : List (OrderLedgerEntry F)) (w w' : Desk F S W) (c : StaleOrderCheck)
      → es ≡ l.load_open_orders w.ledger
      → check_groups br l settings session_date run_id es w ≡ (ok c, w')
      → is_blocked c.warnings ≡ false
      → All (λ e. is_own session_date run_id e ≡ true) (l.load_open_orders w'.ledger)
  check_groups-clear es w w' c loaded eq silent =
      (let (prior, foreign, same) =
          check_lists-clear br l settings (keep (is_prior session_date) es)
            (keep (is_foreign session_date run_id) es)
            (own_warnings (keep (is_own session_date run_id) es)) w w' c eq silent in
        subst (λ v. All (λ e. is_own session_date run_id e ≡ true) (l.load_open_orders v.ledger))
          same
          (subst (All (λ e. is_own session_date run_id e ≡ true)) loaded
            (own_entries session_date run_id es prior foreign)))

  refresh-is_blocked :
      (es : List (OrderLedgerEntry F)) (error : String)
      → is_blocked (refresh_warning es error ∷ []) ≡ true
  refresh-is_blocked es error = ground (
    arith,
    before "unable to refresh local open orders against IBKR before planning (" _ (
        before (show (length es)) _ (
          before " local order(s): " _ (
            before (tickers_text es) _ (
              before "); " _ (
                subst Marks (nil (block_marker <> (": " <> error)))
                  (has_infix-append block_marker "" (": " <> error))))))),
  )

  check_refreshed-clear :
      (before : List (OrderLedgerEntry F)) (failure : Option String) (w w' : Desk F S W)
      (c : StaleOrderCheck)
      → check_refreshed br l settings session_date run_id before failure w ≡ (ok c, w')
      → is_blocked c.warnings ≡ false
      → All (λ e. is_own session_date run_id e ≡ true) (l.load_open_orders w'.ledger)
  unfolding check_refreshed
  check_refreshed-clear before none w w' c eq silent =
      check_groups-clear (l.load_open_orders w.ledger) w w' c refl eq silent
  check_refreshed-clear before (some error) w w' c eq silent =
      (let blocked : is_blocked c.warnings ≡ true =
          subst (λ r. Blocks r.0) eq (refresh-is_blocked before error) in
        ground (arith, blocked, silent))

  after_refresh :
      (before : List (OrderLedgerEntry F)) (r : Reply (Option String)) (w w' : Desk F S W)
      (c : StaleOrderCheck)
      → (answer r >>= check_refreshed br l settings session_date run_id before) w ≡ (ok c, w')
      → is_blocked c.warnings ≡ false
      → All (λ e. is_own session_date run_id e ≡ true) (l.load_open_orders w'.ledger)
  after_refresh before (ok failure) w w' c eq silent =
      check_refreshed-clear before failure w w' c eq silent
  after_refresh before (raised error) w w' c eq silent = ground (arith, eq)

  -- Where check_stale_orders returns with no warning that blocks execution, every order that is still
  -- silent in the ledger is of this session and this run.
  pub check_stale_orders-is_own :
      (w w' : Desk F S W) (c : StaleOrderCheck)
      → check_stale_orders br l settings session_date run_id w ≡ (ok c, w')
      → is_blocked c.warnings ≡ false
      → All (λ e. is_own session_date run_id e ≡ true) (l.load_open_orders w'.ledger)
  unfolding check_stale_orders check_by_entries
  check_stale_orders-is_own w w' c eq silent =
      elim (Bool-cases (length (l.load_open_orders w.ledger) == 0 && not br.is_ibkr_broker)) [
        | inl skipped ↦
            check_groups-clear (l.load_open_orders w.ledger) w w' c refl
              (ground (arith, skipped, eq)) silent
        | inr asked ↦
            after_refresh (l.load_open_orders w.ledger) (refreshed br l settings w).0
              (refreshed br l settings w).1 w' c (ground (arith, asked, eq)) silent
      ]
