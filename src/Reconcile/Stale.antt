-- ===== src/Reconcile/Stale.antt =====
-- src/poma/execution_manager.py: `check_stale_orders`; src/poma/engine.py: `RebalanceEngine.is_blocked`,
-- on the warnings.
use poma.Prelude.{
  string_eq, option_eq, nat_eq, ℕ, ◌-◌, Bool, not, ◌&&◌, String, ◌<>◌, Option, none, some, List, [],
  ◌∷◌, ◌++◌, ◌==◌, any, keep, map, length, show, has_infix, Float, if◌then◌else◌,
}
use poma.Config.{Settings, StaleOrderPolicy, block, cancel}
use poma.Lifecycle.State.{cancel_pending}
use poma.Lifecycle.Entry.{OrderLedgerEntry}
use poma.Risk.Tickers.{sorted, set_of}
use poma.Execution.Ledger.{Ledger}
use poma.Execution.World.{Broker, Exec, pure, raise, catch, ◌>>=◌, ◌>>◌}
use poma.Reconcile.Desk.{Desk, cancels, order_call, settle, store}
use poma.Reconcile.Match.{has_recovery_mark}
use poma.Reconcile.Entry.{ReconcileUpdate}
use poma.Reconcile.Whole.{open_entries, reconcile}

pub record StaleOrderCheck : Type 0 where
  pub warnings : List String
  pub cancelled_ledger_keys : List String

abbrev pub block_marker : String
block_marker = "block execution"

-- `is_blocked`
abbrev pub is_blocked : List String → Bool
is_blocked warnings = any (has_infix block_marker) warnings

-- `", ".join(texts)`
abbrev pub join : List String → String
join [] = ""
join (t ∷ []) = t
join (t ∷ u ∷ ts) = t <> ", " <> join (u ∷ ts)

abbrev pub joined : List String → StaleOrderCheck → StaleOrderCheck → StaleOrderCheck
joined own first second = record {
  warnings = first.warnings ++ (second.warnings ++ own);
  cancelled_ledger_keys = first.cancelled_ledger_keys ++ second.cancelled_ledger_keys;
}

module _ {F : Type 0} where
  abbrev pub tickers_text : List (OrderLedgerEntry F) → String
  tickers_text es = join (sorted (set_of (map (λ e. e.ticker) es)))

  abbrev pub is_error : ReconcileUpdate F → Bool
  is_error u = u.action == some "error"

  abbrev pub is_prior : String → OrderLedgerEntry F → Bool
  is_prior session_date e = not (e.session_date == session_date)

  abbrev pub is_foreign : String → String → OrderLedgerEntry F → Bool
  is_foreign session_date run_id e = e.session_date == session_date && not (e.run_id == run_id)

  abbrev pub is_own : String → String → OrderLedgerEntry F → Bool
  is_own session_date run_id e = e.session_date == session_date && e.run_id == run_id

  -- the warnings of a group of which the cancels of these keys were requested
  abbrev pub cancel_warnings : String → List (OrderLedgerEntry F) → List String → List String
  cancel_warnings label group cancelled =
      ("requested cancellation of "
        <> show (length cancelled)
        <> " open order(s) from "
        <> label
        <> " before planning ("
        <> tickers_text group
        <> ")")
      ∷ ((if length cancelled == 0
            then []
            else ("cancellation awaiting broker terminal confirmation; " <> (block_marker <> ""))
              ∷ [])
          ++ (if length group - length cancelled == 0
              then []
              else (show (length group - length cancelled)
                  <> " open order(s) from "
                  <> label
                  <> " could not be confirmed cancelled ("
                  <> tickers_text group
                  <> "); "
                  <> (block_marker <> ""))
                ∷ []))

  abbrev pub cancelled_check : String → List (OrderLedgerEntry F) → List String → StaleOrderCheck
  cancelled_check label group keys = record {
    warnings = cancel_warnings label group keys;
    cancelled_ledger_keys = keys;
  }

  abbrev pub unresolved_warning : String → List (OrderLedgerEntry F) → String
  unresolved_warning label group =
      show (length group)
      <> " open order(s) from "
      <> label
      <> " are still unresolved ("
      <> tickers_text group
      <> "); run `poma reconcile-orders` or cancel manually before this session can trade; "
      <> (block_marker <> "")

  abbrev pub own_warnings : List (OrderLedgerEntry F) → List String
  own_warnings [] = []
  own_warnings (e ∷ es) =
      (show (length (e ∷ es))
        <> " open order(s) from this run are still unresolved ("
        <> tickers_text (e ∷ es)
        <> "); run `poma reconcile-orders` to follow up")
      ∷ []

  abbrev pub refresh_warning : List (OrderLedgerEntry F) → String → String
  refresh_warning es error =
      "unable to refresh local open orders against IBKR before planning ("
      <> show (length es)
      <> " local order(s): "
      <> tickers_text es
      <> "); "
      <> (block_marker <> ": " <> error)

module _ {F S W : Type 0} ⦃f : Float F⦄ (br : Broker F W) (l : Ledger F S)
    (settings : Settings F) where
  abbrev request_cancel : String → OrderLedgerEntry F → Option ℕ → Exec (Desk F S W) (List String)
  request_cancel label e none = pure []
  request_cancel label e (some order_id) = do
    reply ← order_call (cancels e) (br.cancel_order order_id)
    done ← settle reply
    if done
        then (do
          store l (record e {
            lifecycle_state = cancel_pending;
            terminal_reason = some ("cancelled: unresolved order from " <> label);
          })
          pure (e.ledger_key ∷ []))
        else pure []

  -- the keys of the entries whose cancel is requested; an entry with the mark of a
  -- rediscovered order is passed over
  unfoldable pub cancel_group : String → List (OrderLedgerEntry F) → Exec (Desk F S W) (List String)
  cancel_group label [] = pure []
  cancel_group label (e ∷ es) = do
    key ← if has_recovery_mark e then pure [] else request_cancel label e e.order_id
    keys ← cancel_group label es
    pure (key ++ keys)

  unfoldable pub check_by_policy :
      StaleOrderPolicy → String → List (OrderLedgerEntry F) → Exec (Desk F S W) StaleOrderCheck
  check_by_policy block label group =
      pure (record { warnings = unresolved_warning label group ∷ []; cancelled_ledger_keys = [] })
  check_by_policy cancel label group = do
    keys ← cancel_group label group
    pure (cancelled_check label group keys)

  unfoldable pub check_group :
      String → List (OrderLedgerEntry F) → Exec (Desk F S W) StaleOrderCheck
  check_group label [] = pure (record { warnings = []; cancelled_ledger_keys = [] })
  check_group label (e ∷ es) = check_by_policy settings.stale_order_policy label (e ∷ es)

  -- the orders of a prior session and of another run, with the warnings of this run
  unfoldable pub check_lists :
      List (OrderLedgerEntry F)
      → List (OrderLedgerEntry F)
      → List String
      → Exec (Desk F S W) StaleOrderCheck
  check_lists prior foreign own = do
    first ← check_group "a prior session" prior
    second ← check_group "a different run in this session" foreign
    pure (joined own first second)

  abbrev pub check_groups :
      String → String → List (OrderLedgerEntry F) → Exec (Desk F S W) StaleOrderCheck
  check_groups session_date run_id es =
      check_lists (keep (is_prior session_date) es) (keep (is_foreign session_date run_id) es)
        (own_warnings (keep (is_own session_date run_id) es))

  -- the open entries after a pass, or the reason why there was none
  unfoldable pub refreshed : Exec (Desk F S W) (Option String)
  refreshed =
      catch
        (do
          summary ← reconcile br l settings
          if any is_error summary.updates
              then raise "IBKR order-state recovery incomplete; retry reconciliation before trading"
              else pure none)
        (λ error. pure (some error))

  unfoldable pub check_refreshed :
      String
      → String
      → List (OrderLedgerEntry F)
      → Option String
      → Exec (Desk F S W) StaleOrderCheck
  check_refreshed session_date run_id before (some error) =
      pure (record { warnings = refresh_warning before error ∷ []; cancelled_ledger_keys = [] })
  check_refreshed session_date run_id before none = do
    es ← open_entries br l settings
    check_groups session_date run_id es

  unfoldable pub check_by_entries :
      String → String → List (OrderLedgerEntry F) → Exec (Desk F S W) StaleOrderCheck
  check_by_entries session_date run_id es =
      if length es == 0 && not br.is_ibkr_broker
      then check_groups session_date run_id es
      else (do failure ← refreshed; check_refreshed session_date run_id es failure)

  -- `check_stale_orders`
  unfoldable pub check_stale_orders : String → String → Exec (Desk F S W) StaleOrderCheck
  check_stale_orders session_date run_id w =
      check_by_entries session_date run_id (l.load_open_orders w.ledger) w
