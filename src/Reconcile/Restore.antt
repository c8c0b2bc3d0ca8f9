-- ===== src/Reconcile/Restore.antt =====
-- src/poma/execution_manager.py: `_restore_untracked_broker_orders`. The text of an error shows a
-- reference without the quotes of `repr`.
use poma.Prelude.{
  string_eq, option_eq, Bool, not, ◌&&◌, ◌||◌, String, ◌<>◌, Option, none, some, List, [], ◌∷◌,
  ◌++◌, ◌==◌, Dict, lookup, insert, values, is_some, is_none, or_text, Float, whole, ◌⊕◌, ◌≼◌,
  if◌then◌else◌,
}
use poma.Models.{OpenOrderSnapshot, side_eq, side_value}
use poma.Lifecycle.State.{unknown}
use poma.Lifecycle.Entry.{OrderLedgerEntry, is_terminal, with_snapshot}
use poma.Execution.Ledger.{Ledger}
use poma.Execution.World.{Broker, Exec, pure, raise, ◌>>=◌, ◌>>◌}
use poma.Reconcile.Desk.{Desk, clock, store}
use poma.Reconcile.Match.{find}
use poma.Reconcile.RefParts.{RefParts, root_ref, parse_ref}

-- what is known of the ledger, and the entries that were recovered
pub record Recovery (F : Type 0) : Type 0 where
  pub known : Dict String (OrderLedgerEntry F)
  pub recovered : List (OrderLedgerEntry F)

module _ {F : Type 0} where
  abbrev pub snapshot_ref : OpenOrderSnapshot F → String
  snapshot_ref s = or_text s.order_ref ""

  -- the broker's order is not the one of this entry
  abbrev pub disagrees : OrderLedgerEntry F → OpenOrderSnapshot F → Bool
  disagrees e s = not (e.ticker == s.ticker) || not (e.side == s.side) || is_terminal e

  abbrev pub names_order : RefParts → OpenOrderSnapshot F → Bool
  names_order p s = p.ticker == s.ticker && p.side == side_value s.side

module _ {F : Type 0} ⦃f : Float F⦄ where
  -- the entry of a live order that the ledger does not know
  unfoldable pub recovered_entry :
      String → String → RefParts → OpenOrderSnapshot F → OrderLedgerEntry F
  recovered_entry now at p s =
      with_snapshot at
        (record {
          ledger_key = snapshot_ref s;
          order_ref = snapshot_ref s;
          run_id = p.run_id;
          session_date = "1970-01-01";
          ticker = s.ticker;
          side = s.side;
          quantity = s.filled ⊕ s.remaining;
          limit_price = none;
          reference_price = none;
          reference_price_source = none;
          reference_price_basis = none;
          reference_price_as_of_utc = none;
          quote_age_seconds = none;
          quote_spread_bps = none;
          order_id = s.order_id;
          perm_id = s.perm_id;
          submitted_at = some now;
          lifecycle_state = unknown;
          raw_status = "";
          filled_qty = whole 0;
          remaining_qty = whole 0;
          avg_fill_price = none;
          last_status_at = none;
          terminal_reason =
              some
                "Recovered from IBKR: original local order history missing; no automated replace/cancel";
          replace_count = 0;
          replacement_order_ref = none;
        })
        s

module _ {F S W : Type 0} ⦃f : Float F⦄ (br : Broker F W) (l : Ledger F S) where
  unfoldable pub keep_recovered : Recovery F → OrderLedgerEntry F → Exec (Desk F S W) (Recovery F)
  keep_recovered r e =
      if is_terminal e
      then raise ("unexpected terminal order returned as open: " <> e.order_ref)
      else (do
        store l e
        pure
            (record { known = insert e.ledger_key e r.known; recovered = r.recovered ++ (e ∷ []) }))

  unfoldable pub recover :
      Recovery F → Option RefParts → OpenOrderSnapshot F → Exec (Desk F S W) (Recovery F)
  recover r none s =
      raise ("unparseable broker POMA orderRef " <> snapshot_ref s <> "; block trading")
  recover r (some p) s =
      if not (names_order p s)
      then raise ("unparseable broker POMA orderRef " <> snapshot_ref s <> "; block trading")
      else if (s.filled ⊕ s.remaining ≼ whole 0) || is_none s.order_id
      then raise ("incomplete broker identity for " <> snapshot_ref s <> "; block trading")
      else (do now ← clock br; at ← clock br; keep_recovered r (recovered_entry now at p s))

  -- an open order, by the entry that has its reference
  unfoldable pub restore_by :
      Recovery F
      → OpenOrderSnapshot F
      → Option (OrderLedgerEntry F)
      → Exec (Desk F S W) (Recovery F)
  restore_by r s (some e) =
      if disagrees e s
      then raise (
          "IBKR orderRef conflict for "
          <> snapshot_ref s
          <> ": broker identity disagrees with ledger")
      else pure r
  restore_by r s none =
      if is_some (lookup (root_ref (snapshot_ref s)) r.known)
      then raise (
          "IBKR replacement "
          <> snapshot_ref s
          <> " is absent from durable order history; block trading")
      else recover r (parse_ref (root_ref (snapshot_ref s))) s

  -- the loop over the open orders
  unfoldable pub restore_all :
      Recovery F → List (OpenOrderSnapshot F) → Exec (Desk F S W) (Recovery F)
  restore_all r [] = pure r
  restore_all r (s ∷ ss) = do
    r' ← restore_by r s (find (λ e. e.order_ref == snapshot_ref s) (values r.known))
    restore_all r' ss

  -- `_restore_untracked_broker_orders`
  unfoldable pub restore_untracked_broker_orders :
      List (OpenOrderSnapshot F) → Exec (Desk F S W) (List (OrderLedgerEntry F))
  restore_untracked_broker_orders snapshots w =
      (do
        r ←
            restore_all (record { known = l.load_latest_entries w.ledger; recovered = [] })
              snapshots
        pure r.recovered)
        w
