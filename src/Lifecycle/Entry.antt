-- ===== src/Lifecycle/Entry.antt =====
-- src/poma/order_lifecycle.py: `OrderLedgerEntry`, and its update from an order result or a snapshot.
-- `now` is the text of `_utc_now_iso()`.
use poma.Prelude.{
  ℕ, Bool, String, ◌<>◌, Option, some, Float, ◌⊖◌, whole, max_float, if◌then◌else◌, or_else,
  or_text,
}
use poma.Models.{OrderSide, OrderResult, OpenOrderSnapshot}
use poma.Lifecycle.State.{OrderLifecycleState, is_terminal_state, classify_lifecycle}

pub record OrderLedgerEntry (F : Type 0) : Type 0 where
  pub ledger_key : String
  pub order_ref : String
  pub run_id : String
  pub session_date : String
  pub ticker : String
  pub side : OrderSide
  pub quantity : F
  pub limit_price : Option F
  pub reference_price : Option F
  pub reference_price_source : Option String
  pub reference_price_basis : Option String
  pub reference_price_as_of_utc : Option String
  pub quote_age_seconds : Option F
  pub quote_spread_bps : Option F
  pub order_id : Option ℕ
  pub perm_id : Option ℕ
  pub submitted_at : Option String
  pub lifecycle_state : OrderLifecycleState
  pub raw_status : String
  pub filled_qty : F
  pub remaining_qty : F
  pub avg_fill_price : Option F
  pub last_status_at : Option String
  pub terminal_reason : Option String
  pub replace_count : ℕ
  pub replacement_order_ref : Option String

abbrev pub is_terminal : {F : Type 0} → OrderLedgerEntry F → Bool
is_terminal e = is_terminal_state e.lifecycle_state

module _ {F : Type 0} ⦃f : Float F⦄ where
  unfoldable pub with_order_result :
      String → OrderLedgerEntry F → OrderResult F → OrderLedgerEntry F
  with_order_result now e r =
      let remaining = max_float (e.quantity ⊖ r.filled) (whole 0) in
      let lifecycle = classify_lifecycle r.status r.filled remaining in
      record e {
        order_id = or_else r.order_id e.order_id;
        submitted_at = some (or_text e.submitted_at now);
        lifecycle_state = lifecycle;
        raw_status = r.status;
        filled_qty = r.filled;
        remaining_qty = remaining;
        avg_fill_price = or_else r.average_fill_price e.avg_fill_price;
        last_status_at = some now;
        terminal_reason = if is_terminal_state lifecycle then r.message else e.terminal_reason;
      }

  unfoldable pub with_snapshot :
      String → OrderLedgerEntry F → OpenOrderSnapshot F → OrderLedgerEntry F
  with_snapshot now e s =
      let remaining = max_float s.remaining (whole 0) in
      let lifecycle = classify_lifecycle s.raw_status s.filled remaining in
      record e {
        order_id = or_else s.order_id e.order_id;
        perm_id = or_else s.perm_id e.perm_id;
        lifecycle_state = lifecycle;
        raw_status = s.raw_status;
        filled_qty = s.filled;
        remaining_qty = remaining;
        avg_fill_price = or_else s.avg_fill_price e.avg_fill_price;
        last_status_at = some now;
        terminal_reason =
            if is_terminal_state lifecycle
            then some ("broker reported " <> s.raw_status)
            else e.terminal_reason;
      }
