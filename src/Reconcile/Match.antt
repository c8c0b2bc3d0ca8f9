-- ===== src/Reconcile/Match.antt =====
-- src/poma/execution_manager.py: `_entry_refs`, `_match_snapshot` and `_close_unreported_open_entry`.
use poma.Prelude.{
  string_eq, option_eq, nat_eq, Bool, true, false, not, ◌&&◌, ◌||◌, String, Option, none, some,
  List, [], ◌∷◌, ◌==◌, is_some, is_set, is_nonzero, or_text, has_prefix, Float, whole, ◌⊖◌, ◌≐◌,
  max_float, if◌then◌else◌,
}
use poma.Models.{OpenOrderSnapshot, side_eq}
use poma.Lifecycle.State.{unknown}
use poma.Lifecycle.Entry.{OrderLedgerEntry}

-- how a broker order belongs to an entry
pub data Match (F : Type 0) : Type 0 where
  unmatched : Match F
  as_original : OpenOrderSnapshot F → Match F
  as_replacement : OpenOrderSnapshot F → Match F

-- `next(x for x in xs if p(x))`
abbrev pub find {ℓ} : {A : Type ℓ} → (A → Bool) → List A → Option A
find p [] = none
find p (x ∷ xs) = if p x then some x else find p xs

module _ {F : Type 0} where
  -- `_entry_refs`, each reference once
  unfoldable pub entry_refs : OrderLedgerEntry F → List String
  entry_refs e =
      let replacement =
        if is_set e.replacement_order_ref
          && not (or_text e.replacement_order_ref "" == e.order_ref)
          && not (or_text e.replacement_order_ref "" == e.ledger_key)
        then or_text e.replacement_order_ref "" ∷ []
        else [] in
      if e.order_ref == e.ledger_key
      then e.order_ref ∷ replacement
      else e.order_ref ∷ e.ledger_key ∷ replacement

  -- the snapshot has this order reference
  abbrev pub has_ref : String → OpenOrderSnapshot F → Bool
  has_ref ref s = s.order_ref == some ref

  -- a snapshot of the entry's family of references that has a broker id of the entry
  abbrev pub is_relative : OrderLedgerEntry F → OpenOrderSnapshot F → Bool
  is_relative e s =
      has_prefix e.ledger_key (or_text s.order_ref "")
      && (s.ticker == e.ticker && s.side == e.side)
      && ((is_nonzero e.perm_id && s.perm_id == e.perm_id)
          || (is_some e.order_id && s.order_id == e.order_id))

  abbrev pub matched_or : Option (OpenOrderSnapshot F) → Match F → Match F
  matched_or (some s) other = as_original s
  matched_or none other = other

  abbrev pub replacement_or : Option (OpenOrderSnapshot F) → Match F → Match F
  replacement_or (some s) other = as_replacement s
  replacement_or none other = other

  -- `_match_snapshot`
  unfoldable pub match_snapshot : OrderLedgerEntry F → List (OpenOrderSnapshot F) → Match F
  match_snapshot e snapshots = matched_or (find (has_ref e.order_ref) snapshots) (
      replacement_or
        (if is_set e.replacement_order_ref
          then find (has_ref (or_text e.replacement_order_ref "")) snapshots
          else none)
        (matched_or (find (is_relative e) snapshots) unmatched))

  abbrev pub is_unmatched : Match F → Bool
  is_unmatched unmatched = true
  is_unmatched (as_original s) = false
  is_unmatched (as_replacement s) = false

  -- the last terminal reason is that of a rediscovered order; a later update may overwrite it
  abbrev pub has_recovery_mark : OrderLedgerEntry F → Bool
  has_recovery_mark e = has_prefix "Recovered from IBKR" (or_text e.terminal_reason "")

module _ {F : Type 0} ⦃f : Float F⦄ where
  -- `entry.remaining_qty or max(entry.quantity - entry.filled_qty, 0.0)`
  abbrev pub remaining_or_rest : OrderLedgerEntry F → F
  remaining_or_rest e =
      if e.remaining_qty ≐ whole 0
      then max_float (e.quantity ⊖ e.filled_qty) (whole 0)
      else e.remaining_qty

  -- `_close_unreported_open_entry`
  unfoldable pub close_unreported_open_entry : String → OrderLedgerEntry F → OrderLedgerEntry F
  close_unreported_open_entry now e = record e {
    lifecycle_state = unknown;
    raw_status = "NotOpenUnverified";
    remaining_qty = remaining_or_rest e;
    last_status_at = some now;
    terminal_reason =
        some
          "broker no longer reports this POMA order as open, but its final state is unverified; keeping it unresolved to prevent duplicate resubmission";
  }
