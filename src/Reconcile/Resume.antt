-- ===== src/Reconcile/Resume.antt =====
-- src/poma/execution_manager.py: `_adopt_replacement` and `_resume_replacement`.
use poma.Prelude.{
  string_eq, Bool, true, String, Option, none, some, or_text, Float, whole, ◌≼◌, if◌then◌else◌,
}
use poma.Models.{OpenOrderSnapshot}
use poma.Config.{Settings}
use poma.Lifecycle.Entry.{OrderLedgerEntry, with_snapshot}
use poma.Execution.World.{Broker, Exec, Reply, pure, ◌>>=◌, Replacement}
use poma.Reconcile.Desk.{Desk, resubmits, order_call, settle, clock}
use poma.Reconcile.Match.{remaining_or_rest}
use poma.Reconcile.Escalation.{Escalation, with_metadata, fresh_replace_limit_price}
use poma.Reconcile.Timeouts.{has_fill, seconds_since}

module _ {F : Type 0} ⦃f : Float F⦄ where
  -- the entry follows its reserved replacement
  abbrev pub switched : OrderLedgerEntry F → OrderLedgerEntry F
  switched e = record e {
    order_ref = or_text e.replacement_order_ref "";
    replacement_order_ref = none;
  }

  -- `_adopt_replacement`
  unfoldable pub adopt_replacement :
      String → OrderLedgerEntry F → OpenOrderSnapshot F → OrderLedgerEntry F
  adopt_replacement at e snapshot = with_snapshot at (switched e) snapshot

  -- the order was cancelled too long ago, or at an unknown time
  abbrev pub is_late : Settings F → Option F → Bool
  is_late s none = true
  is_late s (some elapsed) = whole s.cancel_after_seconds ≼ elapsed

  abbrev pub resubmission_of : OrderLedgerEntry F → String → F → Replacement F
  resubmission_of e ref new_limit = record {
    ticker = e.ticker;
    side = e.side;
    quantity = remaining_or_rest e;
    new_limit_price = new_limit;
    order_ref = ref;
  }

  -- the entry of the replacement that the broker has placed
  abbrev pub resumed_entry :
      String
      → String
      → String
      → Escalation F
      → OrderLedgerEntry F
      → OpenOrderSnapshot F
      → OrderLedgerEntry F
  resumed_entry now at ref fresh e snapshot =
      with_metadata fresh.metadata
        (record (with_snapshot at
          (record e { order_ref = ref; replacement_order_ref = none; terminal_reason = none })
          snapshot) { limit_price = some fresh.new_limit; submitted_at = some now })

module _ {F S W : Type 0} ⦃f : Float F⦄ (br : Broker F W) (s : Settings F) (now : String) where
  unfoldable pub resubmit :
      OrderLedgerEntry F
      → String
      → (Replacement F → W → Reply (OpenOrderSnapshot F) × W)
      → Option (Escalation F)
      → Exec (Desk F S W) (Option (OrderLedgerEntry F))
  resubmit e ref submit none = pure none
  resubmit e ref submit (some fresh) = do
    reply ←
        order_call (resubmits e (resubmission_of e ref fresh.new_limit))
          (submit (resubmission_of e ref fresh.new_limit))
    snapshot ← settle reply
    at ← clock br
    pure (some (resumed_entry now at ref fresh e snapshot))

  unfoldable pub resume_by :
      OrderLedgerEntry F
      → String
      → Option (Replacement F → W → Reply (OpenOrderSnapshot F) × W)
      → Exec (Desk F S W) (Option (OrderLedgerEntry F))
  resume_by e ref none = pure none
  resume_by e ref (some submit) =
      if remaining_or_rest e ≼ f.dec 1 9
      then pure none
      else if is_late s (seconds_since br e.submitted_at now)
      then pure none
      else (do fresh ← fresh_replace_limit_price br s e; resubmit e ref submit fresh)

  -- `_resume_replacement`
  unfoldable pub resume_replacement :
      OrderLedgerEntry F → String → Exec (Desk F S W) (Option (OrderLedgerEntry F))
  resume_replacement e ref = if has_fill e then pure none else resume_by e ref br.submit_replacement
