-- ===== src/Reconcile/TimedOut.antt =====
-- src/poma/execution_manager.py: `_apply_timeout_policy` as a triple for one ledger key.
use poma.Prelude.{
  string_eq, nat_eq, option_eq, ℕ, ◌+◌, true, false, not, ◌&&◌, String, Option, none, some, ◌≡◌,
  refl, arith, Float, whole, ◌≼◌, ◌==◌,
}
use poma.Models.{OpenOrderSnapshot}
use poma.Config.{Settings, is_ibkr}
use poma.Lifecycle.State.{is_working_state}
use poma.Lifecycle.Entry.{OrderLedgerEntry, with_snapshot}
use poma.Execution.Ledger.{Ledger, LedgerLaws}
use poma.Execution.World.{Broker, pure, ReplaceReply, placed, cancel_not_confirmed, failed}
use poma.Reconcile.Desk.{cancels}
use poma.Reconcile.Match.{has_recovery_mark}
use poma.Reconcile.Escalation.{Escalation, with_metadata, QuoteMetadata, fresh_replace_limit_price}
use poma.Reconcile.Timeouts.{
  is_unfilled, is_replaceable, intent_of, replacement_of, replacement_ref, cancelled_entry,
  settle_replace, deferred_entry, outrun_entry, replaced_entry, replace_unfilled, cancel_unfilled,
  escalate, time_out, apply_timeout_policy, seconds_since,
}
use poma.Reconcile.Replaced.{Ready-same, TakenReady, reserved_replace-Runs}
use poma.Reconcile.Runs.{
  Ready, Runs, Runs-pure, Runs-raise, Runs-bind, Runs-if, query-Runs, settle-Runs, clock-Runs,
  order_call-Runs,
}

module _ {F : Type 0} where
  pub with_metadata-ledger_key :
      (m : Option (QuoteMetadata F)) (e : OrderLedgerEntry F)
      → (with_metadata m e).ledger_key ≡ e.ledger_key
  with_metadata-ledger_key none e = refl
  with_metadata-ledger_key (some m) e = refl

  pub with_metadata-replace_count :
      (m : Option (QuoteMetadata F)) (e : OrderLedgerEntry F)
      → (with_metadata m e).replace_count ≡ e.replace_count
  with_metadata-replace_count none e = refl
  with_metadata-replace_count (some m) e = refl

module _ {F : Type 0} ⦃f : Float F⦄ where
  pub with_snapshot-ledger_key :
      (at : String) (e : OrderLedgerEntry F) (snapshot : OpenOrderSnapshot F)
      → (with_snapshot at e snapshot).ledger_key ≡ e.ledger_key
  unfolding with_snapshot
  with_snapshot-ledger_key at e snapshot = refl

  pub with_snapshot-replace_count :
      (at : String) (e : OrderLedgerEntry F) (snapshot : OpenOrderSnapshot F)
      → (with_snapshot at e snapshot).replace_count ≡ e.replace_count
  unfolding with_snapshot
  with_snapshot-replace_count at e snapshot = refl

  pub replaced_entry-ledger_key :
      (now at : String) (fresh : Escalation F) (e : OrderLedgerEntry F)
      (snapshot : OpenOrderSnapshot F)
      → (replaced_entry now at fresh e snapshot).ledger_key ≡ e.ledger_key
  unfolding with_snapshot
  replaced_entry-ledger_key now at fresh e snapshot = rw with_metadata-ledger_key refl

  pub replaced_entry-replace_count :
      (now at : String) (fresh : Escalation F) (e : OrderLedgerEntry F)
      (snapshot : OpenOrderSnapshot F)
      → (replaced_entry now at fresh e snapshot).replace_count ≡ e.replace_count + 1
  unfolding with_snapshot
  replaced_entry-replace_count now at fresh e snapshot = rw with_metadata-replace_count refl

module _ {F S W : Type 0} ⦃f : Float F⦄ (br : Broker F W) (l : Ledger F S) (Valid : S → Type 0)
    (k : String) (s : S) (settings : Settings F) where
  -- a result of the key with the count of the entry
  taken_pure-Runs :
      (e e' : OrderLedgerEntry F) (action : String) (before : OrderLedgerEntry F)
      → e'.ledger_key ≡ before.ledger_key
      → e'.replace_count ≡ before.replace_count
      → Runs {W = W} l Valid k s
          (Ready l Valid k s before)
          (TakenReady l Valid k s e)
          (pure (some (e', action)))
  taken_pure-Runs e e' action before same_key same_count =
      Runs-pure l Valid k s (some (e', action))
        (λ w. Ready-same l Valid k s before e' w same_key same_count)

  settle_replace-Runs :
      (now : String) (e : OrderLedgerEntry F) (fresh : Escalation F) (reply : ReplaceReply F)
      → Runs l Valid k s
          (Ready l Valid k s (intent_of e))
          (TakenReady l Valid k s e)
          (settle_replace br l settings now e fresh reply)
  unfolding settle_replace
  settle_replace-Runs now e fresh (failed error) =
      Runs-raise l Valid k s (TakenReady l Valid k s e) error (λ w h. h.at)
  settle_replace-Runs now e fresh (cancel_not_confirmed error) =
      taken_pure-Runs e (deferred_entry e error) "replace_deferred" (intent_of e) refl refl
  settle_replace-Runs now e fresh (placed snapshot) =
      Runs-bind l Valid k s (λ _ w. Ready l Valid k s (intent_of e) w)
        (clock-Runs l Valid k s (intent_of e) br)
        (λ at.
          Runs-if l Valid k s (not (snapshot.order_ref == some (replacement_ref e)))
            (λ _.
              taken_pure-Runs e (outrun_entry at e snapshot) "closed" (intent_of e)
                (with_snapshot-ledger_key at e snapshot) refl)
            (λ _.
              taken_pure-Runs e (replaced_entry now at fresh e snapshot) "replace" (intent_of e)
                (replaced_entry-ledger_key now at fresh e snapshot)
                (replaced_entry-replace_count now at fresh e snapshot)))

  pub fresh-Runs :
      (e : OrderLedgerEntry F)
      → Runs l Valid k s
          (Ready l Valid k s e)
          (λ _ w. Ready l Valid k s e w)
          (fresh_replace_limit_price br settings e)
  unfolding fresh_replace_limit_price
  fresh-Runs e =
      Runs-if l Valid k s (not (is_ibkr settings.execution_price_source))
        (λ _. Runs-pure l Valid k s _ (λ w h. h))
        (λ _.
          Runs-bind l Valid k s (λ _ w. Ready l Valid k s e w) (query-Runs l Valid k s e _)
            (λ quotes. Runs-pure l Valid k s _ (λ w h. h)))

  -- the conditions under which an order may be cancelled, or replaced when it was not before
  pub record IsOverdue (e : OrderLedgerEntry F) : Type 0 where
    pub unfilled : is_unfilled e ≡ true
    pub working : is_working_state e.lifecycle_state ≡ true
    pub own : has_recovery_mark e ≡ false

  module _ (laws : LedgerLaws l Valid) (now : String) (e : OrderLedgerEntry F) where
    replace_unfilled-Runs :
        (order_id : ℕ) (fresh : Option (Escalation F))
        → IsOverdue e
        → e.replace_count ≡ 0
        → Runs l Valid k s
            (Ready l Valid k s e)
            (TakenReady l Valid k s e)
            (replace_unfilled br l settings now order_id e fresh)
    unfolding replace_unfilled
    replace_unfilled-Runs order_id none due first = Runs-pure l Valid k s none (λ w h. h)
    replace_unfilled-Runs order_id (some fresh) due first =
        reserved_replace-Runs l Valid k s laws e fresh.new_limit
          (br.replace_order order_id (replacement_of e fresh.new_limit)) due.unfilled due.working
          due.own first (TakenReady l Valid k s e) (settle_replace br l settings now e fresh)
          (settle_replace-Runs now e fresh)

    escalate-Runs :
        (order_id : Option ℕ)
        → IsOverdue e
        → e.replace_count ≡ 0
        → Runs l Valid k s
            (Ready l Valid k s e)
            (TakenReady l Valid k s e)
            (escalate br l settings now e order_id)
    unfolding escalate
    escalate-Runs none due first = Runs-pure l Valid k s none (λ w h. h)
    escalate-Runs (some order_id) due first =
        Runs-bind l Valid k s (λ _ w. Ready l Valid k s e w) (fresh-Runs e)
          (λ fresh. replace_unfilled-Runs order_id fresh due first)

    cancel_unfilled-Runs :
        (order_id : Option ℕ)
        → IsOverdue e
        → Runs l Valid k s
            (Ready l Valid k s e)
            (TakenReady l Valid k s e)
            (cancel_unfilled br l settings now e order_id)
    unfolding cancel_unfilled
    cancel_unfilled-Runs none due = Runs-pure l Valid k s none (λ w h. h)
    cancel_unfilled-Runs (some order_id) due =
        Runs-bind l Valid k s (λ _ w. Ready l Valid k s e w)
          (order_call-Runs l Valid k s e (cancels e) (br.cancel_order order_id) (λ j. refl)
            (λ t. (due.unfilled, due.working, due.own)))
          (λ reply.
            Runs-bind l Valid k s (λ _ w. Ready l Valid k s e w) (settle-Runs l Valid k s e reply)
              (λ done.
                Runs-if l Valid k s done
                  (λ _.
                    taken_pure-Runs e (cancelled_entry br l settings now e) "cancel" e refl refl)
                  (λ _. Runs-pure l Valid k s none (λ w h. h))))

    time_out-Runs :
        (elapsed : Option F)
        → is_working_state e.lifecycle_state ≡ true
        → has_recovery_mark e ≡ false
        → Runs l Valid k s
            (Ready l Valid k s e)
            (TakenReady l Valid k s e)
            (time_out br l settings now e elapsed)
    unfolding time_out
    time_out-Runs none working own = Runs-pure l Valid k s none (λ w h. h)
    time_out-Runs (some elapsed) working own =
        Runs-if l Valid k s ((whole settings.cancel_after_seconds ≼ elapsed) && is_unfilled e)
          (λ late.
            cancel_unfilled-Runs e.order_id
              (record { unfilled = ground (arith, late); working = working; own = own }))
          (λ _.
            Runs-if l Valid k s (is_replaceable settings elapsed e)
              (λ due.
                escalate-Runs e.order_id
                  (record { unfilled = ground (arith, due); working = working; own = own })
                  (ground (arith, due)))
              (λ _. Runs-pure l Valid k s none (λ w h. h)))

    pub apply_timeout_policy-Runs :
        has_recovery_mark e ≡ false
        → Runs l Valid k s
            (Ready l Valid k s e)
            (TakenReady l Valid k s e)
            (apply_timeout_policy br l settings now e)
    unfolding apply_timeout_policy
    apply_timeout_policy-Runs own =
        Runs-if l Valid k s (not (is_working_state e.lifecycle_state))
          (λ _. Runs-pure l Valid k s none (λ w h. h))
          (λ working.
            time_out-Runs (seconds_since br e.submitted_at now) (ground (arith, working)) own)
