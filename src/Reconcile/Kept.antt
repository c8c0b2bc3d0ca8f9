-- ===== src/Reconcile/Kept.antt =====
-- src/poma/execution_manager.py: `_resume_replacement` and `_reconcile_entry` as triples for one ledger
-- key.
use poma.Prelude.{string_eq, Bool, true, false, String, Option, none, some, ◌≡◌, refl, Float, ◌≼◌}
use poma.Models.{OpenOrderSnapshot}
use poma.Config.{Settings}
use poma.Lifecycle.Entry.{OrderLedgerEntry, with_snapshot}
use poma.Execution.Ledger.{Ledger, LedgerLaws}
use poma.Execution.World.{Broker, Exec, Reply, Replacement}
use poma.Reconcile.Desk.{Desk, resubmits}
use poma.Reconcile.Match.{has_recovery_mark, remaining_or_rest}
use poma.Reconcile.Escalation.{Escalation}
use poma.Reconcile.Timeouts.{has_fill, seconds_since, Taken}
use poma.Reconcile.Resume.{
  is_late, resubmission_of, resumed_entry, resubmit, resume_by, resume_replacement,
}
use poma.Reconcile.Entry.{
  ReconcileUpdate, update_of, report, report_taken, follow_up, report_resumed,
}
use poma.Reconcile.Replaced.{Ready-same, TakenReady}
use poma.Reconcile.TimedOut.{
  with_metadata-ledger_key, with_metadata-replace_count, fresh-Runs, apply_timeout_policy-Runs,
}
use poma.Reconcile.Runs.{
  At, Ready, Runs, Runs-pure, Runs-bind, Runs-if, settle-Runs, clock-Runs, order_call-Runs,
  store-Runs,
}

module _ {F : Type 0} ⦃f : Float F⦄ where
  resumed_entry-ledger_key :
      (now at ref : String) (fresh : Escalation F) (e : OrderLedgerEntry F)
      (snapshot : OpenOrderSnapshot F)
      → (resumed_entry now at ref fresh e snapshot).ledger_key ≡ e.ledger_key
  unfolding with_snapshot
  resumed_entry-ledger_key now at ref fresh e snapshot = rw with_metadata-ledger_key refl

  resumed_entry-replace_count :
      (now at ref : String) (fresh : Escalation F) (e : OrderLedgerEntry F)
      (snapshot : OpenOrderSnapshot F)
      → (resumed_entry now at ref fresh e snapshot).replace_count ≡ e.replace_count
  unfolding with_snapshot
  resumed_entry-replace_count now at ref fresh e snapshot = rw with_metadata-replace_count refl

module _ {F S W : Type 0} ⦃f : Float F⦄ (br : Broker F W) (l : Ledger F S) (Valid : S → Type 0)
    (k : String) (s : S) (settings : Settings F) (now : String) where
  -- the resumed entry for the caller to write, or none
  abbrev pub ResumedReady : OrderLedgerEntry F → Option (OrderLedgerEntry F) → Desk F S W → Type 0
  ResumedReady e none w = Ready l Valid k s e w
  ResumedReady e (some e') w = Ready l Valid k s e' w

  resubmit-Runs :
      (e : OrderLedgerEntry F) (ref : String)
      (submit : Replacement F → W → Reply (OpenOrderSnapshot F) × W) (fresh : Option (Escalation F))
      → has_fill e ≡ false
      → Runs l Valid k s
          (Ready l Valid k s e)
          (ResumedReady e)
          (resubmit br settings now e ref submit fresh)
  unfolding resubmit
  resubmit-Runs e ref submit none calm = Runs-pure l Valid k s none (λ w h. h)
  resubmit-Runs e ref submit (some fresh) calm =
      Runs-bind l Valid k s (λ _ w. Ready l Valid k s e w)
        (order_call-Runs l Valid k s e (resubmits e (resubmission_of e ref fresh.new_limit))
          (submit (resubmission_of e ref fresh.new_limit)) (λ j. refl) (λ t. calm))
        (λ reply.
          Runs-bind l Valid k s (λ _ w. Ready l Valid k s e w) (settle-Runs l Valid k s e reply)
            (λ snapshot.
              Runs-bind l Valid k s (λ _ w. Ready l Valid k s e w) (clock-Runs l Valid k s e br)
                (λ at.
                  Runs-pure l Valid k s (some (resumed_entry now at ref fresh e snapshot)) (λ w.
                    Ready-same l Valid k s e (resumed_entry now at ref fresh e snapshot) w
                      (resumed_entry-ledger_key now at ref fresh e snapshot)
                      (resumed_entry-replace_count now at ref fresh e snapshot)))))

  resume_by-Runs :
      (e : OrderLedgerEntry F) (ref : String)
      (submit : Option (Replacement F → W → Reply (OpenOrderSnapshot F) × W))
      → has_fill e ≡ false
      → Runs l Valid k s
          (Ready l Valid k s e)
          (ResumedReady e)
          (resume_by br settings now e ref submit)
  unfolding resume_by
  resume_by-Runs e ref none calm = Runs-pure l Valid k s none (λ w h. h)
  resume_by-Runs e ref (some submit) calm =
      Runs-if l Valid k s (remaining_or_rest e ≼ f.dec 1 9)
        (λ _. Runs-pure l Valid k s none (λ w h. h))
        (λ _.
          Runs-if l Valid k s (is_late settings (seconds_since br e.submitted_at now))
            (λ _. Runs-pure l Valid k s none (λ w h. h))
            (λ _.
              Runs-bind l Valid k s (λ _ w. Ready l Valid k s e w)
                (fresh-Runs br l Valid k s settings e)
                (λ fresh. resubmit-Runs e ref submit fresh calm)))

  pub resume_replacement-Runs :
      (e : OrderLedgerEntry F) (ref : String)
      → Runs l Valid k s
          (Ready l Valid k s e)
          (ResumedReady e)
          (resume_replacement br settings now e ref)
  unfolding resume_replacement
  resume_replacement-Runs e ref =
      Runs-if l Valid k s (has_fill e) (λ _. Runs-pure l Valid k s none (λ w h. h))
        (resume_by-Runs e ref br.submit_replacement)

  module _ (laws : LedgerLaws l Valid) where
    pub report-Runs :
        (e : OrderLedgerEntry F) (action : Option String) (matched : Bool)
        → Runs l Valid k s
            (Ready l Valid k s e)
            (λ _ w. At l Valid k s w)
            (report br l settings now e action matched)
    report-Runs e action matched =
        Runs-bind l Valid k s (λ _ w. At l Valid k s w) (store-Runs l Valid k s laws e)
          (λ _. Runs-pure l Valid k s (update_of e action matched) (λ w h. h))

    report_taken-Runs :
        (e : OrderLedgerEntry F) (taken : Taken F)
        → Runs l Valid k s
            (TakenReady l Valid k s e taken)
            (λ _ w. At l Valid k s w)
            (report_taken br l settings now e taken)
    unfolding report_taken
    report_taken-Runs e none = report-Runs e none true
    report_taken-Runs e (some (e', action)) = report-Runs e' (some action) true

    pub follow_up-Runs :
        (e : OrderLedgerEntry F)
        → Runs l Valid k s
            (Ready l Valid k s e)
            (λ _ w. At l Valid k s w)
            (follow_up br l settings now e)
    unfolding follow_up
    follow_up-Runs e =
        Runs-if l Valid k s (has_recovery_mark e) (λ _. report-Runs e none true)
          (λ own.
            Runs-bind l Valid k s (TakenReady l Valid k s e)
              (apply_timeout_policy-Runs br l Valid k s settings laws now e own)
              (report_taken-Runs e))

    pub report_resumed-Runs :
        (e : OrderLedgerEntry F) (resumed : Option (OrderLedgerEntry F))
        (other : Exec (Desk F S W) (ReconcileUpdate F))
        → Runs l Valid k s (Ready l Valid k s e) (λ _ w. At l Valid k s w) other
        → Runs l Valid k s
            (ResumedReady e resumed)
            (λ _ w. At l Valid k s w)
            (report_resumed br l settings now resumed other)
    unfolding report_resumed
    report_resumed-Runs e none other h = h
    report_resumed-Runs e (some e') other h = report-Runs e' (some "replace") true
