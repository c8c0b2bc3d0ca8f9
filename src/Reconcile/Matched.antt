-- ===== src/Reconcile/Matched.antt =====
-- src/poma/execution_manager.py: `_reconcile_entry` as a triple for one ledger key.
use poma.Prelude.{
  string_eq, true, false, not, ◌&&◌, String, Option, none, some, List, ◌≡◌, refl, Float, is_set,
  or_text, ◌==◌, if◌then◌else◌,
}
use poma.Models.{OpenOrderSnapshot}
use poma.Config.{Settings}
use poma.Lifecycle.State.{is_working_state, is_unknown}
use poma.Lifecycle.Entry.{OrderLedgerEntry, is_terminal, with_snapshot}
use poma.Execution.Ledger.{Ledger, LedgerLaws}
use poma.Execution.World.{Broker, Exec, ◌>>=◌}
use poma.Reconcile.Desk.{Desk, clock}
use poma.Reconcile.Match.{
  Match, unmatched, as_original, as_replacement, match_snapshot, close_unreported_open_entry,
}
use poma.Reconcile.Resume.{adopt_replacement, resume_replacement}
use poma.Reconcile.Entry.{
  ReconcileUpdate, update_of, without_replacement, report, report_resumed, is_resumable,
  reconcile_open, close_unreported, reconcile_completed, by_completed, by_open, reconcile_entry,
}
use poma.Reconcile.Replaced.{Ready-same}
use poma.Reconcile.TimedOut.{with_snapshot-ledger_key, with_snapshot-replace_count}
use poma.Reconcile.Runs.{At, Ready, Runs, Runs-pure, Runs-bind, Runs-if, Runs-weaken, clock-Runs}
use poma.Reconcile.Kept.{
  ResumedReady, report-Runs, follow_up-Runs, report_resumed-Runs, resume_replacement-Runs,
}

module _ {F : Type 0} ⦃f : Float F⦄ where
  adopt_replacement-ledger_key :
      (at : String) (e : OrderLedgerEntry F) (snapshot : OpenOrderSnapshot F)
      → (adopt_replacement at e snapshot).ledger_key ≡ e.ledger_key
  unfolding adopt_replacement with_snapshot
  adopt_replacement-ledger_key at e snapshot = refl

  adopt_replacement-replace_count :
      (at : String) (e : OrderLedgerEntry F) (snapshot : OpenOrderSnapshot F)
      → (adopt_replacement at e snapshot).replace_count ≡ e.replace_count
  unfolding adopt_replacement with_snapshot
  adopt_replacement-replace_count at e snapshot = refl

  close_unreported_open_entry-ledger_key :
      (now : String) (e : OrderLedgerEntry F)
      → (close_unreported_open_entry now e).ledger_key ≡ e.ledger_key
  unfolding close_unreported_open_entry
  close_unreported_open_entry-ledger_key now e = refl

  close_unreported_open_entry-replace_count :
      (now : String) (e : OrderLedgerEntry F)
      → (close_unreported_open_entry now e).replace_count ≡ e.replace_count
  unfolding close_unreported_open_entry
  close_unreported_open_entry-replace_count now e = refl

module _ {F S W : Type 0} ⦃f : Float F⦄ (br : Broker F W) (l : Ledger F S) (Valid : S → Type 0)
    (k : String) (s : S) (settings : Settings F) (now : String) (laws : LedgerLaws l Valid) where
  -- the original is followed up, unless its replacement was resumed
  resume_or-Runs :
      (e updated : OrderLedgerEntry F) (ref : String)
      (other : Exec (Desk F S W) (ReconcileUpdate F))
      → Runs l Valid k s (Ready l Valid k s updated) (λ _ w. At l Valid k s w) other
      → Runs l Valid k s
          (Ready l Valid k s updated)
          (λ _ w. At l Valid k s w)
          (resume_replacement br settings now updated ref
            >>= (λ resumed. report_resumed br l settings now resumed other))
  resume_or-Runs e updated ref other h =
      Runs-bind l Valid k s (ResumedReady br l Valid k s settings now updated)
        (resume_replacement-Runs br l Valid k s settings now updated ref)
        (λ resumed. report_resumed-Runs br l Valid k s settings now laws updated resumed other h)

  -- without its reserved replacement the entry is of the same key and count
  without_replacement-Runs :
      (e : OrderLedgerEntry F) (m : Exec (Desk F S W) (ReconcileUpdate F))
      → Runs l Valid k s (Ready l Valid k s (without_replacement e)) (λ _ w. At l Valid k s w) m
      → Runs l Valid k s (Ready l Valid k s e) (λ _ w. At l Valid k s w) m
  without_replacement-Runs e m h =
      Runs-weaken l Valid k s (λ w. Ready-same l Valid k s e (without_replacement e) w refl refl) h

  reconcile_open-Runs :
      (e updated : OrderLedgerEntry F)
      → Runs l Valid k s
          (Ready l Valid k s updated)
          (λ _ w. At l Valid k s w)
          (reconcile_open br l settings now e updated)
  unfolding reconcile_open
  reconcile_open-Runs e updated =
      (let followed =
          without_replacement-Runs updated _
            (follow_up-Runs br l Valid k s settings now laws (without_replacement updated)) in
        Runs-if l Valid k s (is_resumable e updated)
          (λ _. resume_or-Runs e updated (or_text e.replacement_order_ref "") _ followed)
          (λ _.
            Runs-if l Valid k s
              (is_set e.replacement_order_ref && is_working_state updated.lifecycle_state)
              (λ _. followed) (λ _. follow_up-Runs br l Valid k s settings now laws updated)))

  close_unreported-Runs :
      (e : OrderLedgerEntry F)
      → Runs l Valid k s
          (Ready l Valid k s e)
          (λ _ w. At l Valid k s w)
          (close_unreported br l settings now e)
  unfolding close_unreported
  close_unreported-Runs e =
      Runs-if l Valid k s (is_unknown e.lifecycle_state && e.raw_status == "NotOpenUnverified")
        (λ _. Runs-pure l Valid k s (update_of e none false) (λ w h. h.at))
        (λ _.
          Runs-weaken l Valid k s
            (λ w.
              Ready-same l Valid k s e (close_unreported_open_entry now e) w
                (close_unreported_open_entry-ledger_key now e)
                (close_unreported_open_entry-replace_count now e))
            (report-Runs br l Valid k s settings now laws (close_unreported_open_entry now e) _
              false))

  reconcile_completed-Runs :
      (e updated : OrderLedgerEntry F)
      → updated.ledger_key ≡ e.ledger_key
      → updated.replace_count ≡ e.replace_count
      → Runs l Valid k s
          (Ready l Valid k s e)
          (λ _ w. At l Valid k s w)
          (reconcile_completed br l settings now e updated)
  unfolding reconcile_completed
  reconcile_completed-Runs e updated same_key same_count =
      (let closed = without_replacement-Runs updated _ (
          report-Runs br l Valid k s settings now laws (without_replacement updated) (some "closed")
            true) in
        let follows : (w : Desk F S W) → Ready l Valid k s e w → Ready l Valid k s updated w =
          λ w. Ready-same l Valid k s e updated w same_key same_count in
        Runs-if l Valid k s (not (is_terminal updated)) (λ _. close_unreported-Runs e)
          (λ _. Runs-weaken l Valid k s follows (
            Runs-if l Valid k s (is_resumable e updated)
              (λ _. resume_or-Runs e updated (or_text e.replacement_order_ref "") _ closed)
              (λ _. closed))))

  -- the time of a snapshot, and the rest with the entry that the snapshot updates
  clocked-Runs :
      (e : OrderLedgerEntry F) (next : String → Exec (Desk F S W) (ReconcileUpdate F))
      → ((at : String) → Runs l Valid k s (Ready l Valid k s e) (λ _ w. At l Valid k s w) (next at))
      → Runs l Valid k s (Ready l Valid k s e) (λ _ w. At l Valid k s w) (clock br >>= next)
  clocked-Runs e next h =
      Runs-bind l Valid k s (λ _ w. Ready l Valid k s e w) (clock-Runs l Valid k s e br) h

  adopted-Runs :
      (e : OrderLedgerEntry F) (snapshot : OpenOrderSnapshot F) (at : String)
      (action : Option String)
      → Runs l Valid k s
          (Ready l Valid k s e)
          (λ _ w. At l Valid k s w)
          (report br l settings now (adopt_replacement at e snapshot) action true)
  adopted-Runs e snapshot at action =
      Runs-weaken l Valid k s
        (λ w.
          Ready-same l Valid k s e (adopt_replacement at e snapshot) w
            (adopt_replacement-ledger_key at e snapshot)
            (adopt_replacement-replace_count at e snapshot))
        (report-Runs br l Valid k s settings now laws (adopt_replacement at e snapshot) action true)

  by_completed-Runs :
      (e : OrderLedgerEntry F) (m : Match F)
      → Runs l Valid k s
          (Ready l Valid k s e)
          (λ _ w. At l Valid k s w)
          (by_completed br l settings now e m)
  unfolding by_completed
  by_completed-Runs e unmatched = close_unreported-Runs e
  by_completed-Runs e (as_replacement snapshot) = clocked-Runs e _ (λ at.
      adopted-Runs e snapshot at
        (some (if is_terminal (adopt_replacement at e snapshot) then "closed" else "replace")))
  by_completed-Runs e (as_original snapshot) = clocked-Runs e _ (λ at.
      reconcile_completed-Runs e (with_snapshot at e snapshot)
        (with_snapshot-ledger_key at e snapshot) (with_snapshot-replace_count at e snapshot))

  by_open-Runs :
      (e : OrderLedgerEntry F) (completed : List (OpenOrderSnapshot F)) (m : Match F)
      → Runs l Valid k s
          (Ready l Valid k s e)
          (λ _ w. At l Valid k s w)
          (by_open br l settings now e completed m)
  unfolding by_open
  by_open-Runs e completed unmatched = by_completed-Runs e (match_snapshot e completed)
  by_open-Runs e completed (as_replacement snapshot) =
      clocked-Runs e _ (λ at. adopted-Runs e snapshot at (some "replace"))
  by_open-Runs e completed (as_original snapshot) = clocked-Runs e _ (λ at.
      Runs-weaken l Valid k s
        (λ w.
          Ready-same l Valid k s e (with_snapshot at e snapshot) w
            (with_snapshot-ledger_key at e snapshot) (with_snapshot-replace_count at e snapshot))
        (reconcile_open-Runs e (with_snapshot at e snapshot)))

  pub reconcile_entry-Runs :
      (open_snapshots completed : List (OpenOrderSnapshot F)) (e : OrderLedgerEntry F)
      → Runs l Valid k s
          (Ready l Valid k s e)
          (λ _ w. At l Valid k s w)
          (reconcile_entry br l settings now open_snapshots completed e)
  unfolding reconcile_entry
  reconcile_entry-Runs open_snapshots completed e =
      by_open-Runs e completed (match_snapshot e open_snapshots)
