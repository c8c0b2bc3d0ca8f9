-- ===== src/Reconcile/Passes.antt =====
-- src/poma/execution_manager.py: the loop of `reconcile`, and any number of passes over one ledger.
use poma.Prelude.{
  string_eq, nat_eq, false, ◌&&◌, String, some, is_some, List, [], ◌∷◌, ◌≡◌, refl, arith, Float,
  All, ◌==◌,
}
use poma.Config.{Settings}
use poma.Lifecycle.Entry.{OrderLedgerEntry}
use poma.Execution.Ledger.{Ledger, LedgerLaws, AreLatest}
use poma.Execution.World.{Broker, Exec, Reply, ok, raised, pure, ◌>>=◌}
use poma.Reconcile.Desk.{Desk}
use poma.Reconcile.Match.{is_unmatched, match_snapshot}
use poma.Reconcile.Pass.{Evidence, error_current, reconcile_known, reconcile_one, reconcile_all}
use poma.Reconcile.Careful.{IsOnce}
use poma.Reconcile.Runs.{At, Ready, Runs, Runs-pure, Runs-bind, Runs-if, Runs-catch, Runs-At}
use poma.Reconcile.Matched.{reconcile_entry-Runs}

module _ {St : Type 0} where
  abbrev pub answer : {A : Type 0} → Reply A → Exec St A
  answer r w = (r, w)

  -- what holds after the first action, and is kept by the second, holds after both
  pub continue_with :
      {A B : Type 0} (P : St → Type 0) (r : Reply A) (w : St) (next : A → Exec St B)
      → P w
      → ((a : A) → P (next a w).1)
      → P ((answer r >>= next) w).1
  continue_with P (ok a) w next h g = g a
  continue_with P (raised error) w next h g = h

module _ {F S W : Type 0} ⦃f : Float F⦄ (br : Broker F W) (l : Ledger F S) (Valid : S → Type 0)
    (settings : Settings F) (now : String) (ev : Evidence F) (laws : LedgerLaws l Valid) where
  reconcile_one-Runs :
      (k : String) (s : S) (e : OrderLedgerEntry F)
      → Runs l Valid k s
          (Ready l Valid k s e)
          (λ _ w. At l Valid k s w)
          (reconcile_one br l settings now ev e)
  unfolding reconcile_one reconcile_known error_current
  reconcile_one-Runs k s e =
      Runs-if l Valid k s
        (is_some ev.history_error && is_unmatched (match_snapshot e ev.open_snapshots))
        (λ _. Runs-pure l Valid k s _ (λ w h. h.at))
        (λ _.
          Runs-catch l Valid k s
            (Runs-bind l Valid k s (λ _ w. At l Valid k s w)
              (reconcile_entry-Runs br l Valid k s settings now laws ev.open_snapshots
                ev.completed_snapshots e)
              (λ u. Runs-pure l Valid k s _ (λ w h. h)))
            (λ error. record { run = λ w h. h }))

  -- an entry that is the latest of its key
  pub reconcile_one-At :
      (e : OrderLedgerEntry F) (w : Desk F S W)
      → IsOnce l Valid w
      → l.latest e.ledger_key w.ledger ≡ some e
      → At l Valid e.ledger_key w.ledger (reconcile_one br l settings now ev e w).1
  reconcile_one-At e w h held =
      Runs-At l Valid e.ledger_key w.ledger (reconcile_one br l settings now ev e) w
        (reconcile_one-Runs e.ledger_key w.ledger e)
        (record {
          at = record { once = h; frame = λ j other. refl };
          fits = record {
            key_eq = refl;
            no_fewer = ground (arith, held);
            at_most_one = ground (arith, held, h.few e.ledger_key);
          };
        })

  -- the entries that are still to be reconciled stay the latest ones
  pub AreLatest-frame :
      (k : String) (s s' : S) (es : List (OrderLedgerEntry F))
      → ((j : String) → (k == j) ≡ false → l.latest j s' ≡ l.latest j s)
      → All (λ x. (k == x.ledger_key) ≡ false) es
      → AreLatest (λ j. l.latest j s) es
      → AreLatest (λ j. l.latest j s') es
  AreLatest-frame k s s' [] frame others h = tt
  AreLatest-frame k s s' (e ∷ es) frame (other, others) (held, apart, h) = (
    ground (arith, frame e.ledger_key other, held),
    apart,
    AreLatest-frame k s s' es frame others h,
  )

  -- a pass over entries that are the latest ones
  pub reconcile_all-IsOnce :
      (es : List (OrderLedgerEntry F)) (w : Desk F S W)
      → IsOnce l Valid w
      → AreLatest (λ j. l.latest j w.ledger) es
      → IsOnce l Valid (reconcile_all br l settings now ev es w).1
  unfolding reconcile_all
  reconcile_all-IsOnce [] w h latest = h
  reconcile_all-IsOnce (e ∷ es) w h (held, apart, latest) =
      (let first = reconcile_one-At e w h held in
        let w' = (reconcile_one br l settings now ev e w).1 in
        continue_with (IsOnce l Valid) (reconcile_one br l settings now ev e w).0 w'
          (λ u. reconcile_all br l settings now ev es >>= (λ us. pure (u ∷ us))) first.once
          (λ u.
            (let rest =
                reconcile_all-IsOnce es w' first.once
                  (AreLatest-frame e.ledger_key w.ledger w'.ledger es first.frame apart latest) in
              continue_with (IsOnce l Valid) (reconcile_all br l settings now ev es w').0
                (reconcile_all br l settings now ev es w').1 (λ us. pure (u ∷ us)) rest
                (λ us. rest))))
