-- ===== src/Reconcile/Sweep.antt =====
-- src/poma/execution_manager.py: the loop of `reconcile` as a sweep, in which what one step does to its own
-- entry lasts to the end.
use poma.Prelude.{
  string_eq, nat_eq, Bool, true, false, ◌&&◌, String, some, is_some, List, [], ◌∷◌, ◌≡◌, refl,
  arith, Float, All, Bool-cases, inl, inr, ==_refl, ==_iff, ◌==◌,
}
use poma.Config.{Settings}
use poma.Lifecycle.Entry.{OrderLedgerEntry}
use poma.Execution.Ledger.{Ledger, LedgerLaws, AreLatest}
use poma.Execution.World.{Broker, Exec, Reply, ok, raised, pure, handled, ◌>>=◌}
use poma.Reconcile.Desk.{Desk}
use poma.Reconcile.Match.{is_unmatched, match_snapshot}
use poma.Reconcile.Entry.{ReconcileUpdate}
use poma.Reconcile.Pass.{Evidence, error_current, reconcile_known, reconcile_one, reconcile_all}
use poma.Reconcile.Careful.{IsOnce}
use poma.Reconcile.Passes.{continue_with, answer, reconcile_one-At, AreLatest-frame}

abbrev pub returns : {A : Type 0} → Reply A → Bool
returns (ok a) = true
returns (raised error) = false

module _ {St : Type 0} where
  -- what the second action leaves is what both leave, where the first returns
  continue_ok :
      {A B : Type 0} (P : St → Type 0) (r : Reply A) (w : St) (next : A → Exec St B)
      → returns r ≡ true
      → ((a : A) → P (next a w).1)
      → P ((answer r >>= next) w).1
  continue_ok P (ok a) w next h g = g a
  continue_ok P (raised error) w next h g = cc

module _ {F S W : Type 0} ⦃f : Float F⦄ (br : Broker F W) (l : Ledger F S) (settings : Settings F)
    (now : String) (ev : Evidence F) where
  handled-returns :
      (e : OrderLedgerEntry F) (r : Reply (ReconcileUpdate F)) (w : Desk F S W)
      → returns (handled r (error_current br l settings now ev e) w).0 ≡ true
  unfolding error_current
  handled-returns e (ok u) w = refl
  handled-returns e (raised error) w = refl

  pub reconcile_one-returns :
      (e : OrderLedgerEntry F) (w : Desk F S W)
      → returns (reconcile_one br l settings now ev e w).0 ≡ true
  unfolding reconcile_one
  reconcile_one-returns e w =
      elim (Bool-cases
        (is_some ev.history_error && is_unmatched (match_snapshot e ev.open_snapshots))) [
          | inl unknown_yet ↦ ground (arith, unknown_yet)
          | inr known ↦ ground (
            arith,
            known,
            handled-returns e (reconcile_known br l settings now ev e w).0
                (reconcile_known br l settings now ev e w).1,
          )
        ]

module _ {F S W : Type 0} ⦃f : Float F⦄ (br : Broker F W) (l : Ledger F S) (Valid : S → Type 0)
    (settings : Settings F) (now : String) (ev : Evidence F) (laws : LedgerLaws l Valid) where
  -- a pass leaves the keys of other entries alone
  reconcile_all-frame :
      (k : String) (es : List (OrderLedgerEntry F)) (w : Desk F S W)
      → IsOnce l Valid w
      → AreLatest (λ j. l.latest j w.ledger) es
      → All (λ x. (k == x.ledger_key) ≡ false) es
      → l.latest k (reconcile_all br l settings now ev es w).1.ledger ≡ l.latest k w.ledger
  unfolding reconcile_all
  reconcile_all-frame k [] w h latest others = refl
  reconcile_all-frame k (e ∷ es) w h (held, apart, latest) (other, others) =
      (let first = reconcile_one-At br l Valid settings now ev laws e w h held in
        let w' = (reconcile_one br l settings now ev e w).1 in
        let kept : l.latest k w'.ledger ≡ l.latest k w.ledger =
          first.frame k (ground (arith, other, ==_iff e.ledger_key k, ==_refl k)) in
        let P : Desk F S W → Type 0 = λ x. l.latest k x.ledger ≡ l.latest k w.ledger in
        continue_with P (reconcile_one br l settings now ev e w).0 w'
          (λ u. reconcile_all br l settings now ev es >>= (λ us. pure (u ∷ us))) kept
          (λ u.
            (let rest =
                reconcile_all-frame k es w' first.once
                  (AreLatest-frame br l Valid settings now ev laws e.ledger_key w.ledger w'.ledger
                    es first.frame apart latest)
                  others in
              let done : l.latest k (reconcile_all br l settings now ev es w').1.ledger
                  ≡ l.latest k w.ledger =
                ground (arith, rest, kept) in
              continue_with P (reconcile_all br l settings now ev es w').0
                (reconcile_all br l settings now ev es w').1 (λ us. pure (u ∷ us)) done
                (λ us. done))))

  module _ (Q : S → OrderLedgerEntry F → Type 0)
      (own : (e : OrderLedgerEntry F) (w : Desk F S W)
        → IsOnce l Valid w
        → l.latest e.ledger_key w.ledger ≡ some e
        → Q (reconcile_one br l settings now ev e w).1.ledger e)
      (move : (e : OrderLedgerEntry F) (s s' : S)
        → l.latest e.ledger_key s' ≡ l.latest e.ledger_key s
        → Q s e
        → Q s' e) where
    -- what a step does to its own entry, and what depends on the latest entry of its key alone, holds for
    -- all entries at the end of the pass
    pub reconcile_all-All :
        (es : List (OrderLedgerEntry F)) (w : Desk F S W)
        → IsOnce l Valid w
        → AreLatest (λ j. l.latest j w.ledger) es
        → All (Q (reconcile_all br l settings now ev es w).1.ledger) es
    unfolding reconcile_all
    reconcile_all-All [] w h latest = tt
    reconcile_all-All (e ∷ es) w h (held, apart, latest) =
        (let first = reconcile_one-At br l Valid settings now ev laws e w h held in
          let w' = (reconcile_one br l settings now ev e w).1 in
          let later =
            AreLatest-frame br l Valid settings now ev laws e.ledger_key w.ledger w'.ledger es
              first.frame apart latest in
          let P : Desk F S W → Type 0 = λ x. All (Q x.ledger) (e ∷ es) in
          let done : P (reconcile_all br l settings now ev es w').1 = (
            move e w'.ledger (reconcile_all br l settings now ev es w').1.ledger
                (reconcile_all-frame e.ledger_key es w' first.once later apart) (own e w h held),
            reconcile_all-All es w' first.once later,
          ) in
          continue_ok P (reconcile_one br l settings now ev e w).0 w'
            (λ u. reconcile_all br l settings now ev es >>= (λ us. pure (u ∷ us)))
            (reconcile_one-returns br l settings now ev e w)
            (λ u.
              continue_with P (reconcile_all br l settings now ev es w').0
                (reconcile_all br l settings now ev es w').1 (λ us. pure (u ∷ us)) done
                (λ us. done)))
