-- ===== src/Reconcile/FailClosed.antt =====
-- src/poma/execution_manager.py: what a pass of `reconcile` reports and keeps when calls of the broker
-- fail.
use poma.Prelude.{
  string_eq, nat_eq, ℕ, true, false, String, Option, none, some, is_some, List, [], ◌∷◌, ◌≡◌, refl,
  arith, Float, All, length, Bool-cases, inl, inr, ◌⊎◌, suc,
}
use poma.Config.{Settings}
use poma.Lifecycle.Entry.{OrderLedgerEntry}
use poma.Execution.Ledger.{Ledger, LedgerLaws, AreLatest}
use poma.Execution.World.{Broker, Exec, Reply, ok, raised, pure, ◌>>=◌}
use poma.Reconcile.Desk.{Desk}
use poma.Reconcile.Match.{is_unmatched, match_snapshot}
use poma.Reconcile.Entry.{ReconcileUpdate}
use poma.Reconcile.Pass.{Evidence, reconcile_one, reconcile_all}
use poma.Reconcile.Careful.{IsOnce}
use poma.Reconcile.Passes.{answer}
use poma.Reconcile.Sweep.{returns, reconcile_one-returns, reconcile_all-All}

-- how many updates a pass reports, where it does not raise
abbrev pub answered : {A : Type 0} → Reply (List A) → Option ℕ
answered (ok us) = some (length us)
answered (raised error) = none

module _ {F S W : Type 0} ⦃f : Float F⦄ (br : Broker F W) (l : Ledger F S) (settings : Settings F)
    (now : String) (ev : Evidence F) where
  cons-answered :
      (r : Reply (List (ReconcileUpdate F))) (w : Desk F S W) (u : ReconcileUpdate F) (n : ℕ)
      → answered r ≡ some n
      → answered ((answer r >>= (λ us. pure (u ∷ us))) w).0 ≡ some (suc n)
  cons-answered (ok us) w u n h = ground (arith, h)
  cons-answered (raised error) w u n h = ground (arith, h)

  then-answered :
      (r : Reply (ReconcileUpdate F)) (w : Desk F S W) (n : ℕ)
      (rest : Exec (Desk F S W) (List (ReconcileUpdate F)))
      → returns r ≡ true
      → answered (rest w).0 ≡ some n
      → answered ((answer r >>= (λ u. rest >>= (λ us. pure (u ∷ us)))) w).0 ≡ some (suc n)
  then-answered (ok u) w n rest h g = cons-answered (rest w).0 (rest w).1 u n g
  then-answered (raised error) w n rest h g = ground (arith, h)

  -- A pass over the open entries never raises, and reports one update for each entry, whatever the
  -- broker answers or raises.
  pub reconcile_all-answered :
      (es : List (OrderLedgerEntry F)) (w : Desk F S W)
      → answered (reconcile_all br l settings now ev es w).0 ≡ some (length es)
  unfolding reconcile_all
  reconcile_all-answered [] w = refl
  reconcile_all-answered (e ∷ es) w =
      then-answered (reconcile_one br l settings now ev e w).0
        (reconcile_one br l settings now ev e w).1 (length es)
        (reconcile_all br l settings now ev es) (reconcile_one-returns br l settings now ev e w)
        (reconcile_all-answered es (reconcile_one br l settings now ev e w).1)

module _ {F S W : Type 0} ⦃f : Float F⦄ (br : Broker F W) (l : Ledger F S) (Valid : S → Type 0)
    (settings : Settings F) (now : String) (ev : Evidence F) (laws : LedgerLaws l Valid) where
  -- the entry was matched with an open order, or is the latest of its key in this ledger
  abbrev pub IsKept : S → OrderLedgerEntry F → Type 0
  IsKept s e =
      (is_unmatched (match_snapshot e ev.open_snapshots) ≡ false)
      ⊎ (l.latest e.ledger_key s ≡ some e)

  -- without a history an entry that is not matched is left as it is
  reconcile_one-unmatched :
      (e : OrderLedgerEntry F) (w : Desk F S W)
      → is_some ev.history_error ≡ true
      → is_unmatched (match_snapshot e ev.open_snapshots) ≡ true
      → (reconcile_one br l settings now ev e w).1.ledger ≡ w.ledger
  unfolding reconcile_one
  reconcile_one-unmatched e w failed unmatched = ground (arith, failed, unmatched)

  -- the entry in hand after its own step
  reconcile_one-IsKept :
      (e : OrderLedgerEntry F) (w : Desk F S W)
      → is_some ev.history_error ≡ true
      → l.latest e.ledger_key w.ledger ≡ some e
      → IsKept (reconcile_one br l settings now ev e w).1.ledger e
  reconcile_one-IsKept e w failed held =
      elim (Bool-cases (is_unmatched (match_snapshot e ev.open_snapshots))) [
        | inl unmatched ↦ inr (ground (arith, reconcile_one-unmatched e w failed unmatched, held))
        | inr matched ↦ inl matched
      ]

  move-IsKept :
      (e : OrderLedgerEntry F) (s s' : S)
      → l.latest e.ledger_key s' ≡ l.latest e.ledger_key s
      → IsKept s e
      → IsKept s' e
  move-IsKept e s s' same (inl matched) = inl matched
  move-IsKept e s s' same (inr held) = inr (ground (arith, same, held))

  -- Where the ledger keeps its laws and is valid with at most one counted replacement for each key, and
  -- the completed orders could not be fetched, a pass over the open entries leaves every entry that no
  -- open order matches as the latest of its key, unchanged.
  pub reconcile_all-IsKept :
      (es : List (OrderLedgerEntry F)) (w : Desk F S W)
      → IsOnce l Valid w
      → AreLatest (λ j. l.latest j w.ledger) es
      → is_some ev.history_error ≡ true
      → All (IsKept (reconcile_all br l settings now ev es w).1.ledger) es
  reconcile_all-IsKept es w h latest failed =
      reconcile_all-All br l Valid settings now ev laws IsKept
        (λ e v once held. reconcile_one-IsKept e v failed held) move-IsKept es w h latest
