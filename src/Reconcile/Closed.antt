-- ===== src/Reconcile/Closed.antt =====
-- src/poma/execution_manager.py: the orders that the broker reports as ended, over a pass of `reconcile`.
use poma.Prelude.{
  string_eq, nat_eq, Bool, true, false, not, ◌&&◌, String, Option, none, is_set, List, ◌≡◌, ◌⊎◌,
  refl, arith, ap, ◌∙◌, Float, whole, max_float, All, All-map, ==_refl, Bool-cases, inl, inr,
}
use poma.Models.{OpenOrderSnapshot}
use poma.Config.{Settings}
use poma.Lifecycle.State.{OrderLifecycleState, classify_lifecycle, is_terminal_state, is_cancelled}
use poma.Lifecycle.Entry.{OrderLedgerEntry, is_terminal, with_snapshot}
use poma.Execution.Ledger.{Ledger, LedgerLaws, AreLatest}
use poma.Execution.World.{Broker, Reply, ok, raised, pure, catch, ◌>>=◌}
use poma.Store.Lines.{only}
use poma.Reconcile.Desk.{Desk}
use poma.Reconcile.Match.{
  Match, unmatched, as_original, as_replacement, is_unmatched, match_snapshot,
}
use poma.Reconcile.Resume.{switched, adopt_replacement}
use poma.Reconcile.Entry.{
  ReconcileUpdate, without_replacement, is_resumable, reconcile_completed, by_completed, by_open,
  reconcile_entry,
}
use poma.Reconcile.Careful.{IsOnce}
use poma.Reconcile.Passes.{answer, reconcile_all-IsOnce}
use poma.Reconcile.TimedOut.{with_snapshot-ledger_key}
use poma.Reconcile.Sweep.{reconcile_all-All}
use poma.Reconcile.Pass.{
  Evidence, mark_recovered, error_current, reconcile_known, reconcile_one, reconcile_all,
}

module _ {F : Type 0} ⦃f : Float F⦄ where
  -- the state that a report of the broker means
  abbrev pub reported_state : OpenOrderSnapshot F → OrderLifecycleState
  reported_state s = classify_lifecycle s.raw_status s.filled (max_float s.remaining (whole 0))

  -- The report ends the entry: it is of a terminal state, and not of the cancel of an order for which a
  -- replacement is reserved.
  abbrev pub ends : OrderLedgerEntry F → Match F → Bool
  ends e unmatched = false
  ends e (as_replacement s) = is_terminal_state (reported_state s)
  ends e (as_original s) =
      is_terminal_state (reported_state s)
      && not (is_set e.replacement_order_ref && is_cancelled (reported_state s))

  -- no open order is of the entry, and a completed one ends it
  abbrev pub has_ended : Evidence F → OrderLedgerEntry F → Bool
  has_ended ev e =
      is_unmatched (match_snapshot e ev.open_snapshots)
      && ends e (match_snapshot e ev.completed_snapshots)

  with_snapshot-state :
      (at : String) (e : OrderLedgerEntry F) (s : OpenOrderSnapshot F)
      → (with_snapshot at e s).lifecycle_state ≡ reported_state s
  unfolding with_snapshot
  with_snapshot-state at e s = refl

  -- the latest entry of the key is not open
  abbrev pub no_open : Option (OrderLedgerEntry F) → Option (OrderLedgerEntry F)
  no_open o = only (λ e. not (is_terminal e)) o

module _ {F S W : Type 0} ⦃f : Float F⦄ (br : Broker F W) (l : Ledger F S) (Valid : S → Type 0)
    (settings : Settings F) (now : String) (ev : Evidence F) (laws : LedgerLaws l Valid) where
  -- the entry did not end, or its key is not open in this ledger
  abbrev pub IsClosed : S → OrderLedgerEntry F → Type 0
  IsClosed s e = (has_ended ev e ≡ false) ⊎ (l.get e.ledger_key s ≡ none)

  abbrev IsPast : S → OrderLedgerEntry F → Type 0
  IsPast s e = (has_ended ev e ≡ false) ⊎ (no_open (l.latest e.ledger_key s) ≡ none)

  stored-no_open :
      (e closed : OrderLedgerEntry F) (s : S)
      → Valid s
      → closed.ledger_key ≡ e.ledger_key
      → is_terminal closed ≡ true
      → no_open (l.latest e.ledger_key (l.upsert closed s)) ≡ none
  stored-no_open e closed s valid same ended =
      ground
        (arith, laws.latest-upsert closed e.ledger_key s valid, same, ==_refl e.ledger_key, ended)

  by_completed-no_open :
      (e : OrderLedgerEntry F) (o : Match F) (w : Desk F S W)
      → Valid w.ledger
      → ends e o ≡ true
      → no_open (l.latest e.ledger_key (by_completed br l settings now e o w).1.ledger) ≡ none
  unfolding by_completed reconcile_completed adopt_replacement
  by_completed-no_open e unmatched w valid h = ground (arith, h)
  by_completed-no_open e (as_replacement s) w valid h =
      (let at = (br.utc_now w.outside).0 in
        stored-no_open e (with_snapshot at (switched e) s) w.ledger valid
          (with_snapshot-ledger_key at (switched e) s)
          (ground (arith, with_snapshot-state at (switched e) s, h)))
  by_completed-no_open e (as_original s) w valid h =
      (let at = (br.utc_now w.outside).0 in
        let updated = with_snapshot at e s in
        let ended : is_terminal updated ≡ true = ground (arith, with_snapshot-state at e s, h) in
        let plain : is_resumable e updated ≡ false =
          ground (arith, with_snapshot-state at e s, h) in
        rw (ended, plain)
          (stored-no_open e (without_replacement updated) w.ledger valid
            (with_snapshot-ledger_key at e s) ended))

  marked-state :
      (e : OrderLedgerEntry F) (r : Reply (ReconcileUpdate F)) (v : Desk F S W)
      → (catch
          (answer r >>= (λ u. pure (mark_recovered ev.recovered_keys e.ledger_key u)))
          (error_current br l settings now ev e)
          v).1
        ≡ v
  unfolding error_current
  marked-state e (ok u) v = refl
  marked-state e (raised error) v = refl

  -- the ledger after one entry is the one that its step leaves
  reconcile_one-state :
      (e : OrderLedgerEntry F) (w : Desk F S W)
      → ev.history_error ≡ none
      → (reconcile_one br l settings now ev e w).1
        ≡ (reconcile_entry br l settings now ev.open_snapshots ev.completed_snapshots e w).1
  unfolding reconcile_one reconcile_known error_current
  reconcile_one-state e w read = rw read (
      marked-state e
        (reconcile_entry br l settings now ev.open_snapshots ev.completed_snapshots e w).0
        (reconcile_entry br l settings now ev.open_snapshots ev.completed_snapshots e w).1)

  by_open-no_open :
      (e : OrderLedgerEntry F) (o : Match F) (w : Desk F S W)
      → Valid w.ledger
      → (is_unmatched o && ends e (match_snapshot e ev.completed_snapshots)) ≡ true
      → no_open
          (l.latest e.ledger_key (by_open br l settings now e ev.completed_snapshots o w).1.ledger)
        ≡ none
  unfolding by_open
  by_open-no_open e unmatched w valid h =
      by_completed-no_open e (match_snapshot e ev.completed_snapshots) w valid (ground (arith, h))
  by_open-no_open e (as_replacement s) w valid h = ground (arith, h)
  by_open-no_open e (as_original s) w valid h = ground (arith, h)

  reconcile_one-IsPast :
      (e : OrderLedgerEntry F) (w : Desk F S W)
      → ev.history_error ≡ none
      → Valid w.ledger
      → IsPast (reconcile_one br l settings now ev e w).1.ledger e
  unfolding reconcile_entry
  reconcile_one-IsPast e w read valid = elim (Bool-cases (has_ended ev e)) [
    | inr open_still ↦ inl open_still
    | inl ended ↦ inr (
        rw (ap (λ v. v.ledger) (reconcile_one-state e w read))
          (by_open-no_open e (match_snapshot e ev.open_snapshots) w valid ended))
  ]

  move-IsPast :
      (e : OrderLedgerEntry F) (s s' : S)
      → l.latest e.ledger_key s' ≡ l.latest e.ledger_key s
      → IsPast s e
      → IsPast s' e
  move-IsPast e s s' same (inl open_still) = inl open_still
  move-IsPast e s s' same (inr gone) = inr (rw same gone)

  past-IsClosed : (s : S) → Valid s → (e : OrderLedgerEntry F) → IsPast s e → IsClosed s e
  past-IsClosed s valid e (inl open_still) = inl open_still
  past-IsClosed s valid e (inr gone) = inr (laws.get-latest e.ledger_key s valid ∙ gone)

  -- Where the ledger keeps its laws and is valid with at most one counted replacement for each key, and the
  -- completed orders could be fetched, after a pass over the open entries no key is open of an entry that
  -- no open order matches and that matches a completed order of a terminal state, its own or that of its
  -- replacement, unless this is the cancel of an order for which a replacement is reserved; whatever the
  -- broker answers or raises for the other entries.
  pub reconcile_all-IsClosed :
      (es : List (OrderLedgerEntry F)) (w : Desk F S W)
      → IsOnce l Valid w
      → AreLatest (λ j. l.latest j w.ledger) es
      → ev.history_error ≡ none
      → All (IsClosed (reconcile_all br l settings now ev es w).1.ledger) es
  reconcile_all-IsClosed es w h latest read =
      (let end = (reconcile_all br l settings now ev es w).1.ledger in
        All-map (IsPast end) (IsClosed end) es
          (past-IsClosed end
            (reconcile_all-IsOnce br l Valid settings now ev laws es w h latest).valid)
          (reconcile_all-All br l Valid settings now ev laws IsPast
            (λ e v once held. reconcile_one-IsPast e v read once.valid) move-IsPast es w h latest))
