-- ===== src/Reconcile/Replaced.antt =====
-- src/poma/execution_manager.py: `_apply_timeout_policy` as a triple for one ledger key.
use poma.Prelude.{
  string_eq, nat_eq, ◌+◌, ◌≤◌, true, false, String, none, some, ◌≡◌, refl, arith, Float, Bool-cases,
  inl, inr, ==_iff, ==_refl, ◌==◌, if◌then◌else◌,
}
use poma.Lifecycle.State.{is_working_state}
use poma.Lifecycle.Entry.{OrderLedgerEntry}
use poma.Execution.Ledger.{Ledger, LedgerLaws}
use poma.Execution.World.{Exec, ◌>>=◌}
use poma.Reconcile.Desk.{Desk, replaces, order_call, store}
use poma.Reconcile.Match.{has_recovery_mark}
use poma.Reconcile.Timeouts.{is_unfilled, intent_of, replacement_of, Taken}
use poma.Reconcile.Careful.{
  IsOnce, Fits, count_of, replacements, store-IsOnce, store-Frame, call-IsOnce,
}
use poma.Reconcile.Runs.{Ready, Runs, Runs-bind}

module _ {F S W : Type 0} ⦃f : Float F⦄ (l : Ledger F S) (Valid : S → Type 0) (k : String)
    (s : S) where
  -- another entry of the key with the same count
  pub Ready-same :
      (e e' : OrderLedgerEntry F) (w : Desk F S W)
      → e'.ledger_key ≡ e.ledger_key
      → e'.replace_count ≡ e.replace_count
      → Ready l Valid k s e w
      → Ready l Valid k s e' w
  Ready-same e e' w same_key same_count h = record {
    at = h.at;
    fits = record {
      key_eq = ground (arith, same_key, h.fits.key_eq);
      no_fewer = ground (arith, same_count, h.fits.no_fewer);
      at_most_one = ground (arith, same_count, h.fits.at_most_one);
    };
  }

  -- a result for the caller to write, or none
  abbrev pub TakenReady : OrderLedgerEntry F → Taken F → Desk F S W → Type 0
  TakenReady e none w = Ready l Valid k s e w
  TakenReady e (some (e', action)) w = Ready l Valid k s e' w

  -- the reservation is durable, and no order of the key was replaced
  pub record Reserved (e : OrderLedgerEntry F) (w : Desk F S W) : Type 0 where
    pub ready : Ready l Valid k s (intent_of e) w
    pub held : l.latest e.ledger_key w.ledger ≡ some (intent_of e)
    pub none_replaced : replacements k w.calls ≤ 0

  -- the ledger holds the entry that was stored last
  latest-store :
      LedgerLaws l Valid
      → (e : OrderLedgerEntry F) (w : Desk F S W) → IsOnce l Valid w
      → l.latest e.ledger_key (l.upsert e w.ledger) ≡ some e
  latest-store laws e w h =
      ground (arith, laws.latest-upsert e e.ledger_key w.ledger h.valid, ==_refl e.ledger_key)

  store-Reserved :
      LedgerLaws l Valid
      → (e : OrderLedgerEntry F) → e.replace_count ≡ 0
      → Runs l Valid k s (Ready l Valid k s e) (λ _ w. Reserved e w) (store l (intent_of e))
  store-Reserved laws e first = record {
    run = λ w h.
        (let fits : Fits l Valid k (intent_of e) w = record {
          key_eq = h.fits.key_eq;
          no_fewer = omega (arith, h.fits.no_fewer);
          at_most_one = omega (arith, first);
        } in
          let held = latest-store laws (intent_of e) w h.at.once in
          record {
            ready = record {
              at = record {
                once = store-IsOnce l Valid laws k s (intent_of e) w h.at.once fits;
                frame = store-Frame l Valid laws k s (intent_of e) w h.at.once fits h.at.frame;
              };
              fits = record {
                key_eq = h.fits.key_eq;
                no_fewer =
                    ground
                      (arith, held, h.fits.key_eq, latest-store laws (intent_of e) w h.at.once);
                at_most_one = fits.at_most_one;
              };
            };
            held = held;
            none_replaced = ground (arith, h.at.once.counted k, h.fits.no_fewer, first);
          });
  }

  -- the reservation counts the replacement that is about to be made
  replacements-le :
      (e : OrderLedgerEntry F) (w : Desk F S W) (j : String)
      → Reserved e w
      → replacements j w.calls + (if e.ledger_key == j then 1 else 0)
        ≤ count_of (l.latest j w.ledger)
  replacements-le e w j h = elim (Bool-cases (e.ledger_key == j)) [
    | inl own ↦
        (let same : e.ledger_key ≡ j = (==_iff e.ledger_key j).0 own in
          let key_eq : e.ledger_key ≡ k = h.ready.fits.key_eq in
          ground (arith, own, h.held, h.none_replaced, same, key_eq))
    | inr other ↦ ground (arith, other, h.ready.at.once.counted j)
  ]

  order-Reserved :
      {A : Type 0} (e : OrderLedgerEntry F) (limit : F) (call : W → A × W)
      → is_unfilled e ≡ true
      → is_working_state e.lifecycle_state ≡ true
      → has_recovery_mark e ≡ false
      → e.replace_count ≡ 0
      → Runs l Valid k s
          (Reserved e)
          (λ _ w. Ready l Valid k s (intent_of e) w)
          (order_call (replaces e (replacement_of e limit)) call)
  order-Reserved e limit call unfilled working own first = record {
    run = λ w h. record {
      at = record {
        once =
            call-IsOnce l Valid (replaces e (replacement_of e limit)) (call w.outside).1 w
              h.ready.at.once (unfilled, working, own, first, refl, h.held)
              (λ j. replacements-le e w j h);
        frame = h.ready.at.frame;
      };
      fits = record {
        key_eq = h.ready.fits.key_eq;
        no_fewer = h.ready.fits.no_fewer;
        at_most_one = h.ready.fits.at_most_one;
      };
    };
  }

  -- `replace_order` behind its reservation
  pub reserved_replace-Runs :
      {A : Type 0} (laws : LedgerLaws l Valid) (e : OrderLedgerEntry F) (limit : F)
      (call : W → A × W)
      → is_unfilled e ≡ true
      → is_working_state e.lifecycle_state ≡ true
      → has_recovery_mark e ≡ false
      → e.replace_count ≡ 0
      → {B : Type 0} (Q : B → Desk F S W → Type 0) (next : A → Exec (Desk F S W) B)
      → ((a : A) → Runs l Valid k s (Ready l Valid k s (intent_of e)) Q (next a))
      → Runs l Valid k s (Ready l Valid k s e) Q (
          store l (intent_of e)
          >>= (λ _. order_call (replaces e (replacement_of e limit)) call >>= next))
  reserved_replace-Runs laws e limit call unfilled working own first Q next h =
      Runs-bind l Valid k s (λ _ w. Reserved e w) (store-Reserved laws e first)
        (λ _.
          Runs-bind l Valid k s (λ _ w. Ready l Valid k s (intent_of e) w)
            (order-Reserved e limit call unfilled working own first) h)
