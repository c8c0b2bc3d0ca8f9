-- ===== src/Reconcile/Runs.antt =====
-- Hoare triples of reconciliation actions for one ledger key, where an exception keeps the invariant.
use poma.Prelude.{string_eq, Bool, true, false, String, ◌≡◌, refl, arith, Float, if◌then◌else◌}
use poma.Lifecycle.Entry.{OrderLedgerEntry}
use poma.Execution.Ledger.{Ledger, LedgerLaws}
use poma.Execution.World.{Broker, Exec, Reply, ok, raised, pure, raise, ◌>>=◌, handled, catch}
use poma.Reconcile.Desk.{Desk, BrokerCall, query, order_call, settle, clock, store}
use poma.Reconcile.Careful.{
  IsOnce, Frame, Fits, IsCareful, replaces_key, store-IsOnce, store-Frame, call-IsOnce,
}

module _ {F S W : Type 0} ⦃f : Float F⦄ (l : Ledger F S) (Valid : S → Type 0) (k : String)
    (s : S) where
  -- the invariant, with the ledger as it was beside the key
  pub record At (w : Desk F S W) : Type 0 where
    pub once : IsOnce l Valid w
    pub frame : Frame l Valid k s w

  -- and an entry that may be written
  pub record Ready (e : OrderLedgerEntry F) (w : Desk F S W) : Type 0 where
    pub at : At w
    pub fits : Fits l Valid k e w

  abbrev pub Ends : {A : Type 0} → (A → Desk F S W → Type 0) → Reply A × Desk F S W → Type 0
  Ends Q (ok a, w) = Q a w
  Ends Q (raised error, w) = At w

  -- From `P` the action ends in `Q`, or raises and keeps the invariant.
  pub record Runs {A : Type 0} (P : Desk F S W → Type 0) (Q : A → Desk F S W → Type 0)
      (m : Exec (Desk F S W) A) : Type 0 where
    pub run : (w : Desk F S W) → P w → Ends Q (m w)

  pub Runs-pure :
      {A : Type 0} {P : Desk F S W → Type 0} {Q : A → Desk F S W → Type 0} (a : A)
      → ((w : Desk F S W) → P w → Q a w)
      → Runs P Q (pure a)
  Runs-pure a h = record { run = h }

  pub Runs-raise :
      {A : Type 0} {P : Desk F S W → Type 0} (Q : A → Desk F S W → Type 0) (error : String)
      → ((w : Desk F S W) → P w → At w)
      → Runs P Q (raise error)
  Runs-raise Q error h = record { run = h }

  continue-Ends :
      {A B : Type 0} (Q : A → Desk F S W → Type 0) (R : B → Desk F S W → Type 0) (r : Reply A)
      (w : Desk F S W) (n : A → Exec (Desk F S W) B)
      → Ends Q (r, w)
      → ((a : A) → Runs (Q a) R (n a))
      → Ends R (elim r [ ok a ↦ n a w | raised e ↦ raise e w ])
  continue-Ends Q R (ok a) w n h g = (g a).run w h
  continue-Ends Q R (raised e) w n h g = h

  pub Runs-bind :
      {A B : Type 0} {P : Desk F S W → Type 0} (Q : A → Desk F S W → Type 0)
      {R : B → Desk F S W → Type 0} {m : Exec (Desk F S W) A} {n : A → Exec (Desk F S W) B}
      → Runs P Q m
      → ((a : A) → Runs (Q a) R (n a))
      → Runs P R (m >>= n)
  Runs-bind Q {R = R} {m = m} {n = n} h g = record {
    run = λ w p. continue-Ends Q R (m w).0 (m w).1 n (h.run w p) g;
  }

  pub Runs-if :
      {A : Type 0} {P : Desk F S W → Type 0} {Q : A → Desk F S W → Type 0} (b : Bool)
      {m n : Exec (Desk F S W) A}
      → (b ≡ true → Runs P Q m)
      → (b ≡ false → Runs P Q n)
      → Runs P Q (if b then m else n)
  Runs-if true g h = g refl
  Runs-if false g h = h refl

  pub Runs-weaken :
      {A : Type 0} {P P' : Desk F S W → Type 0} {Q : A → Desk F S W → Type 0}
      {m : Exec (Desk F S W) A}
      → ((w : Desk F S W) → P' w → P w)
      → Runs P Q m
      → Runs P' Q m
  Runs-weaken g h = record { run = λ w p. h.run w (g w p) }

  handled-Ends :
      {A : Type 0} (Q : A → Desk F S W → Type 0) (r : Reply A) (w : Desk F S W)
      (handler : String → Exec (Desk F S W) A)
      → Ends Q (r, w)
      → ((error : String) → Runs At Q (handler error))
      → Ends Q (handled r handler w)
  handled-Ends Q (ok a) w handler h g = h
  handled-Ends Q (raised error) w handler h g = (g error).run w h

  pub Runs-catch :
      {A : Type 0} {P : Desk F S W → Type 0} {Q : A → Desk F S W → Type 0} {m : Exec (Desk F S W) A}
      {handler : String → Exec (Desk F S W) A}
      → Runs P Q m
      → ((error : String) → Runs At Q (handler error))
      → Runs P Q (catch m handler)
  Runs-catch {Q = Q} {m = m} {handler = handler} h g = record {
    run = λ w p. handled-Ends Q (m w).0 (m w).1 handler (h.run w p) g;
  }

  -- an action whose every end keeps the invariant
  settled-At : {A : Type 0} (r : Reply A) (w : Desk F S W) → Ends (λ _ w'. At w') (r, w) → At w
  settled-At (ok a) w h = h
  settled-At (raised error) w h = h

  pub Runs-At :
      {A : Type 0} {P : Desk F S W → Type 0} (m : Exec (Desk F S W) A) (w : Desk F S W)
      → Runs P (λ _ w'. At w') m
      → P w
      → At (m w).1
  Runs-At m w h p = settled-At (m w).0 (m w).1 (h.run w p)

  -- a change of the outside world alone
  outside-At : (o : W) (w : Desk F S W) → At w → At (record w { outside = o })
  outside-At o w h = record {
    once = record {
      valid = h.once.valid;
      counted = h.once.counted;
      few = h.once.few;
      careful = h.once.careful;
    };
    frame = h.frame;
  }

  outside-Ready :
      (e : OrderLedgerEntry F) (o : W) (w : Desk F S W)
      → Ready e w
      → Ready e (record w { outside = o })
  outside-Ready e o w h = record {
    at = outside-At o w h.at;
    fits = record {
      key_eq = h.fits.key_eq;
      no_fewer = h.fits.no_fewer;
      at_most_one = h.fits.at_most_one;
    };
  }

  query-Ends :
      {A : Type 0} (e : OrderLedgerEntry F) (r : Reply A) (w : Desk F S W)
      → Ready e w
      → Ends (λ _ w'. Ready e w') (r, w)
  query-Ends e (ok a) w h = h
  query-Ends e (raised error) w h = h.at

  pub query-Runs :
      {A : Type 0} (e : OrderLedgerEntry F) (call : W → Reply A × W)
      → Runs (Ready e) (λ _ w. Ready e w) (query call)
  query-Runs e call = record {
    run = λ w h.
        query-Ends e (call w.outside).0 (record w { outside = (call w.outside).1 })
          (outside-Ready e (call w.outside).1 w h);
  }

  pub settle-Runs :
      {A : Type 0} (e : OrderLedgerEntry F) (r : Reply A)
      → Runs (Ready e) (λ _ w. Ready e w) (settle r)
  settle-Runs e r = record { run = λ w h. query-Ends e r w h }

  pub clock-Runs :
      (e : OrderLedgerEntry F) (br : Broker F W) → Runs (Ready e) (λ _ w. Ready e w) (clock br)
  clock-Runs e br = record { run = λ w h. outside-Ready e (br.utc_now w.outside).1 w h }

  pub store-Runs :
      LedgerLaws l Valid → (e : OrderLedgerEntry F) → Runs (Ready e) (λ _ w. At w) (store l e)
  store-Runs laws e = record {
    run = λ w h. record {
      once = store-IsOnce l Valid laws k s e w h.at.once h.fits;
      frame = store-Frame l Valid laws k s e w h.at.once h.fits h.at.frame;
    };
  }

  -- a careful call that replaces nothing
  pub order_call-Runs :
      {A : Type 0} (e : OrderLedgerEntry F) (c : BrokerCall F) (call : W → A × W)
      → ((j : String) → replaces_key j c ≡ 0)
      → ((t : S) → IsCareful l (c, t))
      → Runs (Ready e) (λ _ w. Ready e w) (order_call c call)
  order_call-Runs e c call none_replaced careful = record {
    run = λ w h. record {
      at = record {
        once =
            call-IsOnce l Valid c (call w.outside).1 w h.at.once (careful w.ledger)
              (λ j. omega (arith, none_replaced j, h.at.once.counted j));
        frame = h.at.frame;
      };
      fits = record {
        key_eq = h.fits.key_eq;
        no_fewer = h.fits.no_fewer;
        at_most_one = h.fits.at_most_one;
      };
    };
  }
