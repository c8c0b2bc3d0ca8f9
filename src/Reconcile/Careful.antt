-- ===== src/Reconcile/Careful.antt =====
-- src/poma/execution_manager.py: the calls that reconciliation may make, and how often it replaces.
use poma.Prelude.{
  string_eq, ℕ, ◌+◌, ◌≤◌, true, false, String, Option, none, some, List, [], ◌∷◌, ◌++◌, ◌==◌,
  ==_iff, ◌≡◌, arith, All, All-append, Float, if◌then◌else◌,
}
use poma.Lifecycle.State.{is_working_state}
use poma.Lifecycle.Entry.{OrderLedgerEntry}
use poma.Execution.Ledger.{Ledger, LedgerLaws}
use poma.Reconcile.Desk.{Desk, BrokerCall, cancels, replaces, resubmits}
use poma.Reconcile.Match.{has_recovery_mark}
use poma.Reconcile.Timeouts.{is_unfilled, has_fill, intent_of, replacement_ref}

module _ {F : Type 0} where
  -- how often an entry says that its order was replaced
  abbrev pub count_of : Option (OrderLedgerEntry F) → ℕ
  count_of none = 0
  count_of (some e) = e.replace_count

  -- 1 for a replacement of the order of this key
  abbrev pub replaces_key : String → BrokerCall F → ℕ
  replaces_key k (cancels e) = 0
  replaces_key k (replaces e r) = if e.ledger_key == k then 1 else 0
  replaces_key k (resubmits e r) = 0

module _ {F S : Type 0} where
  -- the number of calls of `replace_order` for a ledger key
  abbrev pub replacements : String → List (BrokerCall F × S) → ℕ
  replacements k [] = 0
  replacements k ((c, s) ∷ calls) = replaces_key k c + replacements k calls

  pub replacements-append :
      (k : String) (calls more : List (BrokerCall F × S))
      → replacements k (calls ++ more) ≡ replacements k calls + replacements k more
  replacements-append k [] more = omega arith
  replacements-append k ((c, s) ∷ calls) more = omega (arith, replacements-append k calls more)

module _ {F S : Type 0} ⦃f : Float F⦄ (l : Ledger F S) where
  -- A cancel and a replace are for a working order without a fill whose terminal reason does not carry the
  -- mark of a rediscovered order at the time of the call; a replace is the first of its order, by the
  -- reference that is reserved for it, and the ledger holds the reservation when the call is made. A
  -- resubmission is for an order whose fill is not above the tolerance.
  abbrev pub IsCareful : BrokerCall F × S → Type 0
  IsCareful (cancels e, s) =
      (is_unfilled e ≡ true)
      × (is_working_state e.lifecycle_state ≡ true)
      × (has_recovery_mark e ≡ false)
  IsCareful (replaces e r, s) =
      (is_unfilled e ≡ true)
      × (is_working_state e.lifecycle_state ≡ true)
      × (has_recovery_mark e ≡ false)
      × (e.replace_count ≡ 0)
      × (r.order_ref ≡ replacement_ref e)
      × (l.latest e.ledger_key s ≡ some (intent_of e))
  IsCareful (resubmits e r, s) = has_fill e ≡ false

module _ {F S W : Type 0} ⦃f : Float F⦄ (l : Ledger F S) (Valid : S → Type 0) where
  -- The invariant of a desk: a valid ledger that counts the replacements, at most one for each key, and
  -- careful calls only.
  pub record IsOnce (w : Desk F S W) : Type 0 where
    pub valid : Valid w.ledger
    pub counted : (k : String) → replacements k w.calls ≤ count_of (l.latest k w.ledger)
    pub few : (k : String) → count_of (l.latest k w.ledger) ≤ 1
    pub careful : All (IsCareful l) w.calls

  -- beside the key, the ledger is as it was
  abbrev pub Frame : String → S → Desk F S W → Type 0
  Frame k s w = (j : String) → (k == j) ≡ false → l.latest j w.ledger ≡ l.latest j s

  -- the entry may be written: it is of the key, and counts no fewer replacements than the ledger
  pub record Fits (k : String) (e : OrderLedgerEntry F) (w : Desk F S W) : Type 0 where
    pub key_eq : e.ledger_key ≡ k
    pub no_fewer : count_of (l.latest k w.ledger) ≤ e.replace_count
    pub at_most_one : e.replace_count ≤ 1

  module _ (laws : LedgerLaws l Valid) (k : String) (s : S) where
    pub store-IsOnce :
        (e : OrderLedgerEntry F) (w : Desk F S W)
        → IsOnce w
        → Fits k e w
        → IsOnce (record w { ledger = l.upsert e w.ledger })
    store-IsOnce e w h fits = record {
      valid = laws.upsert_Valid e w.ledger h.valid;
      counted = λ j. ground (
        arith,
        laws.latest-upsert e j w.ledger h.valid,
        h.counted j,
        ==_iff e.ledger_key j,
        fits.key_eq,
        fits.no_fewer,
      );
      few = λ j. ground (arith, laws.latest-upsert e j w.ledger h.valid, h.few j, fits.at_most_one);
      careful = h.careful;
    }

    pub store-Frame :
        (e : OrderLedgerEntry F) (w : Desk F S W)
        → IsOnce w
        → Fits k e w
        → Frame k s w
        → Frame k s (record w { ledger = l.upsert e w.ledger })
    store-Frame e w h fits frame j other =
        ground (arith, laws.latest-upsert e j w.ledger h.valid, fits.key_eq, frame j)

  -- a call that is careful, and is no replacement
  pub call-IsOnce :
      (c : BrokerCall F) (o : W) (w : Desk F S W)
      → IsOnce w
      → IsCareful l (c, w.ledger)
      → ((j : String) → replacements j w.calls + replaces_key j c ≤ count_of (l.latest j w.ledger))
      → IsOnce (record w { outside = o; calls = w.calls ++ ((c, w.ledger) ∷ []) })
  call-IsOnce c o w h ok counted = record {
    valid = h.valid;
    counted = λ j. omega (arith, replacements-append j w.calls ((c, w.ledger) ∷ []), counted j);
    few = h.few;
    careful = All-append (IsCareful l) w.calls ((c, w.ledger) ∷ []) h.careful (ok, tt);
  }
