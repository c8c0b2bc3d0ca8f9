-- ===== src/Reconcile/Worked.antt =====
-- src/poma/execution_manager.py: the ledger over any number of passes of `reconcile`, with what other
-- methods record and what happens at the broker between them.
use poma.Prelude.{string_eq, ◌≤◌, String, [], refl, arith, Float, All}
use poma.Config.{Settings}
use poma.Lifecycle.Entry.{OrderLedgerEntry}
use poma.Execution.Ledger.{Ledger, LedgerLaws}
use poma.Execution.World.{Broker}
use poma.Reconcile.Desk.{Desk}
use poma.Reconcile.Pass.{Evidence, reconcile_all}
use poma.Reconcile.Careful.{IsOnce, IsCareful, count_of, replacements, store-IsOnce}
use poma.Reconcile.Passes.{reconcile_all-IsOnce}

module _ {F S W : Type 0} ⦃f : Float F⦄ (l : Ledger F S) (Valid : S → Type 0) where
  -- The desks that are reached from a valid ledger: by a pass with any broker, settings, time and
  -- evidence, by anything that happens outside, and by an entry that another method records, which counts
  -- no fewer replacements than the ledger and at most one.
  pub data Worked : Desk F S W → Type 0 where
    opened :
        (s : S) (o : W)
        → Valid s
        → ((k : String) → count_of (l.latest k s) ≤ 1)
        → Worked (record { ledger = s; outside = o; calls = [] })
    passed :
        (br : Broker F W) (settings : Settings F) (now : String) (ev : Evidence F) (w : Desk F S W)
        → Worked w
        → Worked (reconcile_all br l settings now ev (l.load_open_orders w.ledger) w).1
    elsewhere : (o : W) (w : Desk F S W) → Worked w → Worked (record w { outside = o })
    recorded :
        (e : OrderLedgerEntry F) (w : Desk F S W)
        → count_of (l.latest e.ledger_key w.ledger) ≤ e.replace_count
        → e.replace_count ≤ 1
        → Worked w
        → Worked (record w { ledger = l.upsert e w.ledger })

  module _ (laws : LedgerLaws l Valid) where
    pub Worked-IsOnce : (w : Desk F S W) → Worked w → IsOnce l Valid w
    Worked-IsOnce w (opened s o valid few) = record {
      valid = valid;
      counted = λ k. omega arith;
      few = few;
      careful = tt;
    }
    Worked-IsOnce w (passed br settings now ev w' h) =
        (let once = Worked-IsOnce w' h in
          reconcile_all-IsOnce br l Valid settings now ev laws (l.load_open_orders w'.ledger) w'
            once (laws.load_open_orders-AreLatest w'.ledger once.valid))
    Worked-IsOnce w (elsewhere o w' h) =
        (let once = Worked-IsOnce w' h in
          record {
            valid = once.valid;
            counted = once.counted;
            few = once.few;
            careful = once.careful;
          })
    Worked-IsOnce w (recorded e w' no_fewer at_most_one h) =
        store-IsOnce l Valid laws e.ledger_key w'.ledger e w' (Worked-IsOnce w' h)
          (record { key_eq = refl; no_fewer = no_fewer; at_most_one = at_most_one })

    -- Where the ledger keeps its laws, any number of passes over the open orders of a ledger that starts
    -- valid and counts at most one replacement for each order replaces each order at most once, whatever
    -- the broker answers or raises, and between the passes other methods may record entries that count no
    -- fewer replacements and at most one. Each cancel and replace is made for a working order whose fill is
    -- at most the tolerance and whose terminal reason, at the time of the call, does not carry the mark of
    -- a rediscovered order; each replace has its reservation in the ledger; and each order is resubmitted
    -- only while its fill is not above the tolerance.
    pub Worked-replacements :
        (w : Desk F S W) (k : String)
        → Worked w
        → (replacements k w.calls ≤ 1) × All (IsCareful l) w.calls
    Worked-replacements w k h =
        (let once = Worked-IsOnce w h in (omega (arith, once.counted k, once.few k), once.careful))
