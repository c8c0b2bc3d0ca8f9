-- ===== src/Reconcile/Desk.antt =====
-- What reconciliation acts on: the ledger and the outside world, with a trace of the calls that change
-- orders at the broker.
use poma.Prelude.{String, List, [], ◌∷◌, ◌++◌}
use poma.Lifecycle.Entry.{OrderLedgerEntry}
use poma.Execution.Ledger.{Ledger}
use poma.Execution.World.{Broker, Exec, Reply, ok, Replacement}

-- a call that changes an order, for a ledger entry
pub data BrokerCall (F : Type 0) : Type 0 where
  cancels : OrderLedgerEntry F → BrokerCall F
  replaces : OrderLedgerEntry F → Replacement F → BrokerCall F
  resubmits : OrderLedgerEntry F → Replacement F → BrokerCall F

-- Each call stands with the ledger as it was when the call was made.
pub record Desk (F S W : Type 0) : Type 0 where
  pub ledger : S
  pub outside : W
  pub calls : List (BrokerCall F × S)

module _ {F S W : Type 0} where
  -- a call that changes no order, and may raise
  abbrev pub query : {A : Type 0} → (W → Reply A × W) → Exec (Desk F S W) A
  query call w = let (r, o) = call w.outside in (r, record w { outside = o })

  -- a call that changes an order
  abbrev pub order_call : {A : Type 0} → BrokerCall F → (W → A × W) → Exec (Desk F S W) A
  order_call c call w =
      let (r, o) = call w.outside in
      (ok r, record w { outside = o; calls = w.calls ++ ((c, w.ledger) ∷ []) })

  abbrev pub settle : {A : Type 0} → Reply A → Exec (Desk F S W) A
  settle r w = (r, w)

  -- `_utc_now_iso()`
  abbrev pub clock : Broker F W → Exec (Desk F S W) String
  clock br w = let (text, o) = br.utc_now w.outside in (ok text, record w { outside = o })

  -- `self.store.upsert(entry)`
  abbrev pub store : Ledger F S → OrderLedgerEntry F → Exec (Desk F S W) (Unit {0})
  store l e w = (ok tt, record w { ledger = l.upsert e w.ledger })
