-- ===== src/Execution/Actions.antt =====
-- src/poma/execution_manager.py: the primitive actions and the loops that only record and report, for
-- the invariant of Invariant.
use poma.Prelude.{Bool, true, false, String, List, [], ◌∷◌, Float, if◌then◌else◌, ◌≡◌, refl, arith}
use poma.Models.{ProposedTrade, OrderResult, RebalancePlan}
use poma.Config.{Settings}
use poma.Lifecycle.State.{buying_power_blocked_status}
use poma.Execution.Ledger.{Ledger, LedgerLaws}
use poma.Execution.World.{
  Broker, World, Action, Reply, ok, raised, ◌>>=◌, pure, raise, ask, modify_ledger, set_result,
  alert, now,
}
use poma.Execution.Replay.{blocked_result, record_planned, record_result}
use poma.Execution.Recorded.{record_result-Valid, record_planned-Valid}
use poma.Execution.Reprice.{block_trade}
use poma.Execution.Submit.{
  set_blocked, run_callbacks, record_results, block_buys, collect, returned,
}
use poma.Execution.Invariant.{Post, Triple, bind-Triple}

abbrev pub Any : {A : Type 0} → A → Type 0
Any a = Unit

Post-Any : {A : Type 0} (r : Reply A) → Post Any r
Post-Any (ok a) = tt
Post-Any (raised e) = tt

module _ {F S W : Type 0} ⦃f : Float F⦄ (l : Ledger F S) (br : Broker F W) (settings : Settings F)
    (Valid : S → Type 0) (laws : LedgerLaws l Valid) (R : String → Type 0) where
  abbrev pub Keeps : {A : Type 0} → (A → Type 0) → Action F S W A → Type 0
  Keeps Q m = Triple l Valid R Q m

  pub pure-Keeps : {A : Type 0} {Q : A → Type 0} {a : A} → Q a → Keeps Q (pure a)
  pure-Keeps h = record { run = λ w safe. (safe, h) }

  pub raise-Keeps : {A : Type 0} {Q : A → Type 0} (e : String) → Keeps Q (raise e)
  raise-Keeps e = record { run = λ w safe. (safe, tt) }

  pub ask-Keeps : {A : Type 0} (call : W → Reply A × W) → Keeps Any (ask call)
  ask-Keeps call = record {
    run = λ w safe.
        (record { valid = safe.valid; barred = safe.barred }, Post-Any (call w.outside).0);
  }

  pub now-Keeps : Keeps Any (now br)
  now-Keeps = record { run = λ w safe. (record { valid = safe.valid; barred = safe.barred }, tt) }

  pub set_result-Keeps : (k : String) (r : OrderResult F) → Keeps Any (set_result k r)
  set_result-Keeps k r = record {
    run = λ w safe. (record { valid = safe.valid; barred = safe.barred }, tt);
  }

  pub alert-Keeps : (t : ProposedTrade F) (r : OrderResult F) → Keeps Any (alert t r)
  alert-Keeps t r = record {
    run = λ w safe. (record { valid = safe.valid; barred = safe.barred }, tt);
  }

  modify-Keeps : (g : S → S) → ((s : S) → Valid s → Valid (g s)) → Keeps Any (modify_ledger g)
  modify-Keeps g h = record {
    run = λ w safe. (record { valid = h w.ledger safe.valid; barred = safe.barred }, tt);
  }

  pub record_planned-Keeps :
      (plan : RebalancePlan F) (t : ProposedTrade F)
      → Keeps Any (modify_ledger (record_planned l plan t))
  record_planned-Keeps plan t =
      modify-Keeps (record_planned l plan t) (record_planned-Valid l Valid laws plan t)

  pub record_result-Keeps :
      (time : String) (plan : RebalancePlan F) (t : ProposedTrade F) (r : OrderResult F)
      → Keeps Any (modify_ledger (record_result l time plan t r))
  record_result-Keeps time plan t r =
      modify-Keeps (record_result l time plan t r)
        (λ s v. record_result-Valid l Valid laws t plan time r s v)

  -- first one action, whose value does not matter, then the rest
  pub then_Keeps :
      {A B : Type 0} {Q : B → Type 0} {m : Action F S W A} {k : A → Action F S W B}
      → Keeps Any m
      → ((a : A) → Keeps Q (k a))
      → Keeps Q (m >>= k)
  then_Keeps hm hk = bind-Triple l Valid R Any hm (λ a h. hk a)

  pub if-Keeps :
      {A : Type 0} {Q : A → Type 0} (b : Bool) {m k : Action F S W A}
      → (b ≡ true → Keeps Q m)
      → (b ≡ false → Keeps Q k)
      → Keeps Q (if b then m else k)
  if-Keeps true hm hk = hm refl
  if-Keeps false hm hk = hk refl

  pub set_blocked-Keeps :
      (blocked : List (ProposedTrade F × OrderResult F))
      → Keeps Any (set_blocked l br settings blocked)
  unfolding set_blocked
  set_blocked-Keeps [] = pure-Keeps tt
  set_blocked-Keeps ((t, r) ∷ blocked) =
      then_Keeps (set_result-Keeps t.ticker r) (λ _. set_blocked-Keeps blocked)

  pub run_callbacks-Keeps :
      (plan : RebalancePlan F) (calls : List (ProposedTrade F × OrderResult F))
      → Keeps Any (run_callbacks l br settings plan calls)
  unfolding run_callbacks
  run_callbacks-Keeps plan [] = pure-Keeps tt
  run_callbacks-Keeps plan ((t, r) ∷ calls) = then_Keeps now-Keeps λ time.
      then_Keeps (record_result-Keeps time plan t r)
        λ _. then_Keeps (alert-Keeps t r) λ _. run_callbacks-Keeps plan calls

  pub record_results-Keeps :
      (plan : RebalancePlan F) (ts : List (ProposedTrade F)) (rs : List (OrderResult F))
      → Keeps Any (record_results l br settings plan ts rs)
  unfolding record_results
  record_results-Keeps plan [] [] = pure-Keeps tt
  record_results-Keeps plan [] (r ∷ rs) = raise-Keeps _
  record_results-Keeps plan (t ∷ ts) [] = raise-Keeps _
  record_results-Keeps plan (t ∷ ts) (r ∷ rs) = then_Keeps (set_result-Keeps t.ticker r) λ _.
      then_Keeps now-Keeps
        λ time. then_Keeps (record_result-Keeps time plan t r) λ _. record_results-Keeps plan ts rs

  pub block_buys-Keeps :
      (plan : RebalancePlan F) (reason : String) (ts : List (ProposedTrade F))
      → Keeps Any (block_buys l br settings plan reason ts)
  unfolding block_buys
  block_buys-Keeps plan reason [] = pure-Keeps tt
  block_buys-Keeps plan reason (t ∷ ts) =
      let r = blocked_result t buying_power_blocked_status reason in
      then_Keeps (set_result-Keeps t.ticker r) λ _. then_Keeps now-Keeps λ time.
        then_Keeps (record_result-Keeps time plan t r)
          λ _. then_Keeps (alert-Keeps t r) λ _. block_buys-Keeps plan reason ts

  pub block_trade-Keeps :
      (plan : RebalancePlan F) (t : ProposedTrade F) (status message : String)
      → Keeps Any (block_trade l br settings plan t status message)
  unfolding block_trade
  block_trade-Keeps plan t status message =
      let r = blocked_result t status message in
      then_Keeps now-Keeps λ time.
        then_Keeps (record_result-Keeps time plan t r)
          λ _. then_Keeps (alert-Keeps t r) λ _. pure-Keeps {a = r} tt

  pub returned-Keeps :
      (reply : Reply (List (OrderResult F))) → Keeps Any (returned l br settings reply)
  returned-Keeps (ok results) = pure-Keeps {a = results} tt
  returned-Keeps (raised e) = raise-Keeps e

  -- reading the results changes nothing
  collect-world :
      (ts : List (ProposedTrade F)) (w : World F S W) → (collect l br settings ts w).1 ≡ w
  unfolding collect
  collect-world [] w = refl
  collect-world (t ∷ ts) w = ground (arith, collect-world ts w)

  pub collect-Keeps : (ts : List (ProposedTrade F)) → Keeps Any (collect l br settings ts)
  collect-Keeps ts = record {
    run = λ w safe. (rw (collect-world ts w) safe, Post-Any (collect l br settings ts w).0);
  }
