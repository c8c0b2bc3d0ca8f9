-- ===== src/Execution/Barrier.antt =====
-- src/poma/execution_manager.py: the phases of `submit_plan`, for the invariant of Invariant.
use poma.Prelude.{
  string_eq, Bool, false, String, Option, none, some, List, [], ◌∷◌, Float, whole, ◌≼◌, ◌≡◌, sym,
  subst, All, All-append, Bool-cases, inl, inr,
}
use poma.Models.{ProposedTrade, RebalancePlan}
use poma.Config.{Settings}
use poma.Execution.Ledger.{Ledger, LedgerLaws}
use poma.Execution.World.{Broker, World, Action, ◌>>=◌, Submission}
use poma.Execution.Replay.{ref_of}
use poma.Execution.Recorded.{Bars}
use poma.Execution.Reprice.{Batch, is_empty}
use poma.Execution.Buys.{total_required, fit_buys_to_refreshed_cash}
use poma.Execution.Submit.{
  record_unconfirmed, submit_trades, finish, send, send_batch, submit_phase, buy_phase,
  buy_or_block,
}
use poma.Execution.References.{AllRefs, fit_reply-AllRefs}
use poma.Execution.Invariant.{
  Safe, bind-Triple, >>=-ok, AllBarred, IsBarred, record_unconfirmed-Bars,
}
use poma.Execution.Repriced.{GoodBatch, reprice_for_execution-Good}
use poma.Execution.Actions.{
  Any, if-Keeps, Keeps, pure-Keeps, then_Keeps, set_blocked-Keeps, run_callbacks-Keeps,
  record_results-Keeps, block_buys-Keeps, returned-Keeps,
}

module _ {F S W : Type 0} ⦃f : Float F⦄ (l : Ledger F S) (br : Broker F W) (settings : Settings F)
    (Valid : S → Type 0) (laws : LedgerLaws l Valid)
    (zero_irrefl : f.lt (whole 0) (whole 0) ≡ false) (R : String → Type 0) where
  abbrev Good : {A : Type 0} → (A → Type 0) → Action F S W A → Type 0
  Good Q m = Keeps l br settings Valid laws R Q m

  finish-Good :
      (plan : RebalancePlan F) (ts : List (ProposedTrade F)) (submission : Submission F)
      → Good Any (finish l br settings plan ts submission)
  unfolding finish
  finish-Good plan ts submission =
      then_Keeps l br settings Valid laws R
        (run_callbacks-Keeps l br settings Valid laws R plan submission.callbacks)
        λ _.
          then_Keeps l br settings Valid laws R
            (returned-Keeps l br settings Valid laws R submission.reply)
            λ results. record_results-Keeps l br settings Valid laws R plan ts results

  All-IsBarred :
      (s : S) (ts : List (ProposedTrade F))
      → All (λ t. Bars (l.latest (ref_of t) s)) ts
      → AllRefs R ts
      → All (IsBarred l R s) ts
  All-IsBarred s [] b h = tt
  All-IsBarred s (t ∷ ts) (b, bs) (h, hs) = ((b, h), All-IsBarred s ts bs hs)

  -- the broker is called only when the ledger bars every trade of the batch
  submitted-Safe :
      (ts : List (ProposedTrade F)) (w : World F S W)
      → Valid w.ledger
      → AllBarred l R w.submissions
      → All (IsBarred l R w.ledger) ts
      → Safe l Valid R (submit_trades l br settings ts w).1
  unfolding submit_trades
  submitted-Safe ts w valid before now = record {
    valid = valid;
    barred =
        All-append (λ (us, s). All (IsBarred l R s) us) w.submissions ((ts, w.ledger) ∷ []) before
          (now, tt);
  }

  -- the batch crosses the network with its uncertainty on record
  send-Good :
      (plan : RebalancePlan F) (ts : List (ProposedTrade F))
      → AllRefs R ts
      → Good Any (send l br settings plan ts)
  unfolding send submit_trades
  send-Good plan ts h = record {
    run = λ w safe.
        let (done, valid, keeps, bars, same) =
          record_unconfirmed-Bars l br settings Valid laws zero_irrefl plan ts w safe.valid in
        let w' = (record_unconfirmed l br settings plan ts w).1 in
        let safe' =
          submitted-Safe ts w' valid (subst (AllBarred l R) (sym same) safe.barred)
            (All-IsBarred w'.ledger ts bars h) in
        rw
          (>>=-ok (record_unconfirmed l br settings plan ts)
            (λ _. submit_trades l br settings ts >>= finish l br settings plan ts) w tt done)
          ((finish-Good plan ts (br.submit_trades ts w'.outside).0).run
            (submit_trades l br settings ts w').1 safe');
  }

  send_batch-Good :
      (plan : RebalancePlan F) (b : Batch F)
      → (GoodBatch l br settings Valid laws R) b
      → Good Any (send_batch l br settings plan b)
  unfolding send_batch
  send_batch-Good plan (ts, blocked) h =
      then_Keeps l br settings Valid laws R (set_blocked-Keeps l br settings Valid laws R blocked)
        λ _.
          if-Keeps l br settings Valid laws R (is_empty ts)
            (λ _. pure-Keeps l br settings Valid laws R tt) (λ _. send-Good plan ts h)

  pub submit_phase-Good :
      (plan : RebalancePlan F) (ts : List (ProposedTrade F)) (reprice : Bool)
      → AllRefs R ts
      → Good Any (submit_phase l br settings plan ts reprice)
  unfolding submit_phase
  submit_phase-Good plan ts reprice h =
      if-Keeps l br settings Valid laws R (is_empty ts)
        (λ _. pure-Keeps l br settings Valid laws R tt)
        (λ _.
          if-Keeps l br settings Valid laws R reprice
            (λ _.
              bind-Triple l Valid R (GoodBatch l br settings Valid laws R)
                (reprice_for_execution-Good l br settings Valid laws R plan ts h)
                λ b hb. send_batch-Good plan b hb)
            (λ _. send_batch-Good plan (ts, []) h))

  abbrev GoodFit : List (ProposedTrade F) × Option String → Type 0
  GoodFit (ts, reason) = AllRefs R ts

  fit_buys-Good :
      (ts : List (ProposedTrade F))
      → AllRefs R ts
      → Good GoodFit (fit_buys_to_refreshed_cash br settings ts)
  unfolding fit_buys_to_refreshed_cash
  fit_buys-Good ts h = record {
    run = λ w safe. elim (Bool-cases (total_required ts ≼ f.dec 1 9)) [
      | inl small ↦ rw small (safe, h)
      | inr large ↦ rw large (
        record { valid = safe.valid; barred = safe.barred },
        fit_reply-AllRefs R settings ts (br.account_snapshot w.outside).0 h,
      )
    ];
  }

  buy_or_block-Good :
      (plan : RebalancePlan F) (fit : List (ProposedTrade F) × Option String)
      → GoodFit fit
      → Good Any (buy_or_block l br settings plan fit)
  buy_or_block-Good plan (ts, none) h = submit_phase-Good plan ts false h
  buy_or_block-Good plan (ts, some reason) h =
      block_buys-Keeps l br settings Valid laws R plan reason ts

  pub buy_phase-Good :
      (plan : RebalancePlan F) (ts : List (ProposedTrade F))
      → AllRefs R ts
      → Good Any (buy_phase l br settings plan ts)
  unfolding buy_phase
  buy_phase-Good plan ts h =
      bind-Triple l Valid R (GoodBatch l br settings Valid laws R)
        (reprice_for_execution-Good l br settings Valid laws R plan ts h)
        λ (b : Batch F) hb.
          then_Keeps l br settings Valid laws R (set_blocked-Keeps l br settings Valid laws R b.1)
            λ _.
              bind-Triple l Valid R GoodFit (fit_buys-Good b.0 hb)
                λ fit hf. buy_or_block-Good plan fit hf
