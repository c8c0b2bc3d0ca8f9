-- ===== src/Execution/Submit.antt =====
-- src/poma/execution_manager.py: `submit_plan` and its phases.
use poma.Prelude.{
  string_eq, Bool, true, false, String, Option, none, some, List, [], ◌∷◌, ◌++◌, Dict, lookup,
  Float, if◌then◌else◌, length, keep, map,
}
use poma.Models.{is_buy, is_sell, ProposedTrade, OrderResult, RebalancePlan}
use poma.Config.{Settings}
use poma.Lifecycle.State.{buying_power_blocked_status}
use poma.Lifecycle.Entry.{OrderLedgerEntry}
use poma.Execution.Ledger.{Ledger}
use poma.Execution.World.{
  Broker, Action, Reply, ok, raised, ◌>>=◌, ◌>>◌, pure, raise, modify_ledger, set_result, alert,
  now, Submission,
}
use poma.Execution.Replay.{
  ref_of, idempotent_replay, blocked_result, record_planned, record_result, tag,
  submission_unconfirmed,
}
use poma.Execution.Reprice.{Batch, reprice_for_execution, is_empty}
use poma.Execution.Buys.{fit_buys_to_refreshed_cash}

module _ {F S W : Type 0} ⦃f : Float F⦄ (l : Ledger F S) (br : Broker F W) (s : Settings F) where
  -- `_plan_phase`: the trades that no earlier attempt has sent
  unfoldable pub plan_phase :
      RebalancePlan F
      → Dict String (OrderLedgerEntry F)
      → List (ProposedTrade F)
      → Action F S W (List (ProposedTrade F))
  plan_phase plan latest_by_ref [] = pure []
  plan_phase plan latest_by_ref (t ∷ ts) =
      elim (idempotent_replay t (lookup (ref_of t) latest_by_ref)) [
        | some replay ↦ do
          set_result t.ticker replay
          alert t replay
          plan_phase plan latest_by_ref ts
        | none ↦ do
          modify_ledger (record_planned l plan t)
          fresh ← plan_phase plan latest_by_ref ts
          pure (t ∷ fresh)
      ]

  -- `results_by_ticker[trade.ticker] = result`, for the blocked trades
  unfoldable pub set_blocked : List (ProposedTrade F × OrderResult F) → Action F S W (Unit {0})
  set_blocked [] = pure tt
  set_blocked ((t, r) ∷ blocked) = set_result t.ticker r >> set_blocked blocked

  -- the uncertainty that is made durable before the network is crossed
  unfoldable pub record_unconfirmed :
      RebalancePlan F → List (ProposedTrade F) → Action F S W (Unit {0})
  record_unconfirmed plan [] = pure tt
  record_unconfirmed plan (t ∷ ts) = do
    time ← now br
    modify_ledger (
        record_result l time plan t (
          blocked_result t submission_unconfirmed
            "submission started; broker outcome requires reconciliation"))
    record_unconfirmed plan ts

  -- the wrapped status callbacks of a submission
  unfoldable pub run_callbacks :
      RebalancePlan F → List (ProposedTrade F × OrderResult F) → Action F S W (Unit {0})
  run_callbacks plan [] = pure tt
  run_callbacks plan ((t, r) ∷ calls) = do
    time ← now br
    modify_ledger (record_result l time plan t r)
    alert t r
    run_callbacks plan calls

  -- the call of the broker; the trace keeps the ledger as it stands
  unfoldable pub submit_trades : List (ProposedTrade F) → Action F S W (Submission F)
  submit_trades trades w =
      let (reply, o) = br.submit_trades trades w.outside in
      (ok reply, record w { outside = o; submissions = w.submissions ++ ((trades, w.ledger) ∷ []) })

  abbrev pub returned : Reply (List (OrderResult F)) → Action F S W (List (OrderResult F))
  returned (ok results) = pure results
  returned (raised e) = raise e

  -- `for trade, result in zip(submittable, phase_results, strict=True)`
  unfoldable pub record_results :
      RebalancePlan F → List (ProposedTrade F) → List (OrderResult F) → Action F S W (Unit {0})
  record_results plan [] [] = pure tt
  record_results plan [] (r ∷ rs) = raise "zip() argument 2 is longer than argument 1"
  record_results plan (t ∷ ts) [] = raise "zip() argument 2 is shorter than argument 1"
  record_results plan (t ∷ ts) (r ∷ rs) = do
    set_result t.ticker r
    time ← now br
    modify_ledger (record_result l time plan t r)
    record_results plan ts rs

  -- what is done with the outcome of a submission
  unfoldable pub finish :
      RebalancePlan F → List (ProposedTrade F) → Submission F → Action F S W (Unit {0})
  finish plan trades submission = do
    run_callbacks plan submission.callbacks
    results ← returned submission.reply
    record_results plan trades results

  -- the part of `_submit_phase` from the durable uncertainty on
  unfoldable pub send : RebalancePlan F → List (ProposedTrade F) → Action F S W (Unit {0})
  send plan trades = do
    record_unconfirmed plan trades
    submission ← submit_trades trades
    finish plan trades submission

  unfoldable pub send_batch : RebalancePlan F → Batch F → Action F S W (Unit {0})
  send_batch plan (submittable, blocked) = do
    set_blocked blocked
    if is_empty submittable then pure tt else send plan submittable

  -- `_submit_phase`
  unfoldable pub submit_phase :
      RebalancePlan F → List (ProposedTrade F) → Bool → Action F S W (Unit {0})
  submit_phase plan trades reprice =
      if is_empty trades
      then pure tt
      else if reprice
      then (reprice_for_execution l br s plan trades >>= send_batch plan)
      else send_batch plan (trades, [])

  -- the buys that the refreshed cash does not cover
  unfoldable pub block_buys :
      RebalancePlan F → String → List (ProposedTrade F) → Action F S W (Unit {0})
  block_buys plan reason [] = pure tt
  block_buys plan reason (t ∷ ts) = do
    let r = blocked_result t buying_power_blocked_status reason
    set_result t.ticker r
    time ← now br
    modify_ledger (record_result l time plan t r)
    alert t r
    block_buys plan reason ts

  abbrev pub buy_or_block :
      RebalancePlan F → List (ProposedTrade F) × Option String → Action F S W (Unit {0})
  buy_or_block plan (buys, none) = submit_phase plan buys false
  buy_or_block plan (buys, some reason) = block_buys plan reason buys

  -- the phase of the buys
  unfoldable pub buy_phase : RebalancePlan F → List (ProposedTrade F) → Action F S W (Unit {0})
  buy_phase plan buys = do
    (repriced, blocked) ← reprice_for_execution l br s plan buys
    set_blocked blocked
    fitted ← fit_buys_to_refreshed_cash br s repriced
    buy_or_block plan fitted

  -- `[results_by_ticker[trade.ticker] for trade in plan.trades]`
  unfoldable pub collect : List (ProposedTrade F) → Action F S W (List (OrderResult F))
  collect [] w = pure [] w
  collect (t ∷ ts) w = elim (lookup t.ticker w.results) [
    | none ↦ (raised t.ticker, w)
    | some r ↦ (collect ts >>= λ rs. pure (r ∷ rs)) w
  ]

  abbrev pub refs : List (ProposedTrade F) → List String
  refs = map ref_of

  -- the phases of `submit_plan`, from the tagged trades on
  unfoldable pub run_phases :
      RebalancePlan F
      → Dict String (OrderLedgerEntry F)
      → List (ProposedTrade F)
      → List (ProposedTrade F)
      → Action F S W (List (OrderResult F))
  run_phases plan latest_by_ref sells buys = do
    fresh_sells ← plan_phase plan latest_by_ref sells
    fresh_buys ← plan_phase plan latest_by_ref buys
    submit_phase plan fresh_sells true
    (if is_empty fresh_buys then pure tt else buy_phase plan fresh_buys)
    collect plan.trades

  -- `submit_plan`
  unfoldable pub submit_plan : RebalancePlan F → Action F S W (List (OrderResult F))
  submit_plan plan w =
      let sells = keep (λ t. is_sell t.side) plan.trades in
      let buys = keep (λ t. is_buy t.side) plan.trades in
      let tagged_sells = tag l plan.run_id 0 sells w.ledger in
      let tagged_buys = tag l plan.run_id (length sells) buys w.ledger in
      let latest_by_ref = l.get_latest_many (refs (tagged_sells ++ tagged_buys)) w.ledger in
      run_phases plan latest_by_ref tagged_sells tagged_buys (record w { results = [] })
