-- ===== src/Engine/Run.antt =====
-- src/poma/engine.py: `execute` and `run`, and the outcome of one rebalance.
use poma.Prelude.{string_eq, Bool, true, false, String, [], Float, if◌then◌else◌}
use poma.Models.{RebalancePlan}
use poma.Config.{Settings}
use poma.Execution.Ledger.{Ledger}
use poma.Execution.World.{Broker, World, Exec, Reply, ok, raised, pure, ◌>>=◌}
use poma.Execution.Submit.{submit_plan}
use poma.Reconcile.Desk.{Desk}
use poma.Reconcile.Stale.{is_blocked}
use poma.Engine.Inputs.{EngineSettings, Market, is_dry_run}
use poma.Engine.Plan.{build_plan}
use poma.Engine.Status.{execution_status, status_value}

pub record RebalanceOutcome (F : Type 0) : Type 0 where
  pub plan : RebalancePlan F
  pub executed : Bool
  pub blocked : Bool
  pub status : String

-- the outcome of a plan that was executed
abbrev pub executed_outcome : {F : Type 0} ⦃f : Float F⦄ → RebalancePlan F → RebalanceOutcome F
executed_outcome plan = record {
  plan = plan;
  executed = true;
  blocked = false;
  status = status_value (execution_status plan.execution_results);
}

module _ {F S W : Type 0} where
  -- where the submission starts: the ledger and the outside world that the planning leaves
  abbrev pub opened : Desk F S W → World F S W
  opened w = record {
    ledger = w.ledger;
    outside = w.outside;
    results = [];
    alerts = [];
    submissions = [];
  }

module _ {F S W : Type 0} ⦃f : Float F⦄ (es : EngineSettings F) (s : Settings F) (m : Market F W)
    (br : Broker F W) (l : Ledger F S) where
  -- `execute`
  unfoldable pub execute : RebalancePlan F → Exec (World F S W) (RebalancePlan F)
  execute plan = do
    results ← submit_plan l br s plan
    pure (record plan { execution_results = results })

  -- `run`, from the plan on
  unfoldable pub run_plan : RebalancePlan F → Exec (World F S W) (RebalanceOutcome F)
  run_plan plan =
      if is_dry_run es.trading_mode
      then pure (record {
        plan = plan;
        executed = false;
        blocked = is_blocked plan.warnings;
        status = "dry_run";
      })
      else if is_blocked plan.warnings
      then pure (record { plan = plan; executed = false; blocked = true; status = "blocked" })
      else (do executed_plan ← execute plan; pure (executed_outcome executed_plan))

  -- `run`, by what `build_plan` comes to
  abbrev pub run_by :
      Reply (RebalancePlan F) → Desk F S W → Reply (RebalanceOutcome F) × World F S W
  run_by (raised error) w = (raised error, opened w)
  run_by (ok plan) w = run_plan plan (opened w)

  -- `run`
  unfoldable pub run : String → String → Desk F S W → Reply (RebalanceOutcome F) × World F S W
  run session_date run_id w =
      let (r, w') = build_plan es s m br l session_date run_id w in run_by r w'
