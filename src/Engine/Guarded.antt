-- ===== src/Engine/Guarded.antt =====
-- src/poma/engine.py: what `run` submits.
use poma.Prelude.{
  string_eq, Bool, true, false, String, List, [], Float, IsOrdered, All, ◌≡◌, refl, arith, ◌∙◌,
  Bool-cases, inl, inr, ◌⊎◌, if◌then◌else◌,
}
use poma.Models.{RebalancePlan}
use poma.Config.{Settings}
use poma.Execution.Ledger.{Ledger}
use poma.Execution.World.{Broker, World, Reply, ok, raised, pure, ◌>>=◌}
use poma.Execution.Submit.{submit_plan}
use poma.Reconcile.Desk.{Desk, query}
use poma.Reconcile.Passes.{answer}
use poma.Reconcile.Stale.{StaleOrderCheck, is_blocked, is_own, check_stale_orders}
use poma.Reconcile.Unresolved.{check_stale_orders-is_own}
use poma.Engine.Inputs.{EngineSettings, Market, is_dry_run}
use poma.Engine.Plan.{stale_warnings, plan_rest, build_plan}
use poma.Engine.Run.{opened, execute, run_plan, executed_outcome, run_by, run}
use poma.Engine.Sound.{IsSound, SoundReply, plan_rest-IsSound}

module _ {F S W : Type 0} ⦃f : Float F⦄ (es : EngineSettings F) (s : Settings F) (m : Market F W)
    (br : Broker F W) (l : Ledger F S) (session_date run_id : String) where
  -- the open orders of the ledger are of this session and run
  abbrev pub IsOwn : Desk F S W → Type 0
  IsOwn w = All (λ e. is_own session_date run_id e ≡ true) (l.load_open_orders w.ledger)

  abbrev StaleReply : Reply (List String) × Desk F S W → Type 0
  StaleReply (raised error, w) = Unit
  StaleReply (ok warnings, w) =
      is_dry_run es.trading_mode ≡ false → is_blocked warnings ≡ false → IsOwn w

  checked-StaleReply :
      (w v : Desk F S W) (r : Reply StaleOrderCheck)
      → check_stale_orders br l s session_date run_id w ≡ (r, v)
      → StaleReply ((answer r >>= (λ check. pure check.warnings)) v)
  checked-StaleReply w v (raised error) eq = tt
  checked-StaleReply w v (ok check) eq =
      λ working clear. check_stale_orders-is_own br l s session_date run_id w v check eq clear

  stale_by :
      (dry : Bool) (w : Desk F S W)
      → is_dry_run es.trading_mode ≡ dry
      → StaleReply (
          (if dry
              then pure []
              else (do check ← check_stale_orders br l s session_date run_id; pure check.warnings))
            w)
  stale_by true w eq = λ working clear. ground (arith, eq, working)
  stale_by false w eq =
      checked-StaleReply w (check_stale_orders br l s session_date run_id w).1
        (check_stale_orders br l s session_date run_id w).0 refl

  stale_warnings-StaleReply :
      (w : Desk F S W) → StaleReply (stale_warnings es s m br l session_date run_id w)
  unfolding stale_warnings
  stale_warnings-StaleReply w = stale_by (is_dry_run es.trading_mode) w refl

  -- a plan that does not block is sound, and made where no other order is open
  abbrev pub BuildReply : Reply (RebalancePlan F) × Desk F S W → Type 0
  BuildReply (raised error, w) = Unit
  BuildReply (ok plan, w) =
      is_dry_run es.trading_mode ≡ false
      → is_blocked plan.warnings ≡ false
      → IsSound es s plan × IsOwn w

  queried-BuildReply :
      (warnings : List String) (r : Reply (RebalancePlan F)) (o : W) (w : Desk F S W)
      → SoundReply es s warnings (r, o)
      → StaleReply (ok warnings, w)
      → BuildReply (r, record w { outside = o })
  queried-BuildReply warnings (raised error) o w sound stale = tt
  queried-BuildReply warnings (ok plan) o w sound stale =
      λ working clear. (let (fine, early) = sound clear in (fine, stale working early))

  then-BuildReply :
      (r : Reply (List String)) (w : Desk F S W)
      → IsOrdered F
      → StaleReply (r, w)
      → BuildReply
          ((answer r >>= (λ warnings. query (plan_rest es s m session_date run_id warnings))) w)
  then-BuildReply (raised error) w laws stale = tt
  then-BuildReply (ok warnings) w laws stale =
      (let r = plan_rest es s m session_date run_id warnings w.outside in
        queried-BuildReply warnings r.0 r.1 w
          (plan_rest-IsSound es s m session_date run_id laws warnings w.outside) stale)

  build_plan-BuildReply :
      (w : Desk F S W) → IsOrdered F → BuildReply (build_plan es s m br l session_date run_id w)
  unfolding build_plan
  build_plan-BuildReply w laws =
      then-BuildReply (stale_warnings es s m br l session_date run_id w).0
        (stale_warnings es s m br l session_date run_id w).1 laws (stale_warnings-StaleReply w)

  -- A submission of `run`: the plan that was built, the state in which it was built, and that the
  -- submission is the one of `submit_plan` for it.
  pub record IsGuarded (w : Desk F S W) (end : World F S W) : Type 0 where
    pub plan : RebalancePlan F
    pub planned_at : Desk F S W
    pub built : build_plan es s m br l session_date run_id w ≡ (ok plan, planned_at)
    pub working : is_dry_run es.trading_mode ≡ false
    pub clear : is_blocked plan.warnings ≡ false
    pub sound : IsSound es s plan
    pub own : IsOwn planned_at
    pub submitted : end ≡ (submit_plan l br s plan (opened planned_at)).1

  pure-state :
      {A B : Type 0} (r : Reply A) (v : World F S W) (g : A → B)
      → ((answer r >>= (λ x. pure (g x))) v).1 ≡ v
  pure-state (ok x) v g = refl
  pure-state (raised error) v g = refl

  execute-state :
      (plan : RebalancePlan F) (v : World F S W)
      → (execute es s m br l plan v).1 ≡ (submit_plan l br s plan v).1
  unfolding execute
  execute-state plan v =
      pure-state (submit_plan l br s plan v).0 (submit_plan l br s plan v).1
        (λ results. record plan { execution_results = results })

  run_plan-state :
      (plan : RebalancePlan F) (v : World F S W)
      → is_dry_run es.trading_mode ≡ false
      → is_blocked plan.warnings ≡ false
      → (run_plan es s m br l plan v).1 ≡ (submit_plan l br s plan v).1
  unfolding run_plan
  run_plan-state plan v working clear =
      rw (working, clear)
        (pure-state (execute es s m br l plan v).0 (execute es s m br l plan v).1 executed_outcome
          ∙ execute-state plan v)

  run_by-IsGuarded :
      (r : Reply (RebalancePlan F)) (w w' : Desk F S W)
      → build_plan es s m br l session_date run_id w ≡ (r, w')
      → BuildReply (r, w')
      → ((run_by es s m br l r w').1.submissions ≡ []) ⊎ IsGuarded w (run_by es s m br l r w').1
  unfolding run_plan
  run_by-IsGuarded (raised error) w w' eq h = inl refl
  run_by-IsGuarded (ok plan) w w' eq h = elim (Bool-cases (is_dry_run es.trading_mode)) [
    | inl dry ↦ inl (ground (arith, dry))
    | inr working ↦ elim (Bool-cases (is_blocked plan.warnings)) [
      | inl blocked ↦ inl (ground (arith, working, blocked))
      | inr clear ↦
          (let (sound, own) = h working clear in
            inr (record {
              plan = plan;
              planned_at = w';
              built = eq;
              working = working;
              clear = clear;
              sound = sound;
              own = own;
              submitted = run_plan-state plan (opened w') working clear;
            }))
    ]
  ]

  -- Where floats keep the laws of their order, run submits nothing, or it submits a plan that build_plan
  -- has built, that no warning blocks, in a mode other than dry run, with trades and targets within the
  -- limits of the settings, and while all open orders of the ledger are of this session and run.
  pub run-IsGuarded :
      (w : Desk F S W)
      → IsOrdered F
      → ((run es s m br l session_date run_id w).1.submissions ≡ [])
        ⊎ IsGuarded w (run es s m br l session_date run_id w).1
  unfolding run
  run-IsGuarded w laws =
      run_by-IsGuarded (build_plan es s m br l session_date run_id w).0 w
        (build_plan es s m br l session_date run_id w).1 refl (build_plan-BuildReply w laws)
