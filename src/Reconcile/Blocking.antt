-- ===== src/Reconcile/Blocking.antt =====
-- src/poma/execution_manager.py: what the warnings of `check_stale_orders` hold.
use poma.Prelude.{
  string_eq, option_eq, nat_eq, ℕ, ◌-◌, Bool, true, false, not, ◌&&◌, ◌||◌, String, ◌<>◌, Option,
  none, some, List, [], ◌∷◌, ◌++◌, ◌==◌, any, any-append, keep, map, length, show, has_infix,
  has_infix-front, has_infix-append, Float, All, ◌≡◌, refl, arith, ap, suc, zero, Bool-cases, inl,
  inr, ==_iff, subst, if◌then◌else◌,
}
use poma.Config.{Settings, StaleOrderPolicy, block, cancel}
use poma.Lifecycle.Entry.{OrderLedgerEntry}
use poma.Execution.Ledger.{Ledger}
use poma.Execution.World.{Broker, Exec, Reply, ok, raised, pure, ◌>>=◌}
use poma.Reconcile.Desk.{Desk}
use poma.Reconcile.Passes.{answer}
use poma.Reconcile.Stale.{
  StaleOrderCheck, block_marker, is_blocked, tickers_text, cancel_warnings, cancelled_check,
  unresolved_warning, cancel_group, check_by_policy, check_group, check_lists, joined,
}

-- a check that blocks, where it does not raise
abbrev pub Blocks : Reply StaleOrderCheck → Type 0
Blocks (ok c) = is_blocked c.warnings ≡ true
Blocks (raised error) = Unit

module _ {F S W : Type 0} where
  bind-Blocks :
      (r : Reply StaleOrderCheck) (w : Desk F S W)
      (next : StaleOrderCheck → Exec (Desk F S W) StaleOrderCheck)
      → Blocks r
      → ((c : StaleOrderCheck) (v : Desk F S W)
          → is_blocked c.warnings ≡ true
          → Blocks (next c v).0)
      → Blocks ((answer r >>= next) w).0
  bind-Blocks (ok c) w next h g = g c w h
  bind-Blocks (raised error) w next h g = tt

  any-Blocks :
      (r : Reply StaleOrderCheck) (w : Desk F S W)
      (next : StaleOrderCheck → Exec (Desk F S W) StaleOrderCheck)
      → ((c : StaleOrderCheck) (v : Desk F S W) → Blocks (next c v).0)
      → Blocks ((answer r >>= next) w).0
  any-Blocks (ok c) w next g = g c w
  any-Blocks (raised error) w next g = tt

  keys-Blocks :
      (r : Reply (List String)) (w : Desk F S W)
      (next : List String → Exec (Desk F S W) StaleOrderCheck)
      → ((ks : List String) (v : Desk F S W) → Blocks (next ks v).0)
      → Blocks ((answer r >>= next) w).0
  keys-Blocks (ok ks) w next g = g ks w
  keys-Blocks (raised error) w next g = tt

abbrev pub Marks : String → Type 0
Marks t = has_infix block_marker t ≡ true

-- a text before a text with the marker
pub before : (s t : String) → Marks t → Marks (s <> t)
before s t h = has_infix-front block_marker s t h

count_marked :
    (n label rest tickers : String) (end : String)
    → Marks end
    → Marks (n <> " open order(s) from " <> label <> rest <> tickers <> end)
count_marked n label rest tickers end h =
    before n _
      (before " open order(s) from " _ (before label _ (before rest _ (before tickers end h))))

module _ {F : Type 0} where
  unresolved-is_blocked :
      (label : String) (es : List (OrderLedgerEntry F))
      → is_blocked (unresolved_warning label es ∷ []) ≡ true
  unfolding has_infix poma.Prelude.has_prefix
  unresolved-is_blocked label es = ground (
    arith,
    count_marked (show (length es)) label " are still unresolved (" (tickers_text es)
        "); run `poma reconcile-orders` or cancel manually before this session can trade; block execution"
        refl,
  )

  cancel-is_blocked :
      (label : String) (e : OrderLedgerEntry F) (es : List (OrderLedgerEntry F))
      (keys : List String)
      → is_blocked (cancel_warnings label (e ∷ es) keys) ≡ true
  unfolding has_infix poma.Prelude.has_prefix
  cancel-is_blocked label e es [] = ground (
    arith,
    count_marked (show (suc (length es) - 0)) label " could not be confirmed cancelled ("
        (tickers_text (e ∷ es)) "); block execution" refl,
  )
  cancel-is_blocked label e es (k ∷ keys) = ground arith

module _ {F S W : Type 0} ⦃f : Float F⦄ (br : Broker F W) (l : Ledger F S)
    (settings : Settings F) where
  check_by_policy-Blocks :
      (policy : StaleOrderPolicy) (label : String) (e : OrderLedgerEntry F)
      (es : List (OrderLedgerEntry F)) (w : Desk F S W)
      → Blocks (check_by_policy br l settings policy label (e ∷ es) w).0
  unfolding check_by_policy
  check_by_policy-Blocks block label e es w = unresolved-is_blocked label (e ∷ es)
  check_by_policy-Blocks cancel label e es w =
      keys-Blocks (cancel_group br l settings label (e ∷ es) w).0
        (cancel_group br l settings label (e ∷ es) w).1
        (λ keys. pure (cancelled_check label (e ∷ es) keys))
        (λ keys v. cancel-is_blocked label e es keys)

  check_group-Blocks :
      (label : String) (e : OrderLedgerEntry F) (es : List (OrderLedgerEntry F)) (w : Desk F S W)
      → Blocks (check_group br l settings label (e ∷ es) w).0
  unfolding check_group
  check_group-Blocks label e es w = check_by_policy-Blocks settings.stale_order_policy label e es w

  -- what a check with warnings of one group joins
  joined-is_blocked :
      (xs ys zs : List String)
      → is_blocked xs || is_blocked ys ≡ true
      → is_blocked (xs ++ (ys ++ zs)) ≡ true
  joined-is_blocked xs ys zs h = ground (
    arith,
    h,
    any-append (has_infix block_marker) xs (ys ++ zs),
    any-append (has_infix block_marker) ys zs,
  )

  prior-Blocks :
      (e : OrderLedgerEntry F) (prior foreign : List (OrderLedgerEntry F)) (own : List String)
      (w : Desk F S W)
      → Blocks (check_lists br l settings (e ∷ prior) foreign own w).0
  unfolding check_lists
  prior-Blocks e prior foreign own w =
      bind-Blocks (check_group br l settings "a prior session" (e ∷ prior) w).0
        (check_group br l settings "a prior session" (e ∷ prior) w).1
        (λ first.
          check_group br l settings "a different run in this session" foreign
          >>= (λ second. pure (joined own first second)))
        (check_group-Blocks "a prior session" e prior w)
        (λ first v blocked.
          any-Blocks (check_group br l settings "a different run in this session" foreign v).0
            (check_group br l settings "a different run in this session" foreign v).1
            (λ second. pure (joined own first second))
            (λ second u.
              joined-is_blocked first.warnings second.warnings own (ground (arith, blocked))))

  foreign-Blocks :
      (e : OrderLedgerEntry F) (foreign : List (OrderLedgerEntry F)) (own : List String)
      (w : Desk F S W)
      → Blocks (check_lists br l settings [] (e ∷ foreign) own w).0
  unfolding check_lists check_group
  foreign-Blocks e foreign own w =
      bind-Blocks (check_group br l settings "a different run in this session" (e ∷ foreign) w).0
        (check_group br l settings "a different run in this session" (e ∷ foreign) w).1
        (λ second. pure (joined own (record { warnings = []; cancelled_ledger_keys = [] }) second))
        (check_group-Blocks "a different run in this session" e foreign w)
        (λ second v blocked. joined-is_blocked [] second.warnings own (ground (arith, blocked)))

  pub check_lists-clear :
      (prior foreign : List (OrderLedgerEntry F)) (own : List String) (w w' : Desk F S W)
      (c : StaleOrderCheck)
      → check_lists br l settings prior foreign own w ≡ (ok c, w')
      → is_blocked c.warnings ≡ false
      → (prior ≡ []) × (foreign ≡ []) × (w ≡ w')
  unfolding check_lists check_group
  check_lists-clear [] [] own w w' c eq silent = (refl, refl, ap (λ r. r.1) eq)
  check_lists-clear [] (e ∷ foreign) own w w' c eq silent =
      (let blocked : is_blocked c.warnings ≡ true =
          subst (λ r. Blocks r.0) eq (foreign-Blocks e foreign own w) in
        ground (arith, blocked, silent))
  check_lists-clear (e ∷ prior) foreign own w w' c eq silent =
      (let blocked : is_blocked c.warnings ≡ true =
          subst (λ r. Blocks r.0) eq (prior-Blocks e prior foreign own w) in
        ground (arith, blocked, silent))
