-- ===== src/Engine/Status.antt =====
-- src/poma/engine.py: `execution_status`; src/poma/broker.py: the tests of order results that it uses.
use poma.Prelude.{
  string_eq, Bool, true, false, not, ◌&&◌, ◌||◌, String, List, [], ◌∷◌, ◌==◌, any, is_set, Float,
  whole, ◌⊕◌, ◌≺◌, ◌≼◌, if◌then◌else◌,
}
use poma.Models.{OrderResult}

-- the values that `execution_status` returns
pub data ExecutionStatus : Type 0 where
  no_orders_accepted completed_with_order_issues orders_pending completed : ExecutionStatus

abbrev pub status_value : ExecutionStatus → String
status_value no_orders_accepted = "no_orders_accepted"
status_value completed_with_order_issues = "completed_with_order_issues"
status_value orders_pending = "orders_pending"
status_value completed = "completed"

-- `all(p(x) for x in xs)`
abbrev pub every : {A : Type 0} → (A → Bool) → List A → Bool
every p [] = true
every p (x ∷ xs) = p x && every p xs

module _ {F : Type 0} where
  -- `SUCCESS_STATUSES`
  abbrev pub is_success : OrderResult F → Bool
  is_success r = r.status == "PreSubmitted" || r.status == "Submitted" || r.status == "Filled"

  -- `_is_idempotent_replay`
  abbrev pub is_idempotent_replay : OrderResult F → Bool
  is_idempotent_replay r = r.status == "IdempotentReplay"

  abbrev pub has_issue : OrderResult F → Bool
  has_issue r = not (is_idempotent_replay r) && (not (is_success r) || is_set r.message)

  unfoldable pub order_results_have_issues : List (OrderResult F) → Bool
  order_results_have_issues rs = any has_issue rs

module _ {F : Type 0} ⦃f : Float F⦄ where
  abbrev pub is_refused : OrderResult F → Bool
  is_refused r = not (is_idempotent_replay r) && (r.filled ≼ whole 0) && not (is_success r)

  unfoldable pub order_results_have_no_accepted_orders : List (OrderResult F) → Bool
  order_results_have_no_accepted_orders [] = false
  order_results_have_no_accepted_orders (r ∷ rs) = every is_refused (r ∷ rs)

  -- the broker has the order, and it is not filled
  abbrev pub is_pending : OrderResult F → Bool
  is_pending r =
      (r.status == "Submitted" || r.status == "PreSubmitted") && (r.filled ⊕ f.dec 1 9 ≺ r.quantity)

  -- `execution_status`
  unfoldable pub execution_status : List (OrderResult F) → ExecutionStatus
  execution_status rs =
      if order_results_have_no_accepted_orders rs
      then no_orders_accepted
      else if order_results_have_issues rs
      then completed_with_order_issues
      else if any is_pending rs
      then orders_pending
      else completed
