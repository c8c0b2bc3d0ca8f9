-- ===== src/Lifecycle/State.antt =====
-- src/poma/order_lifecycle.py: the lifecycle states and the classification of broker statuses.
use poma.Prelude.{
  string_eq, Bool, true, false, ◌&&◌, ◌||◌, String, List, [], ◌∷◌, any, ◌==◌, Float, ◌≺◌, ◌≼◌,
  whole, if◌then◌else◌,
}

pub data OrderLifecycleState : Type 0 where
  planned submitted broker_accepted partially_filled filled : OrderLifecycleState
  replace_pending cancel_pending cancelled rejected expired unknown : OrderLifecycleState

-- membership in `TERMINAL_LIFECYCLE_STATES`
unfoldable pub is_terminal_state : OrderLifecycleState → Bool
is_terminal_state filled = true
is_terminal_state cancelled = true
is_terminal_state rejected = true
is_terminal_state expired = true
is_terminal_state _ = false

-- membership in `WORKING_LIFECYCLE_STATES`
unfoldable pub is_working_state : OrderLifecycleState → Bool
is_working_state broker_accepted = true
is_working_state partially_filled = true
is_working_state _ = false

abbrev pub is_planned : OrderLifecycleState → Bool
is_planned planned = true
is_planned _ = false

abbrev pub is_unknown : OrderLifecycleState → Bool
is_unknown unknown = true
is_unknown _ = false

abbrev pub is_filled : OrderLifecycleState → Bool
is_filled filled = true
is_filled _ = false

abbrev pub is_cancelled : OrderLifecycleState → Bool
is_cancelled cancelled = true
is_cancelled _ = false

abbrev pub execution_quote_blocked_status : String
execution_quote_blocked_status = "QuoteBlocked"

abbrev pub buying_power_blocked_status : String
buying_power_blocked_status = "BuyingPowerBlocked"

abbrev pub contract_unresolved_status : String
contract_unresolved_status = "ContractUnresolved"

abbrev pub idempotent_replay_status : String
idempotent_replay_status = "IdempotentReplay"

abbrev pub broker_unavailable_status : String
broker_unavailable_status = "BrokerUnavailable"

abbrev pub order_not_accepted_status : String
order_not_accepted_status = "OrderNotAccepted"

-- `status in {…}`
abbrev pub one_of : List String → String → Bool
one_of names status = any (λ n. n == status) names

abbrev pub raw_terminal_cancelled : List String
raw_terminal_cancelled = "Cancelled" ∷ "ApiCancelled" ∷ []

abbrev pub raw_submission_failure : List String
raw_submission_failure =
    "Failed" ∷ broker_unavailable_status ∷ order_not_accepted_status
    ∷ execution_quote_blocked_status ∷ buying_power_blocked_status ∷ contract_unresolved_status ∷ []

module _ {F : Type 0} ⦃f : Float F⦄ where
  unfoldable pub classify_lifecycle : String → F → F → OrderLifecycleState
  classify_lifecycle status fill remaining =
      if status == "Filled" || (whole 0 ≺ fill && remaining ≼ f.dec 1 9)
      then filled
      else if one_of raw_terminal_cancelled status
      then cancelled
      else if status == "PendingCancel"
      then cancel_pending
      else if status == "Inactive" || one_of raw_submission_failure status
      then rejected
      else if one_of ("PreSubmitted" ∷ "Submitted" ∷ []) status
      then (if whole 0 ≺ fill then partially_filled else broker_accepted)
      else if status == "PendingSubmit"
      then submitted
      else unknown
