-- ===== src/Session/Defs.antt =====
-- src/poma/state.py: `LocalState` as the contents of its file. The JSON object is a record with one
-- field per key that the class writes, `none` for an absent key; a file that does not exist is the
-- record without any key. `now` is the text of `_utc_now()`.
use poma.Prelude.{
  string_eq, option_eq, ℕ, ◌+◌, Bool, false, not, ◌&&◌, ◌||◌, String, Option, none, some, List, [],
  ◌∷◌, ◌==◌, any, is_set, if◌then◌else◌,
}

pub record SessionState : Type 0 where
  pub last_rebalance_session : Option String
  pub last_rebalance_run_id : Option String
  pub last_rebalance_status : Option String
  pub last_rebalance_attempt_count : Option ℕ
  pub last_rebalance_started_at : Option String
  pub last_rebalance_attempt_started_at : Option String
  pub last_rebalance_finished_at : Option String
  pub last_rebalance_retry_reason : Option String
  pub last_rebalance_report_path : Option String
  pub last_rebalance_error : Option String

abbrev pub no_state : SessionState
no_state = record {
  last_rebalance_session = none;
  last_rebalance_run_id = none;
  last_rebalance_status = none;
  last_rebalance_attempt_count = none;
  last_rebalance_started_at = none;
  last_rebalance_attempt_started_at = none;
  last_rebalance_finished_at = none;
  last_rebalance_retry_reason = none;
  last_rebalance_report_path = none;
  last_rebalance_error = none;
}

-- `_read`
abbrev pub read : Option SessionState → SessionState
read none = no_state
read (some payload) = payload

abbrev pub retry_wait_status : String
retry_wait_status = "retry_wait"

abbrev pub terminal_statuses : List String
terminal_statuses =
    "completed" ∷ "completed_with_order_issues" ∷ "orders_pending" ∷ "no_orders_accepted"
    ∷ "dry_run" ∷ "blocked" ∷ "failed" ∷ []

abbrev pub active_statuses : List String
active_statuses = "running" ∷ retry_wait_status ∷ terminal_statuses

-- `str(text) if text else None`
abbrev text_or_none : Option String → Option String
text_or_none text = if is_set text then text else none

abbrev is_session : String → SessionState → Bool
is_session session_date payload = payload.last_rebalance_session == some session_date

unfoldable pub session_status : String → Option SessionState → Option String
session_status session_date file =
    let payload = read file in
    if not (is_session session_date payload)
    then none
    else text_or_none payload.last_rebalance_status

unfoldable pub pending_rebalance_run_id : Option SessionState → Option String
pending_rebalance_run_id file =
    let payload = read file in
    if not (payload.last_rebalance_status == some "orders_pending")
    then none
    else text_or_none payload.last_rebalance_run_id

abbrev is_active : Option String → Bool
is_active none = false
is_active (some status) = any (λ s. s == status) active_statuses

unfoldable pub has_session_attempt : String → Option SessionState → Bool
unfolding session_status
has_session_attempt session_date file = is_active (session_status session_date file)

unfoldable pub session_run_id : String → Option SessionState → Option String
session_run_id session_date file =
    let payload = read file in
    if not (is_session session_date payload)
    then none
    else text_or_none payload.last_rebalance_run_id

-- `int(payload.get("last_rebalance_attempt_count", 0))`
abbrev count_or_zero : Option ℕ → ℕ
count_or_zero none = 0
count_or_zero (some n) = n

unfoldable pub session_attempt_count : String → Option SessionState → ℕ
session_attempt_count session_date file =
    let payload = read file in
    if not (is_session session_date payload)
    then 0
    else count_or_zero payload.last_rebalance_attempt_count

-- the payload is of this session and this run
abbrev pub is_same_run : String → String → SessionState → Bool
is_same_run session_date run_id payload =
    is_session session_date payload && payload.last_rebalance_run_id == some run_id

-- `begin_session`: the attempt number, and the file that it leaves
unfoldable pub begin_session :
    String → String → String → Option SessionState → ℕ × Option SessionState
unfolding session_attempt_count
begin_session now session_date run_id file =
    let payload = read file in
    let same_run = is_same_run session_date run_id payload in
    let previous_attempts = if same_run then session_attempt_count session_date file else 0 in
    let attempt_count = previous_attempts + 1 in
    let started_at =
      if not same_run || not (is_set payload.last_rebalance_started_at)
      then some now
      else payload.last_rebalance_started_at in
    (
      attempt_count,
      some (record payload {
        last_rebalance_session = some session_date;
        last_rebalance_run_id = some run_id;
        last_rebalance_status = some "running";
        last_rebalance_attempt_count = some attempt_count;
        last_rebalance_started_at = started_at;
        last_rebalance_attempt_started_at = some now;
      }),
    )

-- `if new: payload[key] = new`
abbrev given_or : Option String → Option String → Option String
given_or new old = if is_set new then new else old

unfoldable pub mark_retry_wait :
    String → String → String → String → Option String → Option SessionState → Option SessionState
mark_retry_wait now session_date run_id reason report_path file =
    let payload = read file in
    some (record payload {
      last_rebalance_session = some session_date;
      last_rebalance_run_id = some run_id;
      last_rebalance_status = some retry_wait_status;
      last_rebalance_retry_reason = some reason;
      last_rebalance_finished_at = some now;
      last_rebalance_report_path = given_or report_path payload.last_rebalance_report_path;
    })

unfoldable pub mark_session :
    String
    → String
    → String
    → String
    → Option String
    → Option String
    → Option SessionState
    → Option SessionState
mark_session now session_date run_id status report_path error file =
    let payload = read file in
    some (record payload {
      last_rebalance_session = some session_date;
      last_rebalance_run_id = some run_id;
      last_rebalance_status = some status;
      last_rebalance_finished_at = some now;
      last_rebalance_retry_reason = none;
      last_rebalance_report_path = given_or report_path payload.last_rebalance_report_path;
      last_rebalance_error = given_or error payload.last_rebalance_error;
    })
