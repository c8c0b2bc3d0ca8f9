-- ===== src/Tests/Session.antt =====
-- A run of three attempts over the state file.
use poma.Prelude.{string_eq, ◌==◌, false, String, none, some, List, [], ◌∷◌, ◌≡◌, refl}
use poma.Session.Defs.{
  read, begin_session, session_status, session_run_id, session_attempt_count,
  pending_rebalance_run_id,
}
use poma.Session.Attempts.{
  Write, begins, waits, marks, after, begin_session-counts, write-answers, wrote,
}

abbrev writes : List Write
writes =
    waits "09:31" "no quotes" none
    ∷ begins "09:40"
    ∷ marks "09:41" "orders_pending" (some "report.md") none
    ∷ []

begin_session-counts_example :
    ((begin_session "09:50" "2025-01-02" "run"
        (after "2025-01-02" "run" (begins "09:30" ∷ writes) none)).0
      ≡ 3)
    × ((read
          (begin_session "09:50" "2025-01-02" "run"
            (after "2025-01-02" "run" (begins "09:30" ∷ writes) none)).1).last_rebalance_started_at
        ≡ some "09:30")
begin_session-counts_example =
    begin_session-counts "2025-01-02" "run" "09:30" "09:50" writes none refl refl

abbrev pending : Write
pending = marks "09:41" "orders_pending" none none

write-answers_example :
    (session_status "2025-01-02" (wrote "2025-01-02" "run" pending none) ≡ some "orders_pending")
    × (session_run_id "2025-01-02" (wrote "2025-01-02" "run" pending none) ≡ some "run")
    × ((other : String)
        → ("2025-01-02" == other) ≡ false
        → (session_status other (wrote "2025-01-02" "run" pending none) ≡ none)
          × (session_attempt_count other (wrote "2025-01-02" "run" pending none) ≡ 0))
    × (pending_rebalance_run_id (wrote "2025-01-02" "run" pending none) ≡ some "run")
write-answers_example = write-answers "2025-01-02" "run" pending none refl refl
