-- ===== src/Session/Attempts.antt =====
-- src/poma/state.py: sequences of writes to the state file.
use poma.Prelude.{
  string_eq, option_eq, ℕ, ◌+◌, true, String, Option, none, some, List, [], ◌∷◌, ◌≡◌, refl, arith,
  ◌==◌, non_empty, ==_refl, false, subst, if◌then◌else◌,
}
use poma.Session.Defs.{
  SessionState, read, begin_session, mark_retry_wait, mark_session, session_attempt_count,
  session_run_id, session_status, pending_rebalance_run_id, is_same_run,
}

-- a write to the state file, with the time of its call
pub data Write : Type 0 where
  begins : String → Write
  waits : String → String → Option String → Write
  marks : String → String → Option String → Option String → Write

-- the writes of one run of a session, in order
abbrev pub after : String → String → List Write → Option SessionState → Option SessionState
after session run [] file = file
after session run (begins now ∷ ws) file =
    after session run ws (begin_session now session run file).1
after session run (waits now reason path ∷ ws) file =
    after session run ws (mark_retry_wait now session run reason path file)
after session run (marks now status path error ∷ ws) file =
    after session run ws (mark_session now session run status path error file)

-- the calls of `begin_session` among the writes
abbrev pub count_begins : List Write → ℕ
count_begins [] = 0
count_begins (begins now ∷ ws) = 1 + count_begins ws
count_begins (waits now reason path ∷ ws) = count_begins ws
count_begins (marks now status path error ∷ ws) = count_begins ws

-- the state is of this run, and has counted `n` attempts, the first of which started at `t`
pub record IsAttempt (session run t : String) (n : ℕ) (file : Option SessionState) : Type 0 where
  pub session_eq : (read file).last_rebalance_session ≡ some session
  pub run_eq : (read file).last_rebalance_run_id ≡ some run
  pub count_eq : (read file).last_rebalance_attempt_count ≡ some n
  pub started_eq : (read file).last_rebalance_started_at ≡ some t

module _ (session run : String) where
  begin-IsAttempt :
      (now t : String) (n : ℕ) (file : Option SessionState)
      → non_empty t ≡ true
      → IsAttempt session run t n file
      → IsAttempt session run t (n + 1) (begin_session now session run file).1
  unfolding begin_session session_attempt_count
  begin-IsAttempt now t n file set h = record {
    session_eq = refl;
    run_eq = refl;
    count_eq = simp (h.session_eq, h.run_eq, h.count_eq, ==_refl);
    started_eq = simp (h.session_eq, h.run_eq, h.started_eq, set, ==_refl);
  }

  -- a state of another run, or none
  first-IsAttempt :
      (t : String) (file : Option SessionState)
      → is_same_run session run (read file) ≡ false
      → IsAttempt session run t 1 (begin_session t session run file).1
  unfolding begin_session
  first-IsAttempt t file other = record {
    session_eq = refl;
    run_eq = refl;
    count_eq = simp other;
    started_eq = simp other;
  }

  after-IsAttempt :
      (ws : List Write) (t : String) (n : ℕ) (file : Option SessionState)
      → non_empty t ≡ true
      → IsAttempt session run t n file
      → IsAttempt session run t (n + count_begins ws) (after session run ws file)
  unfolding mark_retry_wait mark_session
  after-IsAttempt [] t n file set h = subst (λ m. IsAttempt session run t m file) (omega arith) h
  after-IsAttempt (begins now ∷ ws) t n file set h =
      subst (λ m. IsAttempt session run t m (after session run (begins now ∷ ws) file))
        (omega arith)
        (after-IsAttempt ws t (n + 1) (begin_session now session run file).1 set
          (begin-IsAttempt now t n file set h))
  after-IsAttempt (waits now reason path ∷ ws) t n file set h =
      after-IsAttempt ws t n (mark_retry_wait now session run reason path file) set (record {
        session_eq = refl;
        run_eq = refl;
        count_eq = h.count_eq;
        started_eq = h.started_eq;
      })
  after-IsAttempt (marks now status path error ∷ ws) t n file set h =
      after-IsAttempt ws t n (mark_session now session run status path error file) set (record {
        session_eq = refl;
        run_eq = refl;
        count_eq = h.count_eq;
        started_eq = h.started_eq;
      })

  begin-number :
      (now t : String) (n : ℕ) (file : Option SessionState)
      → IsAttempt session run t n file
      → (begin_session now session run file).0 ≡ n + 1
  unfolding begin_session session_attempt_count
  begin-number now t n file h = simp (h.session_eq, h.run_eq, h.count_eq, ==_refl)

  -- Where the state file is not of this run, the run begins at a time whose text is not empty, and
  -- any writes of the run follow, the next `begin_session` returns the number of all its calls for the
  -- run, this one included, and the start time in the file is still that of the first.
  pub begin_session-counts :
      (t now : String) (ws : List Write) (file : Option SessionState)
      → is_same_run session run (read file) ≡ false
      → non_empty t ≡ true
      → let last = begin_session now session run (after session run (begins t ∷ ws) file) in
        (last.0 ≡ count_begins (begins t ∷ ws) + 1)
        × ((read last.1).last_rebalance_started_at ≡ some t)
  begin_session-counts t now ws file other set =
      let h =
        after-IsAttempt ws t 1 (begin_session t session run file).1 set
          (first-IsAttempt t file other) in
      let file' = after session run (begins t ∷ ws) file in
      (
        begin-number now t (1 + count_begins ws) file' h,
        (begin-IsAttempt now t (1 + count_begins ws) file' set h).started_eq,
      )

abbrev pub status_of : Write → String
status_of (begins now) = "running"
status_of (waits now reason path) = "retry_wait"
status_of (marks now status path error) = status

module _ (session run : String) where
  abbrev pub wrote : Write → Option SessionState → Option SessionState
  wrote w file = after session run (w ∷ []) file

  wrote-fields :
      (w : Write) (file : Option SessionState)
      → ((read (wrote w file)).last_rebalance_session ≡ some session)
        × ((read (wrote w file)).last_rebalance_run_id ≡ some run)
        × ((read (wrote w file)).last_rebalance_status ≡ some (status_of w))
  unfolding begin_session mark_retry_wait mark_session
  wrote-fields (begins now) file = (refl, refl, refl)
  wrote-fields (waits now reason path) file = (refl, refl, refl)
  wrote-fields (marks now status path error) file = (refl, refl, refl)

  -- Whatever the state file was, after a write of a session with a run id and a status that are not
  -- empty, the file answers that session with that status and run id, answers any other session with
  -- no status and no attempts, and names the run as pending where the status is `orders_pending` and
  -- no run otherwise.
  pub write-answers :
      (w : Write) (file : Option SessionState)
      → non_empty run ≡ true
      → non_empty (status_of w) ≡ true
      → (session_status session (wrote w file) ≡ some (status_of w))
        × (session_run_id session (wrote w file) ≡ some run)
        × ((other : String)
            → (session == other) ≡ false
            → (session_status other (wrote w file) ≡ none)
              × (session_attempt_count other (wrote w file) ≡ 0))
        × (pending_rebalance_run_id (wrote w file)
            ≡ (if status_of w == "orders_pending" then some run else none))
  unfolding session_status session_run_id session_attempt_count pending_rebalance_run_id
  write-answers w file run_set status_set =
      let (session_eq, run_eq, status_eq) = wrote-fields w file in
      (
        simp (session_eq, status_eq, status_set, ==_refl),
        simp (session_eq, run_eq, run_set, ==_refl),
        λ other ne. (simp (session_eq, ne), simp (session_eq, ne)),
        simp (run_eq, status_eq, run_set) (ground arith),
      )
