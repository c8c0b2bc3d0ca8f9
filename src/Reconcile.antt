-- ===== src/Reconcile.antt =====
-- src/poma/execution_manager.py, class ExecutionManager: reconciliation of the open orders of the ledger
-- with what the broker reports, after the rebalance process has ended.
pub mod Desk
pub mod Match
pub mod Escalation
pub mod Timeouts
pub mod Resume
pub mod Entry
pub mod Pass
pub mod Careful
pub mod Runs
pub mod Replaced
pub mod TimedOut
pub mod Kept
pub mod Matched
pub mod Passes
pub mod Worked
pub mod Sweep
pub mod FailClosed
pub mod Closed
pub mod RefParts
pub mod RoundTrip
pub mod Restore
pub mod Restoring
pub mod RestoreSteps
pub mod Restored
pub mod Whole
pub mod Stale
pub mod Blocking
pub mod Unresolved
