-- ===== src/Execution.antt =====
-- src/poma/execution_manager.py, class ExecutionManager: staged submission behind an interface of the
-- broker and one of the durable order ledger.
pub mod World
pub mod Ledger
pub mod FileLedger
pub mod Replay
pub mod Mentions
pub mod Reprice
pub mod Buys
pub mod Submit
pub mod Recorded
pub mod Invariant
pub mod References
pub mod Actions
pub mod Barrier
pub mod Repriced
pub mod NoResend
