-- ===== src/Engine.antt =====
-- src/poma/engine.py, class RebalanceEngine, with an order store: one rebalance from the plan to the
-- results of its orders.
pub mod Inputs
pub mod Parts
pub mod Plan
pub mod Status
pub mod Run
pub mod Checks
pub mod Sound
pub mod Guarded
