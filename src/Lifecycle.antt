-- ===== src/Lifecycle.antt =====
-- src/poma/order_lifecycle.py, in children: the states, the ledger entries and the order references.
pub mod State
pub mod Entry
pub mod Reference
pub mod Updates
