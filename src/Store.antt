-- ===== src/Store.antt =====
-- src/poma/order_store.py, in children.
pub mod Lines
pub mod Defs
pub mod View
pub mod Upsert
pub mod Queries
pub mod History
pub mod Refinement
