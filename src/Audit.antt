-- ===== src/Audit.antt =====
-- src/poma/market_calendar.py, src/poma/rebalance_quality.py and src/poma/recovery_readiness.py: whether a
-- rebalance may run, and what is certified after one.
pub mod Window
pub mod Quality
pub mod Holdings
pub mod Reached
pub mod Recovery
pub mod Recovered
