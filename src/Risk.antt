-- ===== src/Risk.antt =====
-- src/poma/risk.py, in children.
pub mod Tickers
pub mod Planning
pub mod Limits
pub mod Planned
pub mod Trades
pub mod Checks
