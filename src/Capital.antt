-- ===== src/Capital.antt =====
-- src/poma/portfolio.py, in children.
pub mod Defs
pub mod Sleeves
