-- ===== src/Combine.antt =====
-- src/poma/portfolio_constructor.py, in children.
pub mod Defs
pub mod Attribution
