-- ===== src/Session.antt =====
-- src/poma/state.py, in children.
pub mod Defs
pub mod Attempts
