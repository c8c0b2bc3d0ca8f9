-- ===== src/Policy.antt =====
-- src/poma/execution_policy.py: the quantity that an instrument can execute (Defs), and the rounding
-- of a plan's trades to it (Apply), with what it leaves (Tradable).
mod Defs
mod Apply
pub mod Tradable
unfoldable pub use Defs.*
unfoldable pub use Apply.*
