-- ===== src/Pricing.antt =====
-- src/poma/execution_pricing.py: limit prices, the choice of a reference price from a broker quote
-- with its safety checks, and the repricing of a batch of trades.
mod Limits
mod Quotes
mod Batch
unfoldable pub use Limits.*
unfoldable pub use Quotes.*
unfoldable pub use Batch.*
pub mod Safety
pub mod Accepted
