-- ===== src/Scorer.antt =====
-- The candidates that the scorer returns, and what its clients rely on:
-- backend/src/tekijin/scorer/scorer.py.
mod Defs
mod Rank
pub mod Order
pub mod Filled
mod Examples
unfoldable pub use Defs.*
unfoldable pub use Rank.*
