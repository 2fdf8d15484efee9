-- ===== src/RateLimit.antt =====
-- The sliding-window limiter: backend/src/tekijin/api/rate_limit.py.
-- Times are microseconds. `bucket[0] < now - window` is written `bucket[0] + window < now`.
-- The lock makes a call of `allow` one step.
mod Defs
pub mod Window
mod Examples
unfoldable pub use Defs.*
