-- ===== src/Dedup.antt =====
-- The guard against repeated Slack deliveries: backend/src/tekijin/slack/dedup.py.
-- The ordered dictionary is the list of its keys, oldest first. The lock makes a call one step.
mod Defs
pub mod Bound
pub mod Memory
mod Examples
unfoldable pub use Defs.*
