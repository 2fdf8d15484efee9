-- ===== src/Events.antt =====
-- The event stream's vocabulary: backend/src/tekijin/api/events.py, and the event data of
-- backend/src/tekijin/api/schemas.py.
mod Wire
pub mod Replay
mod Examples
unfoldable pub use Wire.*
