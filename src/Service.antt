-- ===== src/Service.antt =====
-- The HTTP service's state machine: backend/src/tekijin/api/service.py. A request holds its
-- session's lock from its first read to its last write, so it is one function on the service's state.
mod State
mod Flow
mod Examples
mod Rules
pub mod Request
pub mod Handoffs
mod Picked
pub mod Binding
pub mod Recorded
pub mod Progress
pub mod Serving
pub mod Settled
pub mod Apart
pub mod Isolated
pub mod Phase
pub mod Lifecycle
mod Sessions
mod Outcome
mod Requests
mod Draft
mod Fallback
mod Persist
mod Send
mod Run
mod Stream
unfoldable pub use State.*
unfoldable pub use Sessions.*
unfoldable pub use Outcome.*
unfoldable pub use Requests.*
unfoldable pub use Draft.*
unfoldable pub use Fallback.*
unfoldable pub use Persist.*
unfoldable pub use Send.*
unfoldable pub use Run.*
unfoldable pub use Stream.*
