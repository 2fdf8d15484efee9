-- ===== src/Agent.antt =====
-- The flow of one question: backend/src/tekijin/agent/state.py, nodes.py and graph.py.
mod State
pub mod Deps
mod Pick
mod Nodes
mod Handoff
mod Answering
pub mod Graph
mod Examples
unfoldable pub use State.*
unfoldable pub use Pick.*
unfoldable pub use Nodes.*
unfoldable pub use Handoff.*
unfoldable pub use Answering.*
pub use Pick.Clean.{IsClean}
