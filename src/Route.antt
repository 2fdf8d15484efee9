-- ===== src/Route.antt =====
-- The shapes that retrieval hands on, and the route decision:
-- backend/src/tekijin/agent/state.py and agent/route.py.
-- Similarities and fusion scores are counted in ten-thousandths; only their order is used here.
-- The reason of a decision is kept as the template that the code fills in, with its values.
mod Defs
pub mod Exact
pub mod Order
mod Examples
unfoldable pub use Defs.*
