-- ===== src/Store.antt =====
-- The write side of the database: backend/src/tekijin/data/writes.py over the tables of
-- backend/src/tekijin/models/tables.py. A write takes the database and returns it changed, or
-- `none` where the database refuses a row: a missing foreign row, or a key that is taken.
mod Rows
mod Tables
mod Questions
mod Shown
mod Notices
pub mod Log
mod Threads
mod Signals
pub mod Delete
pub mod Integrity
pub mod Kept
pub mod Settled
mod Listing
pub mod Ranks
pub mod Reorder
pub mod Newest
pub mod Seen
mod Examples
unfoldable pub use Rows.*
unfoldable pub use Tables.*
unfoldable pub use Questions.*
unfoldable pub use Shown.*
unfoldable pub use Notices.*
unfoldable pub use Threads.*
unfoldable pub use Signals.*
