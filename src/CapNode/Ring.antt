-- ===== src/CapNode/Ring.antt =====
-- A list of capabilities as a ring of nodes: from a node the `next` links run through the others
-- and back, and the `prev` links run the other way.
pub mod Rotate
pub mod Insert
pub mod Delete
pub mod Move
mod Defs
pub use Defs.*
