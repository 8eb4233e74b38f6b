-- ===== src/CapNode/Forest.antt =====
-- The lists of capabilities of the whole kernel: several rings with no node in common, each headed
-- by its sentinel, and every node that is not deleted in one of them.
mod Defs
pub mod Insert
pub mod Delete
pub use Defs.*
