-- ===== src/Cap/Valid.antt =====
-- Well-formed capabilities.
pub mod Defs
pub mod Empty
pub mod Setters
