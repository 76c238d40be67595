-- ===== src/Data.antt =====
-- The crate data/: containers with constraints on their length.
pub mod Bounded
mod Tests
