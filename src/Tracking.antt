-- ===== src/Tracking.antt =====
-- The crate link-tracking/: which peers and identities are tracked, and with which configuration.
pub mod Policy
pub mod Reference
pub mod Refdb
pub mod Ops
pub mod Batch
pub mod Config
pub mod Tests
