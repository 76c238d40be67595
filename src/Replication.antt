-- ===== src/Replication.antt =====
-- link-replication: pulling the identities, signed refs and data of peers.
pub mod Names
pub mod Refdb
pub mod Wants
pub mod Sigrefs
pub mod Peek
pub mod Fetch
pub mod Validate
pub mod State
pub mod Prepare
pub mod Eval
pub mod Tests
