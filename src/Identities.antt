-- ===== src/Identities.antt =====
-- The crate link-identities/: identity documents, who may sign them, and their verification.
pub mod Delegation
pub mod Document
pub mod Verify
pub mod Tests
