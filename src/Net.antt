-- ===== src/Net.antt =====
-- The peer-to-peer protocols of librad/src/net.
pub mod Info
pub mod Membership
pub mod Tock
pub mod Broadcast
