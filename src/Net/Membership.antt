-- ===== src/Net/Membership.antt =====
-- librad/src/net/protocol/membership.rs and below: the HyParView membership protocol.
pub mod Rng
pub mod View
pub mod Rpc
pub mod Hpv
mod Tests
