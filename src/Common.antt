-- ===== src/Common.antt =====
-- crates/common: identifiers, wire helpers and the peer protocol.
pub mod Text
pub mod Ids
pub mod Event
pub mod Peer
pub mod Signaling
