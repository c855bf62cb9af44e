-- ===== src/Session.antt =====
-- crates/session: the encrypted multiplexer, the host's input thread and the file transfers.
pub mod Secure
pub mod InputThread
pub mod Transfer
pub mod Adapt
pub mod Handshake
pub mod Bulk
pub mod Host
