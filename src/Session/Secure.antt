-- ===== src/Session/Secure.antt =====
-- crates/session/src/secure.rs: the encrypted multiplexer.
pub mod Fragment
pub mod Send
