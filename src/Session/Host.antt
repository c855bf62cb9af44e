-- ===== src/Session/Host.antt =====
-- crates/session/src/host.rs: the host's side of an authenticated session.
pub mod State
pub mod Turn
pub mod Kept
pub mod Granted
mod Tests
