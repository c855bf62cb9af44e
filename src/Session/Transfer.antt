-- ===== src/Session/Transfer.antt =====
-- crates/session/src/transfer.rs: the transfers of a session, `FileManager`. State.antt has its
-- records and the bookkeeping, Incoming.antt the receiving side, Messages.antt what the peer sends
-- and Commands.antt what the user asks for.
pub mod State
pub mod Incoming
pub mod Messages
pub mod Commands
pub mod Sound
pub mod Preserve
pub mod Calls
pub mod Queue
pub mod Stuck
pub mod Access
mod Tests
