-- ===== src/Files.antt =====
-- crates/files/src/lib.rs: the names, the receiving and the sending end of a file transfer.
pub mod Names
pub mod Transfer
