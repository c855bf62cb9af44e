-- ===== src/Elevate.antt =====
-- crates/elevate: the protocol of elevated control.
pub mod Proto
