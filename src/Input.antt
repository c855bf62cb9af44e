-- ===== src/Input.antt =====
-- crates/input: what the host does with input events, and the synchronised clipboard.
pub mod Injector
pub mod Clipboard
