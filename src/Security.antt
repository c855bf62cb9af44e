-- ===== src/Security.antt =====
-- crates/security: the failure limiter, the key exchange, passwords and the ordered channel.
pub mod Limiter
pub mod Channel
pub mod Pake
pub mod Random
