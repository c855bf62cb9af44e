-- ===== src/Service.antt =====
-- crates/service: the privileged service on the host.
pub mod Broker
