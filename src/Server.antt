-- ===== src/Server.antt =====
-- server: the backend that registers devices, introduces peers and relays ciphertext.
pub mod State
pub mod Hub
pub mod Ws
