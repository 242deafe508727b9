-- ===== src/Proto.antt =====
-- internal/proto: the messages between the agents and the hub.
pub mod Messages
pub mod Codec
