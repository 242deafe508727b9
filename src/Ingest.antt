-- ===== src/Ingest.antt =====
-- internal/hub/ingest: the connections of the agents and what is made of their messages.
pub mod Registry
pub mod OneSocket
pub mod Serve
pub mod Accepting
