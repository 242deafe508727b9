-- ===== src/Agent.antt =====
-- internal/agent: the link that pushes samples to the hub.
pub mod Buffer
pub mod Link
pub mod Replay
