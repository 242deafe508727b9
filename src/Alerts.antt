-- ===== src/Alerts.antt =====
-- internal/hub/alerts: the machine that turns observations into transitions, and the evaluation of
-- the rules against the latest samples.
pub mod Machine
pub mod Traces
pub mod Sustained
pub mod Evaluate
pub mod Metrics
pub mod Silence
