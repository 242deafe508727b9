-- ===== src/Examples.antt =====
-- Runs of the theorems at concrete inputs.
pub mod Data
pub mod Alerts
pub mod Guardrails
pub mod Schedules
pub mod Notify
pub mod Hub
pub mod Services
pub mod Actions
pub mod Admins
pub mod Fleet
pub mod Sync
pub mod SignIn
