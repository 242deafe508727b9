-- ===== src/Hub.antt =====
-- internal/hub: what ties the store, the alert machine, the notifications and Azure together.
pub mod Alerting
pub mod Agreement
pub mod Restart
pub mod Notifying
pub mod Heard
pub mod Actions
pub mod InFlight
pub mod Schedules
pub mod BoundaryOnce
pub mod Reminders
pub mod Cadence
pub mod GuardrailNotices
pub mod ScheduleAlerts
pub mod AzureSync
pub mod SweepRows
pub mod Provisioning
pub mod Provisioned
pub mod Removal
