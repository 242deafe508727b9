-- ===== src/Guardrails.antt =====
-- internal/hub/guardrails: the budget, orphan and schedule rules as pure functions.
pub mod Transitions
pub mod Settled
pub mod Budget
pub mod Resolution
pub mod Orphans
pub mod OrphanStates
pub mod Windows
pub mod WindowChecks
pub mod Schedule
pub mod Intervals
pub mod Boundaries
