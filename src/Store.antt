-- ===== src/Store.antt =====
-- internal/hub/store: the rows that the hub keeps in SQLite and the statements on them. A table is the
-- list of its rows; a statement is a function on that list.
pub mod Rows
pub mod AlertEvents
pub mod Deliveries
pub mod Purge
pub mod AzureActions
pub mod OpenActions
pub mod Settings
pub mod Users
pub mod AdminCounts
pub mod LastAdmin
pub mod PasswordChange
pub mod Stamps
pub mod Hosts
pub mod Stale
pub mod Samples
pub mod Containers
pub mod Inventory
pub mod Sweep
pub mod Provisions
