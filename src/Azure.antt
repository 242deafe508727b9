-- ===== src/Azure.antt =====
-- internal/hub/azure and the rows of internal/hub/store that it writes.
pub mod Async
pub mod Polling
pub mod Client
pub mod Retrying
pub mod Paging
pub mod Delete
pub mod OnlyOurs
pub mod Inventory
pub mod GivenLists
pub mod Catalogue
pub mod OrphanReads
pub mod ProvisionConfig
pub mod Provision
pub mod CreateOrder
