-- ===== src/Notify.antt =====
-- internal/hub/notify: routes, the queue and the retries of a delivery.
pub mod Message
pub mod Route
pub mod Routing
pub mod Dispatcher
pub mod Queue
pub mod Dropped
pub mod Deliver
pub mod Retries
