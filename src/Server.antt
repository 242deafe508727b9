-- ===== src/Server.antt =====
-- internal/hub/server: the routes of accounts and of the sign-in.
pub mod Requests
pub mod Handlers
pub mod Routes
pub mod Effects
pub mod PublicRoutes
pub mod GuardedRoutes
pub mod Served
pub mod Privilege
pub mod Sessions
pub mod Runs
pub mod Callbacks
pub mod Lockout
