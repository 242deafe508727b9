-- ===== src/Auth.antt =====
-- internal/hub/auth.
pub mod Limiter
pub mod Lockout
