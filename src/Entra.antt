-- ===== src/Entra.antt =====
-- internal/hub/entra
pub mod Settings
pub mod Flow
pub mod Tokens
pub mod Verify
pub mod Keys
pub mod Genuine
pub mod OneUse
pub mod Saved
