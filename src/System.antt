-- ===== src/System.antt =====
-- The system service, system/internal.
pub mod Errors
pub mod Auth
pub mod Users
pub mod Audit
