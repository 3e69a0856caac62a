-- ===== src/Mrp.antt =====
-- The MRP service, mrp/internal.
pub mod Errors
pub mod Readiness
pub mod Matrix
pub mod Planning
