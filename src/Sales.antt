-- ===== src/Sales.antt =====
-- The sales service, sales/internal.
pub mod Errors
pub mod Model
pub mod Clients
pub mod Orders
pub mod Fulfillment
pub mod Valkey
