-- ===== src/Scm.antt =====
-- The SCM service (scm/): purchase orders, goods receipts, shipments and the deficit pool.
pub mod Errors
pub mod GoodsReceipt
pub mod PurchaseOrder
pub mod Shipment
pub mod DeficitLock
pub mod Inventory
pub mod Vendors
