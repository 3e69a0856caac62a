-- ===== src/Scm/GoodsReceipt/Model.antt =====
-- scm/internal/models/goods_receipt.go, inventory.go and inventory_ledger.go: the columns that the
-- receipt service reads or writes. A time is a number of nanoseconds.
use zeus_be.Prelude.{ℕ, ℤ, String, Option, Bool}

pub data GrStatus : Type 0 where
  pending inspected complete discrepancy : GrStatus

pub record GoodsReceipt : Type 0 where
  pub id : String
  pub po_ref : String
  pub vendor_id : ℕ
  pub status : GrStatus
  pub arrival_date : ℤ
  pub operator_id : String
  pub operator_name : String
  pub locked_by : Option String
  pub lock_expires_at : Option ℤ

pub record GrLineItem : Type 0 where
  pub id : ℕ
  pub gr_id : String
  pub sku : String
  pub name : String
  pub ordered_qty : ℤ
  pub received_qty : Option ℤ
  pub defective_qty : Option ℤ
  pub aging_sensitive : Bool
  pub production_date : Option ℤ
  pub aging_label : String

-- What the service reads and writes of a `models.ComponentStock`.
pub record ComponentStock : Type 0 where
  pub sku : String
  pub stock_qty : ℤ

-- `models.InventoryLedger`, whose type is IN and whose reference type is goods_receipt here.
pub record InventoryLedger : Type 0 where
  pub id : ℕ
  pub sku : String
  pub qty_change : ℤ
  pub running_balance : ℤ
  pub location : String
  pub operator_id : String
  pub operator_name : String
  pub reference : String
  pub reference_id : String

-- The columns of `UpdateGRFields`; `none` leaves the column alone.
pub record LockFields : Type 0 where
  pub locked_by : Option String
  pub lock_expires_at : Option ℤ
  pub operator : Option (String × String)
