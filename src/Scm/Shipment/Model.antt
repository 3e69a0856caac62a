-- ===== src/Scm/Shipment/Model.antt =====
-- scm/internal/models/shipment.go: the columns that the shipment service reads or writes. `other` is
-- a text that is none of the four statuses. A time is a number of nanoseconds.
use zeus_be.Prelude.{ℕ, ℤ, String, str_eq, Option, Bool, ◌==◌}

pub data ShipmentStatus : Type 0 where
  scheduled in_transit delivered delayed : ShipmentStatus
  other : String → ShipmentStatus

abbrev shipment_code : ShipmentStatus → ℕ
shipment_code scheduled = 0
shipment_code in_transit = 1
shipment_code delivered = 2
shipment_code delayed = 3
shipment_code (other s) = 4

-- `==` on the texts.
abbrev pub shipment_eq : ShipmentStatus → ShipmentStatus → Bool
shipment_eq (other s) (other t) = str_eq s t
shipment_eq s t = shipment_code s == shipment_code t

pub record Shipment : Type 0 where
  pub id : String
  pub po_ref : String
  pub supplier_id : ℕ
  pub supplier_name : String
  pub status : ShipmentStatus
  pub ship_date : ℤ
  pub locked_by : Option String
  pub lock_expires_at : Option ℤ

pub record ShipmentItem : Type 0 where
  pub id : ℕ
  pub shipment_id : String
  pub sku : String
  pub description : String
  pub qty : ℤ

-- The columns that `UpdateShipmentFields` sets; `operator` is the id and the name, where they are set.
pub record DispatchFields : Type 0 where
  pub locked_by : Option String
  pub lock_expires_at : Option ℤ
  pub operator : Option (String × String)
