-- ===== src/Scm/PurchaseOrder/Model.antt =====
-- scm/internal/models/purchase_order.go. A status is a text in the source; `other` is any text that
-- is none of the six constants. The columns that gorm keeps by itself (creation, update and
-- deletion times) and the names copied from the vendor for display are left out.
use zeus_be.Prelude.{ℕ, ℤ, String, Bool, List, ◌==◌, str_eq}

pub data PoStatus : Type 0 where
  draft approved in_transit received partial void : PoStatus
  other : String → PoStatus

abbrev status_code : PoStatus → ℕ
status_code draft = 0
status_code approved = 1
status_code in_transit = 2
status_code received = 3
status_code partial = 4
status_code void = 5
status_code (other s) = 6

-- `==` on the texts.
abbrev pub status_eq : PoStatus → PoStatus → Bool
status_eq (other s) (other t) = str_eq s t
status_eq s t = status_code s == status_code t

-- `R` is the type of prices, and a uuid is a number with 0 for `uuid.Nil`.
pub record PoLineItem (R : Type 0) : Type 0 where
  pub id : ℕ
  pub po_id : String
  pub sku : String
  pub description : String
  pub ordered_qty : ℤ
  pub received_qty : ℤ
  pub unit_price : R

pub record PurchaseOrder (R : Type 0) : Type 0 where
  pub id : String
  pub vendor_id : ℕ
  pub status : PoStatus
  pub total_value : R
  pub payment_terms : String
  pub notes : String
  pub line_items : List (PoLineItem R)

-- What the services read of a `models.SkuMapping`.
pub record SkuMapping (R : Type 0) : Type 0 where
  pub name : String
  pub unit_price : R
