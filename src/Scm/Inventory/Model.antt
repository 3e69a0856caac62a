-- ===== src/Scm/Inventory/Model.antt =====
-- scm/internal/models: products, parts, their catalog and the stock of components. A uuid is a
-- number with 0 for `uuid.Nil`, a time a number of nanoseconds, and `R` the type of prices.
use zeus_be.Prelude.{ℕ, ℤ, String, Option}

pub data ComponentStatus : Type 0 where
  in_stock low_stock out_of_stock discontinued : ComponentStatus
  -- ""
  no_status : ComponentStatus
  other_status : String → ComponentStatus

-- All columns of `models.ComponentStock` that are not times.
pub record StockRow (R : Type 0) : Type 0 where
  pub sku : String
  pub name : String
  pub category : String
  pub stock_qty : ℤ
  pub reorder_point : ℤ
  pub unit_cost : R
  pub status : ComponentStatus
  pub primary_supplier_id : ℕ
  pub primary_supplier : String
  pub lead_time_days : ℤ
  pub location : String

pub record ProductModel (R : Type 0) : Type 0 where
  pub model_code : String
  pub model_name : String
  pub description : Option String
  pub unit_price : R
  pub image_name : Option String
  pub image_url : Option String

pub record Product (R : Type 0) : Type 0 where
  pub id : ℕ
  pub product_model_code : String
  pub customer_id : ℕ
  pub product_name : String
  pub serial_number : String
  pub product_model : Option (ProductModel R)

pub record Part : Type 0 where
  pub id : ℕ
  pub part_catalog_id : ℕ
  pub product_id : Option ℕ
  pub serial_number : String
  pub part_condition_id : ℤ
  pub manufactured_date : ℤ
  pub installation_date : Option ℤ
  pub removal_date : Option ℤ
  pub scrapped_date : Option ℤ
  pub image_url : Option String

pub record PartCatalog : Type 0 where
  pub id : ℕ
  pub part_number : String
  pub part_types_id : ℤ
  pub mfg_number : String
  pub description : Option String
  pub image_url : Option String
  pub part_mfg_status : ℤ

-- What the service reads of a `models.Supplier`, and of a `models.SkuMapping`.
pub record Supplier : Type 0 where
  pub id : ℕ
  pub name : String
  pub lead_time_days : ℤ

pub record SupplierMapping : Type 0 where
  pub supplier_id : ℕ

-- The values of a `map[string]any` of columns.
pub data FieldValue (R : Type 0) : Type 0 where
  text : String → FieldValue R
  number : ℤ → FieldValue R
  float : R → FieldValue R
  uuid : ℕ → FieldValue R
  time : ℤ → FieldValue R
  nil : FieldValue R

-- scm/internal/pagination/pagination.go
pub record Params : Type 0 where
  pub page : ℤ
  pub limit : ℤ
  pub sort : String
  pub order : String

pub record Meta : Type 0 where
  pub page : ℤ
  pub limit : ℤ
  pub total_rows : ℤ
  pub total_pages : ℤ
