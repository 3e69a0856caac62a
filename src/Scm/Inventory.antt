-- ===== src/Scm/Inventory.antt =====
-- scm/internal/service/inventory_service.go: products, parts, the catalog of parts and the stock of
-- components, over the repository (inventoryServiceRepo), as the server builds it.
mod Model
pub mod Parts
pub mod Stocks
pub mod Catalog
mod Tests
pub use Model.*
use Prim.Native.String.{◌∷◌ as char_then, [] as empty}
use zeus_be.Prelude.{
  ℕ, zero, suc, ◌+◌, ◌==◌, leb, code, ℤ, pos, leb_ℤ, eqb_ℤ, String, str_eq, Char, trim_space,
  to_lower, Bool, true, false, not, ◌&&◌, ◌||◌, Option, none, some, List, [], ◌∷◌, map,
  if◌then◌else◌, Action, Done, pure, raise, attempt, or_error, ensure, ◌>>=◌, ◌>>◌,
}
use zeus_be.Scm.Errors.{ScmError, not_found, message}
use Model.{
  ComponentStatus, in_stock, low_stock, out_of_stock, discontinued, no_status, other_status,
  StockRow, ProductModel, Product, Part, PartCatalog, Supplier, SupplierMapping, FieldValue, text,
  number, float, uuid, time, nil, Params, Meta,
}

-- The columns that an update writes.
abbrev pub Columns : Type 0 → Type 0
Columns R = List (String × FieldValue R)

-- `repository.IInventoryRepository`, `rand.Intn` and the clock. A count of rows is a number. `each`
-- gives the keys of a map in the order in which a loop meets them, which Go leaves open.
pub record InventoryDeps (W R : Type 0) : Type 0 where
  pub get_supplier_by_id : ℕ → Action W ScmError Supplier
  pub find_sku_mappings_by_sku : String → Action W ScmError (List SupplierMapping)
  pub get_product_by_id : ℕ → Action W ScmError (Option (Product R))
  pub get_product_by_serial : String → Action W ScmError (Option (Product R))
  pub list_product_rows : Params → String → Option ℕ → Action W ScmError (List (Product R) × Meta)
  pub create_product_row : Product R → Action W ScmError Done
  pub update_product_row : ℕ → Columns R → Action W ScmError ℤ
  pub get_product_model_by_code : String → Action W ScmError (Option (ProductModel R))
  pub create_product_model_row : ProductModel R → Action W ScmError Done
  pub delete_product_model_row : String → Action W ScmError Done
  pub get_part_by_id : ℕ → Action W ScmError (Option Part)
  pub list_part_rows :
      Option ℕ → Option ℕ → Option ℤ → Params → String → Action W ScmError (List Part × Meta)
  pub create_part_row : Part → Action W ScmError Done
  pub update_part_row : ℕ → Columns R → Action W ScmError ℤ
  pub update_part_fields : ℕ → Columns R → Action W ScmError ℤ
  pub get_part_catalog_by_id : ℕ → Action W ScmError (Option PartCatalog)
  pub list_part_catalog_rows :
      Option ℤ → Params → String → Action W ScmError (List PartCatalog × Meta)
  pub create_part_catalog_row : PartCatalog → Action W ScmError Done
  pub update_part_catalog_fields : String → Columns R → Action W ScmError ℤ
  pub delete_part_catalog_row : String → Action W ScmError ℤ
  pub get_part_catalog_by_sku : String → Action W ScmError (Option PartCatalog)
  pub get_component_stock : String → Action W ScmError (Option (StockRow R))
  pub list_component_stocks :
      Params → String → String → Option ℕ → Action W ScmError (List (StockRow R) × Meta)
  pub create_stock_row : StockRow R → Action W ScmError Done
  pub update_stock_fields : String → Columns R → Action W ScmError ℤ
  pub delete_stock_row : String → Action W ScmError ℤ
  pub inventory_metrics : Action W ScmError (ℤ × ℤ × ℤ × R)
  pub random_below : ℕ → Action W ScmError ℕ
  pub each : List ℕ → List ℕ
  pub lower_rune : Char → Char
  pub zero_f : R
  pub now : Action W ScmError ℤ

abbrev pub looked_up : {A : Type 0} → ℕ → List (ℕ × A) → Option A
looked_up key [] = none
looked_up key ((k, a) ∷ ps) = if k == key then some a else looked_up key ps

module _ {W : Type 0} where
  -- `if err != nil { return err }; if rows == 0 { return ErrNotFound }`
  abbrev pub some_row : Action W ScmError ℤ → Action W ScmError Done
  some_row m = do rows ← m; ensure (not (eqb_ℤ rows (pos 0))) not_found

module _ {W R : Type 0} (D : InventoryDeps W R) where
  open D use {
    get_supplier_by_id, find_sku_mappings_by_sku, get_product_by_id, get_product_by_serial,
    list_product_rows, create_product_row, update_product_row, get_product_model_by_code,
    create_product_model_row, delete_product_model_row, get_part_by_id, list_part_rows,
    create_part_row, update_part_row, update_part_fields, get_part_catalog_by_id,
    list_part_catalog_rows, create_part_catalog_row, update_part_catalog_fields,
    delete_part_catalog_row, get_part_catalog_by_sku, get_component_stock, list_component_stocks,
    create_stock_row, update_stock_fields, delete_stock_row, inventory_metrics, random_below, each,
    lower_rune, zero_f, now,
  }

  pub get_product : ℕ → Action W ScmError (Product R)
  get_product id = or_error (get_product_by_id id) not_found

  pub get_product_by_serial_number : String → Action W ScmError (Product R)
  get_product_by_serial_number serial = or_error (get_product_by_serial serial) not_found

  pub list_products : Params → String → Option ℕ → Action W ScmError (List (Product R) × Meta)
  list_products = list_product_rows

  pub update_product : ℕ → Columns R → Action W ScmError (Option (Product R))
  update_product id fields = do some_row (update_product_row id fields); get_product_by_id id

  pub create_product : Product R → Action W ScmError Done
  create_product = create_product_row

  pub get_product_model : String → Action W ScmError (ProductModel R)
  get_product_model code = or_error (get_product_model_by_code code) not_found

  pub create_product_model : ProductModel R → Action W ScmError Done
  create_product_model = create_product_model_row

  pub delete_product_model : String → Action W ScmError Done
  delete_product_model = delete_product_model_row

  pub get_inventory_metrics : Action W ScmError (ℤ × ℤ × ℤ × R)
  get_inventory_metrics = inventory_metrics
