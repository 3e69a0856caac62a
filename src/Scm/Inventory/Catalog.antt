-- ===== src/Scm/Inventory/Catalog.antt =====
-- scm/internal/service/inventory_service.go: the catalog of parts, each with its stock.
pub mod Stocked
use Prim.Native.String.{◌∷◌ as char_then, [] as empty}
use zeus_be.Prelude.{
  ℕ, zero, suc, ◌+◌, ◌==◌, leb, code, ℤ, pos, leb_ℤ, eqb_ℤ, String, str_eq, Char, trim_space,
  to_lower, Bool, true, false, not, ◌&&◌, ◌||◌, Option, none, some, List, [], ◌∷◌, map,
  if◌then◌else◌, Action, Done, pure, raise, attempt, or_error, ensure, ◌>>=◌, ◌>>◌,
}
use zeus_be.Scm.Inventory.Stocks.{create_component_stock}
use zeus_be.Scm.Errors.{ScmError, not_found, message}
use zeus_be.Scm.Inventory.{
  InventoryDeps, Columns, looked_up, some_row, ComponentStatus, in_stock, low_stock, out_of_stock,
  discontinued, no_status, other_status, StockRow, ProductModel, Product, Part, PartCatalog,
  Supplier, SupplierMapping, FieldValue, text, number, float, uuid, time, nil, Params, Meta,
}

module _ {W R : Type 0} (D : InventoryDeps W R) where
  open D use {
    get_supplier_by_id, find_sku_mappings_by_sku, get_product_by_id, get_product_by_serial,
    list_product_rows, create_product_row, update_product_row, get_product_model_by_code,
    create_product_model_row, delete_product_model_row, get_part_by_id, list_part_rows,
    create_part_row, update_part_row, update_part_fields, get_part_catalog_by_id,
    list_part_catalog_rows, create_part_catalog_row, update_part_catalog_fields,
    delete_part_catalog_row, get_part_catalog_by_sku, get_component_stock, list_component_stocks,
    create_stock_row, update_stock_fields, delete_stock_row, inventory_metrics, random_below, each,
    lower_rune, zero_f, now,
  }

  pub get_part_catalog : ℕ → Action W ScmError PartCatalog
  get_part_catalog id = or_error (get_part_catalog_by_id id) not_found

  pub list_part_catalog : Option ℤ → Params → String → Action W ScmError (List PartCatalog × Meta)
  list_part_catalog = list_part_catalog_rows

  abbrev or_blank : Option String → String
  or_blank none = ""
  or_blank (some s) = s

  -- The stock that a new part starts with.
  abbrev pub first_stock : PartCatalog → R → StockRow R
  first_stock pc price = record {
    sku = pc.part_number;
    name = or_blank pc.description;
    category = "Components";
    stock_qty = pos 0;
    reorder_point = pos 0;
    unit_cost = price;
    status = in_stock;
    primary_supplier_id = 0;
    primary_supplier = "";
    lead_time_days = pos 0;
    location = "";
  }

  unfoldable pub create_part_catalog : PartCatalog → R → Action W ScmError Done
  unfolding create_component_stock
  create_part_catalog pc price = do
    create_part_catalog_row pc
    create_component_stock D (some (first_stock pc price))

  -- The value of a column of a request.
  abbrev column : String → Columns R → Option (FieldValue R)
  column name [] = none
  column name ((k, v) ∷ fields) = if str_eq k name then some v else column name fields

  abbrev rename_stock : String → Option (FieldValue R) → Action W ScmError Done
  rename_stock sku none = pure tt
  rename_stock sku (some desc) = some_row (update_stock_fields sku (("name", desc) ∷ []))

  abbrev entry : String → Option (FieldValue R) → Columns R → Columns R
  entry name none fields = fields
  entry name (some v) fields = (name, v) ∷ fields

  abbrev write_catalog : String → Columns R → Action W ScmError Done
  write_catalog sku [] = pure tt
  write_catalog sku (update ∷ updates) =
      some_row (update_part_catalog_fields sku (update ∷ updates))

  -- Only a `float64` is a price.
  abbrev reprice_stock : String → Option (FieldValue R) → Action W ScmError Done
  reprice_stock sku (some (float price)) =
      some_row (update_stock_fields sku (("unit_cost", float price) ∷ []))
  reprice_stock sku (some (text s)) = pure tt
  reprice_stock sku (some (number n)) = pure tt
  reprice_stock sku (some (uuid i)) = pure tt
  reprice_stock sku (some (time t)) = pure tt
  reprice_stock sku (some nil) = pure tt
  reprice_stock sku none = pure tt

  pub update_part_catalog_by_sku : String → Columns R → Action W ScmError PartCatalog
  update_part_catalog_by_sku sku fields = do
    pc ← or_error (get_part_catalog_by_sku sku) not_found
    rename_stock sku (column "description" fields)
    write_catalog sku (
        entry "description" (column "description" fields)
          (entry "part_mfg_status" (column "part_mfg_status" fields) []))
    reprice_stock sku (column "price" fields)
    pure pc

  pub delete_part_catalog_by_sku : String → Action W ScmError Done
  delete_part_catalog_by_sku sku = do
    some_row (delete_stock_row sku)
    some_row (delete_part_catalog_row sku)

  pub get_part_catalog_with_stock : String → Action W ScmError (PartCatalog × R × ℤ)
  get_part_catalog_with_stock sku = do
    pc ← or_error (get_part_catalog_by_sku sku) not_found
    stock ← or_error (get_component_stock sku) not_found
    pure (pc, stock.unit_cost, stock.stock_qty)
