-- ===== src/Scm/Inventory/Tests.antt =====
-- A warehouse in memory, and the theorems at it.
use zeus_be.Prelude.{
  ℕ, ◌==◌, ℤ, pos, String, Option, none, some, List, [], ◌∷◌, map, if◌then◌else◌, Result, ok, err,
  attempt, ◌>>=◌, ◌≡◌, refl,
}
use zeus_be.Scm.Errors.{ScmError, not_found}
use zeus_be.Scm.Inventory.{
  InventoryDeps, StockRow, Part, PartCatalog, Supplier, in_stock, out_of_stock,
}
use zeus_be.Scm.Inventory.Parts.{hydrate_part_image_url, hydrate_part_image_urls}
use zeus_be.Scm.Inventory.Parts.Images.{Catalog, with_own_image, hydrate_part_image_urls-alone}
use zeus_be.Scm.Inventory.Stocks.{
  hydrate_stock_suppliers, create_component_stock, resolve_primary_supplier,
  derive_component_status,
}
use zeus_be.Scm.Inventory.Stocks.Suppliers.{Suppliers, hydrated, hydrate_stock_suppliers-hydrated}
use zeus_be.Scm.Inventory.Catalog.{create_part_catalog}
use zeus_be.Scm.Inventory.Catalog.Stocked.{create_part_catalog-in_stock}

abbrev acme : Supplier
acme = record { id = 1; name = "Acme"; lead_time_days = pos 7 }

abbrev globex : Supplier
globex = record { id = 2; name = "Globex"; lead_time_days = pos 3 }

abbrev supplier_with : ℕ → Result ScmError Supplier
supplier_with i = if i == 1 then ok acme else if i == 2 then ok globex else err not_found

abbrev bolt : PartCatalog
bolt = record {
  id = 4;
  part_number = "B-4";
  part_types_id = pos 1;
  mfg_number = "M";
  description = some "bolt";
  image_url = some "bolt.png";
  part_mfg_status = pos 1;
}

abbrev entry_with : ℕ → Option PartCatalog
entry_with i = if i == 4 then some bolt else none

-- The world is the last stock that was created.
abbrev warehouse : InventoryDeps (Option (StockRow ℤ)) ℤ
warehouse = record {
  get_supplier_by_id = λ i w. (supplier_with i, w);
  find_sku_mappings_by_sku = λ sku w. (ok (record { supplier_id = 2 } ∷ []), w);
  get_product_by_id = λ i w. (ok none, w);
  get_product_by_serial = λ s w. (ok none, w);
  list_product_rows = λ params q c w. (err not_found, w);
  create_product_row = λ p w. (ok tt, w);
  update_product_row = λ i fields w. (ok (pos 1), w);
  get_product_model_by_code = λ code w. (ok none, w);
  create_product_model_row = λ m w. (ok tt, w);
  delete_product_model_row = λ code w. (ok tt, w);
  get_part_by_id = λ i w. (ok none, w);
  list_part_rows = λ c p k params q w. (err not_found, w);
  create_part_row = λ p w. (ok tt, w);
  update_part_row = λ i fields w. (ok (pos 1), w);
  update_part_fields = λ i fields w. (ok (pos 1), w);
  get_part_catalog_by_id = λ i w. (ok (entry_with i), w);
  list_part_catalog_rows = λ t params q w. (err not_found, w);
  create_part_catalog_row = λ pc w. (ok tt, w);
  update_part_catalog_fields = λ sku fields w. (ok (pos 1), w);
  delete_part_catalog_row = λ sku w. (ok (pos 1), w);
  get_part_catalog_by_sku = λ sku w. (ok (some bolt), w);
  get_component_stock = λ sku w. (ok w, w);
  list_component_stocks = λ params status q supplier w. (err not_found, w);
  create_stock_row = λ stock w. (ok tt, some stock);
  update_stock_fields = λ sku fields w. (ok (pos 1), w);
  delete_stock_row = λ sku w. (ok (pos 1), none);
  inventory_metrics = λ w. (ok (pos 0, pos 0, pos 0, pos 0), w);
  random_below = λ n w. (ok 0, w);
  each = λ keys. keys;
  lower_rune = λ c. c;
  zero_f = pos 0;
  now = λ w. (ok (pos 5), w);
}

abbrev stock_of : String → ℕ → StockRow ℤ
stock_of sku supplier = record {
  sku = sku;
  name = sku;
  category = "Components";
  stock_qty = pos 5;
  reorder_point = pos 1;
  unit_cost = pos 10;
  status = in_stock;
  primary_supplier_id = supplier;
  primary_supplier = "";
  lead_time_days = pos 0;
  location = "";
}

abbrev suppliers : Suppliers warehouse
suppliers = record { supplier_of = supplier_with; reads = λ i w. refl }

-- Two stocks of one supplier, one of none and one of another.
abbrev four_stocks : List (StockRow ℤ)
four_stocks = stock_of "a" 1 ∷ stock_of "b" 1 ∷ stock_of "c" 0 ∷ stock_of "d" 2 ∷ []

hydrate_stock_suppliers-hydrated_example :
    (hydrate_stock_suppliers warehouse four_stocks none).0 ≡ hydrated supplier_with four_stocks
hydrate_stock_suppliers-hydrated_example =
    hydrate_stock_suppliers-hydrated warehouse suppliers four_stocks none

abbrev catalog : Catalog warehouse
unfolding attempt
catalog = record { catalog_of = λ i. some (entry_with i); reads = λ i w. refl }

abbrev part_of : ℕ → ℕ → Part
part_of id catalog_id = record {
  id = id;
  part_catalog_id = catalog_id;
  product_id = none;
  serial_number = "S";
  part_condition_id = pos 1;
  manufactured_date = pos 0;
  installation_date = none;
  removal_date = none;
  scrapped_date = none;
  image_url = none;
}

abbrev three_parts : List Part
three_parts = part_of 1 4 ∷ part_of 2 9 ∷ part_of 3 4 ∷ []

hydrate_part_image_urls-alone_example :
    ((part : Part) (v : Option (StockRow ℤ))
      → (hydrate_part_image_url warehouse part v).0 ≡ ok (with_own_image warehouse catalog part))
    × ((hydrate_part_image_urls warehouse three_parts none).0
        ≡ ok (map (with_own_image warehouse catalog) three_parts))
hydrate_part_image_urls-alone_example =
    hydrate_part_image_urls-alone warehouse catalog (λ keys i h. h) three_parts none

create_part_catalog-in_stock_example :
    (row : StockRow ℤ) × (u : Option (StockRow ℤ)) × ((warehouse.create_part_catalog_row bolt
        none).0
      ≡ ok tt)
    × ((warehouse.create_stock_row row u).0 ≡ ok tt)
    × (row.sku ≡ "B-4")
    × (row.unit_cost ≡ pos 3)
    × (row.stock_qty ≡ pos 0)
    × (row.status ≡ in_stock)
    × (derive_component_status row.stock_qty row.reorder_point ≡ out_of_stock)
unfolding create_part_catalog create_component_stock resolve_primary_supplier ◌>>=◌ attempt
create_part_catalog-in_stock_example = create_part_catalog-in_stock warehouse bolt (pos 3) none refl
