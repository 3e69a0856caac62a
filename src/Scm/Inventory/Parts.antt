-- ===== src/Scm/Inventory/Parts.antt =====
-- scm/internal/service/inventory_service.go: parts, with the pictures of their catalog entries.
pub mod Images
use Prim.Native.String.{◌∷◌ as char_then, [] as empty}
use zeus_be.Prelude.{
  ℕ, zero, suc, ◌+◌, ◌==◌, leb, code, ℤ, pos, leb_ℤ, eqb_ℤ, String, str_eq, Char, trim_space,
  to_lower, Bool, true, false, not, ◌&&◌, ◌||◌, Option, none, some, List, [], ◌∷◌, map,
  if◌then◌else◌, Action, Done, pure, raise, attempt, or_error, ensure, ◌>>=◌, ◌>>◌,
}
use zeus_be.Scm.Errors.{ScmError, not_found, message}
use zeus_be.Scm.Inventory.{
  InventoryDeps, Columns, looked_up, some_row, ComponentStatus, in_stock, low_stock, out_of_stock,
  discontinued, no_status, other_status, StockRow, ProductModel, Product, Part, PartCatalog,
  Supplier, SupplierMapping, FieldValue, text, number, float, uuid, time, nil, Params, Meta,
}

abbrev without : ℕ → List ℕ → List ℕ
without key [] = []
without key (j ∷ js) = let rest = without key js in if j == key then rest else j ∷ rest

-- The keys of a map that was filled from the list.
abbrev pub distinct : List ℕ → List ℕ
distinct [] = []
distinct (k ∷ ks) = k ∷ without k (distinct ks)

module _ {W R : Type 0} (D : InventoryDeps W R) where
  open D use {
    get_supplier_by_id, find_sku_mappings_by_sku, get_product_by_id, get_product_by_serial,
    list_product_rows, create_product_row, update_product_row, get_product_model_by_code,
    create_product_model_row, delete_product_model_row, get_part_by_id, list_part_rows,
    create_part_row, update_part_row, update_part_fields, get_part_catalog_by_id,
    list_part_catalog_rows, create_part_catalog_row, update_part_catalog_fields,
    delete_part_catalog_row, get_part_catalog_by_sku, get_component_stock, list_component_stocks,
    create_stock_row, update_stock_fields, delete_stock_row, inventory_metrics, random_below, each,
    lower_rune, zero_f, now,
  }

  abbrev pub with_image : Option (Option PartCatalog) → Part → Part
  with_image (some (some catalog)) part = record part { image_url = catalog.image_url }
  with_image (some none) part = part
  with_image none part = part

  unfoldable pub hydrate_part_image_url : Part → Action W ScmError Part
  hydrate_part_image_url part = do
    catalog ← attempt (get_part_catalog_by_id part.part_catalog_id)
    pure (with_image catalog part)

  abbrev catalog_ids : List Part → List ℕ
  catalog_ids [] = []
  catalog_ids (part ∷ parts) = part.part_catalog_id ∷ catalog_ids parts

  abbrev url_entry :
      ℕ → Option (Option PartCatalog) → List (ℕ × Option String) → List (ℕ × Option String)
  url_entry id (some (some catalog)) urls = (id, catalog.image_url) ∷ urls
  url_entry id (some none) urls = urls
  url_entry id none urls = urls

  unfoldable pub url_map : List ℕ → Action W ScmError (List (ℕ × Option String))
  url_map [] = pure []
  url_map (id ∷ ids) = do
    catalog ← attempt (get_part_catalog_by_id id)
    urls ← url_map ids
    pure (url_entry id catalog urls)

  abbrev imaged : Option (Option String) → Part → Part
  imaged none part = part
  imaged (some url) part = record part { image_url = url }

  abbrev pub all_imaged : List (ℕ × Option String) → List Part → List Part
  all_imaged urls [] = []
  all_imaged urls (part ∷ parts) =
      imaged (looked_up part.part_catalog_id urls) part ∷ all_imaged urls parts

  -- Each catalog entry is read once.
  unfoldable pub hydrate_part_image_urls : List Part → Action W ScmError (List Part)
  unfolding url_map
  hydrate_part_image_urls [] = pure []
  hydrate_part_image_urls (part ∷ parts) = do
    urls ← url_map (each (distinct (catalog_ids (part ∷ parts))))
    pure (all_imaged urls (part ∷ parts))

  pub get_part : ℕ → Action W ScmError Part
  unfolding hydrate_part_image_url
  get_part id = do part ← or_error (get_part_by_id id) not_found; hydrate_part_image_url part

  pub list_parts :
      Option ℕ → Option ℕ → Option ℤ → Params → String → Action W ScmError (List Part × Meta)
  unfolding hydrate_part_image_urls
  list_parts catalog_id product_id condition_id params q = do
    listed ← list_part_rows catalog_id product_id condition_id params q
    parts ← hydrate_part_image_urls listed.0
    pure (parts, listed.1)

  pub create_part : Part → Action W ScmError Done
  create_part = create_part_row

  pub update_part : ℕ → Columns R → Action W ScmError (Option Part)
  update_part id fields = do some_row (update_part_row id fields); get_part_by_id id

  pub update_part_condition : ℕ → ℤ → Action W ScmError Done
  update_part_condition id condition_id =
      some_row (update_part_fields id (("part_condition_id", number condition_id) ∷ []))

  pub mark_part_scrapped : ℕ → Action W ScmError Done
  mark_part_scrapped id = do
    t ← now
    some_row (update_part_fields id (("scrapped_date", time t) ∷ []))

  pub install_part : ℕ → ℕ → Action W ScmError Done
  install_part id product_id = do
    t ← now
    some_row (
        update_part_fields id
          (("product_id", uuid product_id) ∷ ("installation_date", time t) ∷ []))

  pub remove_part : ℕ → Action W ScmError Done
  remove_part id = do
    t ← now
    some_row (update_part_fields id (("product_id", nil) ∷ ("removal_date", time t) ∷ []))
