-- ===== src/Scm/Inventory/Stocks.antt =====
-- scm/internal/service/inventory_service.go: the stock of components, with its suppliers.
pub mod Suppliers
use Prim.Native.String.{◌∷◌ as char_then, [] as empty}
use zeus_be.Prelude.{
  ℕ, zero, suc, ◌+◌, ◌==◌, leb, code, ℤ, pos, leb_ℤ, eqb_ℤ, String, str_eq, Char, trim_space,
  to_lower, Bool, true, false, not, ◌&&◌, ◌||◌, Option, none, some, List, [], ◌∷◌, map,
  if◌then◌else◌, Action, Done, pure, raise, attempt, or_error, ensure, ◌>>=◌, ◌>>◌,
}
use zeus_be.Scm.Errors.{ScmError, not_found, message}
use zeus_be.Scm.Inventory.{
  InventoryDeps, Columns, looked_up, some_row, ComponentStatus, in_stock, low_stock, out_of_stock,
  discontinued, no_status, other_status, StockRow, ProductModel, Product, Part, PartCatalog,
  Supplier, SupplierMapping, FieldValue, text, number, float, uuid, time, nil, Params, Meta,
}

unfoldable pub derive_component_status : ℤ → ℤ → ComponentStatus
derive_component_status stock_qty reorder_point =
    if leb_ℤ stock_qty (pos 0)
    then out_of_stock
    else if leb_ℤ stock_qty reorder_point
    then low_stock
    else in_stock

-- `strings.NewReplacer(" ", "", "_", "", "-", "").Replace(s)`
squeezed : String → String
squeezed empty = empty
squeezed (char_then c s) =
    let rest = squeezed s in
    if code c == 32 || code c == 95 || code c == 45 then rest else char_then c rest

pub normalize_component_status_filter : (Char → Char) → String → String
unfolding squeezed
normalize_component_status_filter lower_rune status =
    let normalized = squeezed (to_lower lower_rune (trim_space status)) in
    if str_eq normalized "" || str_eq normalized "all"
    then ""
    else if str_eq normalized "instock"
    then "In Stock"
    else if str_eq normalized "lowstock"
    then "Low Stock"
    else if str_eq normalized "outofstock"
    then "Out of Stock"
    else if str_eq normalized "discontinued"
    then "Discontinued"
    else status

module _ {W R : Type 0} (D : InventoryDeps W R) where
  open D use {
    get_supplier_by_id, find_sku_mappings_by_sku, get_product_by_id, get_product_by_serial,
    list_product_rows, create_product_row, update_product_row, get_product_model_by_code,
    create_product_model_row, delete_product_model_row, get_part_by_id, list_part_rows,
    create_part_row, update_part_row, update_part_fields, get_part_catalog_by_id,
    list_part_catalog_rows, create_part_catalog_row, update_part_catalog_fields,
    delete_part_catalog_row, get_part_catalog_by_sku, get_component_stock, list_component_stocks,
    create_stock_row, update_stock_fields, delete_stock_row, inventory_metrics, random_below, each,
    lower_rune, zero_f, now,
  }

  -- `rand.Intn`, which gives an index within the count.
  abbrev pick_random_index : ℕ → Action W ScmError ℕ
  pick_random_index count = if leb count 1 then pure 0 else random_below count

  abbrev count_of : List SupplierMapping → ℕ
  count_of [] = 0
  count_of (m ∷ ms) = count_of ms + 1

  abbrev at_index : SupplierMapping → List SupplierMapping → ℕ → SupplierMapping
  at_index m ms zero = m
  at_index m [] (suc i) = m
  at_index m (n ∷ ns) (suc i) = at_index n ns i

  abbrev supplier_among : List SupplierMapping → Action W ScmError (Option Supplier)
  supplier_among [] = pure none
  supplier_among (m ∷ ms) = do
    i ← pick_random_index (count_of (m ∷ ms))
    supplier ← get_supplier_by_id (at_index m ms i).supplier_id
    pure (some supplier)

  unfoldable pub resolve_primary_supplier : String → Action W ScmError (Option Supplier)
  resolve_primary_supplier sku = do mappings ← find_sku_mappings_by_sku sku; supplier_among mappings

  abbrev name_or_read :
      List (ℕ × String) → ℕ → Option String → Action W ScmError (Option String × List (ℕ × String))
  name_or_read names id (some name) = pure (some name, names)
  name_or_read names id none = do
    supplier ← get_supplier_by_id id
    pure (some supplier.name, (id, supplier.name) ∷ names)

  abbrev pub named : Option String → StockRow R → StockRow R
  named none stock = stock
  named (some name) stock = record stock { primary_supplier = name }

  -- The name for an id that is not nil, and the names read so far.
  abbrev name_for :
      List (ℕ × String) → Bool → ℕ → Action W ScmError (Option String × List (ℕ × String))
  name_for names true id = pure (none, names)
  name_for names false id = name_or_read names id (looked_up id names)

  unfoldable pub hydrate_from :
      List (ℕ × String) → List (StockRow R) → Action W ScmError (List (StockRow R))
  hydrate_from names [] = pure []
  hydrate_from names (stock ∷ stocks) = do
    found ← name_for names (stock.primary_supplier_id == 0) stock.primary_supplier_id
    rest ← hydrate_from found.1 stocks
    pure (named found.0 stock ∷ rest)

  unfoldable pub hydrate_stock_suppliers : List (StockRow R) → Action W ScmError (List (StockRow R))
  unfolding hydrate_from
  hydrate_stock_suppliers = hydrate_from []

  abbrev or_text : String → String → String
  or_text s default = if str_eq s "" then default else s

  abbrev or_derived : ComponentStatus → ℤ → ℤ → ComponentStatus
  or_derived no_status stock_qty reorder_point = derive_component_status stock_qty reorder_point
  or_derived in_stock stock_qty reorder_point = in_stock
  or_derived low_stock stock_qty reorder_point = low_stock
  or_derived out_of_stock stock_qty reorder_point = out_of_stock
  or_derived discontinued stock_qty reorder_point = discontinued
  or_derived (other_status s) stock_qty reorder_point = other_status s

  abbrev pub supplied : Option (Option Supplier) → StockRow R → StockRow R
  supplied (some (some supplier)) stock = record stock {
    primary_supplier_id = supplier.id;
    primary_supplier = supplier.name;
    lead_time_days =
        if eqb_ℤ stock.lead_time_days (pos 0)
        then supplier.lead_time_days
        else stock.lead_time_days;
  }
  supplied (some none) stock = stock
  supplied none stock = stock

  abbrev pub defaulted : StockRow R → StockRow R
  defaulted stock = record stock {
    category = or_text stock.category "Components";
    location = or_text stock.location "WH-A / Zone-C1";
    status = or_derived stock.status stock.stock_qty stock.reorder_point;
  }

  unfoldable pub create_component_stock : Option (StockRow R) → Action W ScmError Done
  unfolding resolve_primary_supplier
  create_component_stock none = raise (message "component stock is required")
  create_component_stock (some stock) = do
    supplier ← attempt (resolve_primary_supplier stock.sku)
    create_stock_row (supplied supplier (defaulted stock))

  pub list_stocks :
      Params → String → String → Option ℕ → Action W ScmError (List (StockRow R) × Meta)
  unfolding hydrate_stock_suppliers normalize_component_status_filter
  list_stocks params status q supplier_id = do
    listed ←
        list_component_stocks params (normalize_component_status_filter lower_rune status) q
          supplier_id
    stocks ← hydrate_stock_suppliers listed.0
    pure (stocks, listed.1)

  pub find_all_stocks : Action W ScmError (List (StockRow R))
  unfolding hydrate_stock_suppliers
  find_all_stocks = do
    listed ←
        list_component_stocks (record { page = pos 1; limit = pos 100000; sort = ""; order = "" })
          "" "" none
    hydrate_stock_suppliers listed.0

  abbrev name_of : Option Supplier → StockRow R → StockRow R
  name_of none stock = stock
  name_of (some supplier) stock = record stock { primary_supplier = supplier.name }

  pub get_stock_by_sku : String → Action W ScmError (StockRow R)
  get_stock_by_sku sku = do
    stock ← or_error (get_component_stock sku) not_found
    if stock.primary_supplier_id == 0
        then pure stock
        else (attempt (get_supplier_by_id stock.primary_supplier_id) >>= λ supplier.
            pure (name_of supplier stock))
