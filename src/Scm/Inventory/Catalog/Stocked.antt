-- ===== src/Scm/Inventory/Catalog/Stocked.antt =====
-- scm/internal/service/inventory_service.go, `CreatePartCatalog`: the stock that comes with a part.
use zeus_be.Prelude.{pos, Option, none, some, attempt, ok, >>=-ok, ◌≡◌, refl}
use zeus_be.Scm.Inventory.{InventoryDeps, StockRow, PartCatalog, Supplier, in_stock, out_of_stock}
use zeus_be.Scm.Inventory.Stocks.{
  supplied, defaulted, resolve_primary_supplier, create_component_stock, derive_component_status,
}
use zeus_be.Scm.Inventory.Catalog.{create_part_catalog, first_stock}

module _ {W R : Type 0} (D : InventoryDeps W R) where
  -- The columns that a supplier leaves alone.
  abbrev pub AsGiven : StockRow R → StockRow R → Type 0
  AsGiven row stock =
      (row.sku ≡ stock.sku)
      × (row.stock_qty ≡ stock.stock_qty)
      × (row.reorder_point ≡ stock.reorder_point)
      × (row.unit_cost ≡ stock.unit_cost)
      × (row.status ≡ stock.status)

  supplied-AsGiven :
      (supplier : Option (Option Supplier)) (stock : StockRow R)
      → AsGiven (supplied D supplier stock) stock
  supplied-AsGiven (some (some supplier)) stock = (refl, refl, refl, refl, refl)
  supplied-AsGiven (some none) stock = (refl, refl, refl, refl, refl)
  supplied-AsGiven none stock = (refl, refl, refl, refl, refl)

  -- A part that is put into the catalog with success has been saved, and then a stock for its
  -- number, at the price, was saved without an error: as In Stock, with the quantity 0, for which
  -- `deriveComponentStatus` gives Out of Stock.
  pub create_part_catalog-in_stock :
      (pc : PartCatalog) (price : R) (w : W)
      → (create_part_catalog D pc price w).0 ≡ ok tt
      → (row : StockRow R) × (u : W) × ((D.create_part_catalog_row pc w).0 ≡ ok tt)
        × ((D.create_stock_row row u).0 ≡ ok tt)
        × (row.sku ≡ pc.part_number)
        × (row.unit_cost ≡ price)
        × (row.stock_qty ≡ pos 0)
        × (row.status ≡ in_stock)
        × (derive_component_status row.stock_qty row.reorder_point ≡ out_of_stock)
  unfolding create_part_catalog create_component_stock derive_component_status
  create_part_catalog-in_stock pc price w h =
      let (_, created, h₁) = >>=-ok (D.create_part_catalog_row pc) _ w tt h in
      let (supplier, _, saved) =
        >>=-ok (attempt (resolve_primary_supplier D pc.part_number)) _ _ tt h₁ in
      let stock = defaulted D (first_stock D pc price) in
      let (sku, qty, point, cost, status) = supplied-AsGiven supplier stock in
      let row = supplied D supplier stock in
      let u =
        (attempt (resolve_primary_supplier D pc.part_number)
          (D.create_part_catalog_row pc w).1).1 in
      let derived : derive_component_status row.stock_qty row.reorder_point ≡ out_of_stock =
        rw qty in
      (row, u, created, saved, sku, cost, qty, status, derived)
