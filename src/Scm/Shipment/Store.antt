-- ===== src/Scm/Shipment/Store.antt =====
-- What the shipment service relies on: the repositories keep one status for each shipment, the
-- lines of each order and the lines of each receipt.
use zeus_be.Prelude.{ℕ, String, Option, none, some, ◌≡◌, ◌⊎◌, ok}
use zeus_be.Scm.GoodsReceipt.{GoodsReceipt, GrLineItem}
use zeus_be.Scm.Shipment.{ShipmentDeps, ShipmentStatus, Shipment, ShipmentItem, DispatchFields}

pub record ShipmentStore {W R : Type 0} (D : ShipmentDeps W R) : Type 0 where
  pub status_of : String → W → Option ShipmentStatus
  pub get_reads :
      (i : String) (w : W) (shipment : Shipment)
      → (D.get_shipment_by_id i w).0 ≡ ok (some shipment)
      → (status_of i w ≡ some shipment.status) × (shipment.id ≡ i)
  -- A write succeeds or fails; it changes at most the row that it names.
  pub update_writes :
      (shipment : Shipment) (j : String) (w : W)
      → (status_of j (D.update_shipment shipment w).1 ≡ status_of j w)
        ⊎ ((shipment.id ≡ j)
            × (status_of j (D.update_shipment shipment w).1 ≡ some shipment.status))
  pub create_writes :
      (shipment : Shipment) (j : String) (w : W)
      → (status_of j (D.create_shipment_row shipment w).1 ≡ status_of j w)
        ⊎ ((shipment.id ≡ j)
            × (status_of j w ≡ none)
            × (status_of j (D.create_shipment_row shipment w).1 ≡ some shipment.status))
  pub get_keeps : (i j : String) (w : W) → status_of j (D.get_shipment_by_id i w).1 ≡ status_of j w
  pub fields_keeps :
      (i j : String) (f : DispatchFields) (w : W)
      → status_of j (D.update_shipment_fields i f w).1 ≡ status_of j w
  pub item_keeps :
      (x : ShipmentItem) (j : String) (w : W)
      → status_of j (D.create_shipment_item x w).1 ≡ status_of j w
  pub po_keeps : (i j : String) (w : W) → status_of j (D.get_po_by_id i w).1 ≡ status_of j w
  pub po_lines_keeps :
      (i j : String) (w : W) → status_of j (D.get_po_line_items i w).1 ≡ status_of j w
  pub supplier_keeps :
      (i : ℕ) (j : String) (w : W) → status_of j (D.get_supplier_name i w).1 ≡ status_of j w
  pub grs_keeps : (i j : String) (w : W) → status_of j (D.find_grs_by_po i w).1 ≡ status_of j w
  pub gr_keeps :
      (gr : GoodsReceipt) (j : String) (w : W) → status_of j (D.create_gr gr w).1 ≡ status_of j w
  pub gr_line_keeps :
      (item : GrLineItem) (j : String) (w : W)
      → status_of j (D.save_gr_line_item item w).1 ≡ status_of j w
  pub uuid_keeps : (j : String) (w : W) → status_of j (D.new_uuid w).1 ≡ status_of j w
  pub now_keeps : (j : String) (w : W) → status_of j (D.now w).1 ≡ status_of j w
