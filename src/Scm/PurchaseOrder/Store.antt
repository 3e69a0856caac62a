-- ===== src/Scm/PurchaseOrder/Store.antt =====
-- A store of purchase orders that keeps one row for each id: what the lifecycle of an order rests on.
use zeus_be.Prelude.{ℕ, ℤ, String, ◌≡◌, ◌⊎◌, Option, none, some, List, Action, ok, true}
use zeus_be.Scm.Errors.{ScmError}
use zeus_be.Scm.PurchaseOrder.{PoStatus, draft, PurchaseOrder, PoLineItem, PoDeps, valid_transition}

-- A read answers from the store and changes no status. A write sets the status of its own row, or
-- fails and sets none; a new row has an id that no row had.
pub record PoStore {W R : Type 0} (D : PoDeps W R) : Type 0 where
  pub status_of : String → W → Option PoStatus
  pub get_reads :
      (i : String) (w : W) (po : PurchaseOrder R)
      → (D.get_po_by_id i w).0 ≡ ok (some po)
      → (status_of i w ≡ some po.status) × (po.id ≡ i)
  pub get_keeps : (i j : String) (w : W) → status_of j (D.get_po_by_id i w).1 ≡ status_of j w
  pub lines_keeps : (i j : String) (w : W) → status_of j (D.get_po_line_items i w).1 ≡ status_of j w
  pub find_keeps :
      (v : ℕ) (ss : List PoStatus) (j : String) (w : W)
      → status_of j (D.find_po_by_vendor_and_statuses v ss w).1 ≡ status_of j w
  pub count_keeps :
      (y : ℤ) (j : String) (w : W) → status_of j (D.count_pos_by_year y w).1 ≡ status_of j w
  pub mapping_keeps :
      (v : ℕ) (s j : String) (w : W) → status_of j (D.find_sku_mapping v s w).1 ≡ status_of j w
  pub cost_keeps : (s j : String) (w : W) → status_of j (D.get_unit_cost s w).1 ≡ status_of j w
  pub lock_keeps :
      (s j : String) (q : ℤ) (w : W) → status_of j (D.lock_deficit s q w).1 ≡ status_of j w
  pub uuid_keeps : (j : String) (w : W) → status_of j (D.new_uuid w).1 ≡ status_of j w
  pub year_keeps : (j : String) (w : W) → status_of j (D.current_year w).1 ≡ status_of j w
  pub receipts_keeps :
      (count : String → Action W ScmError ℤ) (i j : String) (w : W)
      → D.count_incomplete_grs ≡ some count
      → status_of j (count i w).1 ≡ status_of j w
  pub update_writes :
      (i j : String) (s : PoStatus) (w : W)
      → (status_of j (D.update_po_status i s w).1 ≡ status_of j w)
        ⊎ ((i ≡ j) × (status_of j (D.update_po_status i s w).1 ≡ some s))
  pub save_writes :
      (po : PurchaseOrder R) (j : String) (w : W)
      → (status_of j (D.save_po po w).1 ≡ status_of j w)
        ⊎ ((po.id ≡ j) × (status_of j (D.save_po po w).1 ≡ some po.status))
  pub create_writes :
      (po : PurchaseOrder R) (j : String) (w : W)
      → (status_of j (D.create_po_row po w).1 ≡ status_of j w)
        ⊎ ((po.id ≡ j)
            × (status_of j w ≡ none)
            × (status_of j (D.create_po_row po w).1 ≡ some po.status))
  pub line_keeps :
      (item : PoLineItem R) (j : String) (w : W)
      → status_of j (D.create_po_line_item item w).1 ≡ status_of j w

-- What one call may do to the status of one order.
pub data Move (a b : Option PoStatus) : Type 0 where
  stay : b ≡ a → Move a b
  born : a ≡ none → b ≡ some draft → Move a b
  step : (s t : PoStatus) → a ≡ some s → b ≡ some t → valid_transition s t ≡ true → Move a b
