-- ===== src/Scm/GoodsReceipt/Store.antt =====
-- What the receipt service relies on: the repositories keep one lock for each receipt and one
-- quantity for each SKU.
use zeus_be.Prelude.{ℤ, String, Option, some, ◌≡◌, ◌≢◌, ◌⊎◌, ok, IsInt64, List}
use zeus_be.Scm.PurchaseOrder.{PurchaseOrder, PoLineItem}
use zeus_be.Scm.GoodsReceipt.{
  GrDeps, GoodsReceipt, GrLineItem, ComponentStock, InventoryLedger, LockFields,
}

-- The holder of a lock, and when the lock ends.
abbrev pub Lock : Type 0
Lock = Option String × Option ℤ

-- No lock and no quantity changes between the two worlds.
abbrev pub Same : {W : Type 0} → (String → W → Lock) → (String → W → ℤ) → W → W → Type 0
Same lock_of stock_of w u =
    ((i : String) → lock_of i u ≡ lock_of i w) × ((s : String) → stock_of s u ≡ stock_of s w)

pub record GrStore {W R : Type 0} (D : GrDeps W R) : Type 0 where
  pub lock_of : String → W → Lock
  pub stock_of : String → W → ℤ
  -- the lines of a receipt
  pub lines_of : String → W → List GrLineItem
  pub lines_read :
      (i : String) (w : W) (items : List GrLineItem)
      → (D.find_gr_line_items i w).0 ≡ ok items
      → items ≡ lines_of i w
  pub get_gr_lines : (i j : String) (w : W) → lines_of j (D.get_gr_by_id i w).1 ≡ lines_of j w
  pub now_lines : (j : String) (w : W) → lines_of j (D.now w).1 ≡ lines_of j w
  pub stock_range : (s : String) (w : W) → IsInt64 (stock_of s w)
  pub get_gr_reads :
      (i : String) (w : W) (gr : GoodsReceipt)
      → (D.get_gr_by_id i w).0 ≡ ok (some gr)
      → (lock_of i w ≡ (gr.locked_by, gr.lock_expires_at)) × (gr.id ≡ i)
  pub get_stock_reads :
      (s : String) (w : W) (stock : ComponentStock)
      → (D.get_stock_by_sku s w).0 ≡ ok stock
      → (stock_of s w ≡ stock.stock_qty) × (stock.sku ≡ s)
  pub get_gr_keeps : (i : String) (w : W) → Same lock_of stock_of w (D.get_gr_by_id i w).1
  pub lines_keeps : (i : String) (w : W) → Same lock_of stock_of w (D.find_gr_line_items i w).1
  pub line_keeps :
      (item : GrLineItem) (w : W) → Same lock_of stock_of w (D.save_gr_line_item item w).1
  pub count_keeps : (i : String) (w : W) → Same lock_of stock_of w (D.count_incomplete_grs i w).1
  pub get_stock_keeps : (s : String) (w : W) → Same lock_of stock_of w (D.get_stock_by_sku s w).1
  pub get_po_keeps : (i : String) (w : W) → Same lock_of stock_of w (D.get_po_by_id i w).1
  pub po_lines_keeps : (i : String) (w : W) → Same lock_of stock_of w (D.get_po_line_items i w).1
  pub po_line_keeps :
      (line : PoLineItem R) (w : W) → Same lock_of stock_of w (D.save_po_line_item line w).1
  pub po_keeps : (po : PurchaseOrder R) (w : W) → Same lock_of stock_of w (D.save_po po w).1
  pub balance_keeps : (s : String) (w : W) → Same lock_of stock_of w (D.get_latest_balance s w).1
  pub entry_keeps : (e : InventoryLedger) (w : W) → Same lock_of stock_of w (D.create_entry e w).1
  pub uuid_keeps : (w : W) → Same lock_of stock_of w (D.new_uuid w).1
  pub now_keeps : (w : W) → Same lock_of stock_of w (D.now w).1
  -- A write succeeds or fails; it changes at most the row that it names.
  pub update_locks :
      (gr : GoodsReceipt) (i : String) (w : W)
      → (lock_of i (D.update_gr gr w).1 ≡ lock_of i w)
        ⊎ ((gr.id ≡ i) × (lock_of i (D.update_gr gr w).1 ≡ (gr.locked_by, gr.lock_expires_at)))
  pub update_stocks :
      (gr : GoodsReceipt) (s : String) (w : W) → stock_of s (D.update_gr gr w).1 ≡ stock_of s w
  pub fields_locks :
      (i j : String) (f : LockFields) (w : W)
      → (lock_of j (D.update_gr_fields i f w).1 ≡ lock_of j w)
        ⊎ ((i ≡ j) × (lock_of j (D.update_gr_fields i f w).1 ≡ (f.locked_by, f.lock_expires_at)))
  pub save_locks :
      (stock : ComponentStock) (i : String) (w : W)
      → lock_of i (D.save_stock stock w).1 ≡ lock_of i w
  pub save_stocks :
      (stock : ComponentStock) (w : W)
      → IsInt64 stock.stock_qty
      → (D.save_stock stock w).0 ≡ ok tt
      → stock_of stock.sku (D.save_stock stock w).1 ≡ stock.stock_qty
  pub save_others :
      (stock : ComponentStock) (s : String) (w : W)
      → stock.sku ≢ s
      → stock_of s (D.save_stock stock w).1 ≡ stock_of s w
