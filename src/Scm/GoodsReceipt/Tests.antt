-- ===== src/Scm/GoodsReceipt/Tests.antt =====
-- A warehouse in memory, and the theorems at it.
use zeus_be.Prelude.{
  ℤ, pos, ◌+ℤ◌, ◌<ℤ◌, wrap64, wrap64-eq, wrap64-IsInt64, String, str_eq, eq_iff, false, Option,
  none, some, List, [], ◌∷◌, if◌then◌else◌, Result, ok, attempt, discard, or_error, ensure, ◌>>=◌,
  ◌≡◌, ◌≢◌, ◌⊎◌, refl, sym, subst, ◌∙◌, ap, arith, inr,
}
use zeus_be.Scm.Errors.{ScmError}
use zeus_be.Scm.PurchaseOrder.{PurchaseOrder, PoLineItem, in_transit}
use zeus_be.Scm.GoodsReceipt.{
  GrDeps, pending, GrLineItem, GoodsReceipt, ComponentStock, Count, acquires, processes, run,
  acquire_lock, process_blind_receipt, receive_lines, receive_line, turn, close_receipt, is_expired,
  label_of, enter_received, update_po_lines, record_entry, retry_entry,
}
use zeus_be.Scm.GoodsReceipt.Store.{GrStore, Lock}
use zeus_be.Scm.GoodsReceipt.Stock.{process_blind_receipt-stock, counted}
use zeus_be.Scm.GoodsReceipt.Exclusive.{run-exclusive}

-- The locks of the receipts and the stock of the parts.
record Db : Type 0 where
  locks : String → Lock
  stock : String → ℤ

abbrev row : String → Lock → GoodsReceipt
row i lock = record {
  id = i;
  po_ref = "PO-1";
  vendor_id = 1;
  status = pending;
  arrival_date = pos 0;
  operator_id = "";
  operator_name = "";
  locked_by = lock.0;
  lock_expires_at = lock.1;
}

abbrev line : String → GrLineItem
line sku = record {
  id = 1;
  gr_id = "GR-1";
  sku = sku;
  name = "";
  ordered_qty = pos 3;
  received_qty = none;
  defective_qty = none;
  aging_sensitive = false;
  production_date = none;
  aging_label = "";
}

abbrev lines : List GrLineItem
lines = line "CPU" ∷ line "FAN" ∷ []

abbrev set_lock : String → Lock → Db → Db
set_lock i lock w = record w { locks = λ j. if str_eq i j then lock else w.locks j }

abbrev set_stock : ComponentStock → Db → Db
set_stock st w = record w { stock = λ s. if str_eq st.sku s then st.stock_qty else w.stock s }

abbrev order_line : PoLineItem ℤ
order_line = record {
  id = 7;
  po_id = "PO-1";
  sku = "CPU";
  description = "";
  ordered_qty = pos 3;
  received_qty = pos 0;
  unit_price = pos 50;
}

abbrev order : PurchaseOrder ℤ
order = record {
  id = "PO-1";
  vendor_id = 1;
  status = in_transit;
  total_value = pos 150;
  payment_terms = "";
  notes = "";
  line_items = [];
}

abbrev memory : GrDeps Db ℤ
memory = record {
  get_gr_by_id = λ i w. (ok (some (row i (w.locks i))), w);
  find_gr_line_items = λ i w. (ok lines, w);
  save_gr_line_item = λ item w. (ok tt, w);
  update_gr = λ gr w. (ok tt, set_lock gr.id (gr.locked_by, gr.lock_expires_at) w);
  update_gr_fields = λ i f w. (ok tt, set_lock i (f.locked_by, f.lock_expires_at) w);
  count_incomplete_grs = λ i w. (ok (pos 0), w);
  get_stock_by_sku = λ s w. (ok (record { sku = s; stock_qty = wrap64 (w.stock s) }), w);
  save_stock = λ st w. (ok tt, set_stock st w);
  get_po_by_id = λ i w. (ok (some order), w);
  get_po_line_items = λ i w. (ok (order_line ∷ []), w);
  save_po_line_item = λ item w. (ok tt, w);
  save_po = λ po w. (ok tt, w);
  get_latest_balance = λ s w. (ok (pos 0), w);
  create_entry = λ e w. (ok tt, w);
  new_uuid = λ w. (ok 1, w);
  now = λ w. (ok (pos 5), w);
}

lock_writes :
    (i j : String) (lock : Lock) (w : Db)
    → ((set_lock i lock w).locks j ≡ w.locks j) ⊎ ((i ≡ j) × ((set_lock i lock w).locks j ≡ lock))
lock_writes i j lock w = ground (arith, eq_iff i j)

stock_writes : (st : ComponentStock) (w : Db) → (set_stock st w).stock st.sku ≡ st.stock_qty
stock_writes st w = ground (arith, eq_iff st.sku st.sku)

stock_others :
    (st : ComponentStock) (s : String) (w : Db) → st.sku ≢ s → (set_stock st w).stock s ≡ w.stock s
stock_others st s w h = ground (arith, eq_iff st.sku s)

ok-injective : {A : Type 0} {a b : A} → ◌≡◌ {A = Result ScmError A} (ok a) (ok b) → a ≡ b
ok-injective h = cc

gr_reads :
    (i : String) (w : Db) (gr : GoodsReceipt)
    → ◌≡◌ {A = Result ScmError (Option GoodsReceipt)} (ok (some (row i (w.locks i)))) (ok (some gr))
    → (w.locks i ≡ (gr.locked_by, gr.lock_expires_at)) × (gr.id ≡ i)
gr_reads i w gr h =
    let e : row i (w.locks i) ≡ gr = cc in
    (
      ap (λ (g : GoodsReceipt). (g.locked_by, g.lock_expires_at)) e,
      ap (λ (g : GoodsReceipt). g.id) (sym e),
    )

stock_reads :
    (s : String) (w : Db) (st : ComponentStock)
    → ◌≡◌ {A = Result ScmError ComponentStock}
        (ok (record { sku = s; stock_qty = wrap64 (w.stock s) }))
        (ok st)
    → (wrap64 (w.stock s) ≡ st.stock_qty) × (st.sku ≡ s)
stock_reads s w st h =
    let e : record { sku = s; stock_qty = wrap64 (w.stock s) } ≡ st = cc in
    (ap (λ (g : ComponentStock). g.stock_qty) e, ap (λ (g : ComponentStock). g.sku) (sym e))

abbrev quiet :
    (w : Db)
    → ((i : String) → w.locks i ≡ w.locks i)
      × ((s : String) → wrap64 (w.stock s) ≡ wrap64 (w.stock s))
quiet w = (λ i. refl, λ s. refl)

abbrev memory_store : GrStore memory
memory_store = record {
  lock_of = λ i w. w.locks i;
  stock_of = λ s w. wrap64 (w.stock s);
  lines_of = λ i w. lines;
  lines_read = λ i w items h. sym (ok-injective h);
  get_gr_lines = λ i j w. refl;
  now_lines = λ j w. refl;
  stock_range = λ s w. wrap64-IsInt64 (w.stock s);
  get_gr_reads = gr_reads;
  get_stock_reads = stock_reads;
  get_gr_keeps = λ i w. quiet w;
  lines_keeps = λ i w. quiet w;
  line_keeps = λ i w. quiet w;
  count_keeps = λ i w. quiet w;
  get_stock_keeps = λ i w. quiet w;
  get_po_keeps = λ i w. quiet w;
  po_lines_keeps = λ i w. quiet w;
  po_line_keeps = λ i w. quiet w;
  po_keeps = λ i w. quiet w;
  balance_keeps = λ i w. quiet w;
  entry_keeps = λ i w. quiet w;
  uuid_keeps = λ w. quiet w;
  now_keeps = λ w. quiet w;
  update_locks = λ gr i w. lock_writes gr.id i (gr.locked_by, gr.lock_expires_at) w;
  update_stocks = λ gr s w. refl;
  fields_locks = λ i j f w. lock_writes i j (f.locked_by, f.lock_expires_at) w;
  save_locks = λ st i w. refl;
  save_stocks = λ st w range _. ap wrap64 (stock_writes st w) ∙ wrap64-eq st.stock_qty range;
  save_others = λ st s w h. ap wrap64 (stock_others st s w h);
}

abbrev counts : String → Option Count
counts s = if str_eq s "CPU" then some (record { received = pos 3; defective = pos 0 }) else none

abbrev held : Db
held = record { locks = λ i. (some "ann", some (pos 9)); stock = λ s. pos 4 }

process_blind_receipt-stock_example :
    memory_store.stock_of "CPU"
      (process_blind_receipt memory (pos 100) "Ann" "GR-1" "ann" counts held).1
    ≡ wrap64 (memory_store.stock_of "CPU" held +ℤ counted "CPU" counts lines)
unfolding process_blind_receipt receive_lines turn receive_line close_receipt is_expired label_of
    enter_received record_entry retry_entry update_po_lines attempt discard or_error ensure ◌>>=◌
process_blind_receipt-stock_example =
    process_blind_receipt-stock memory memory_store "CPU" (pos 100) "Ann" "GR-1" "ann" counts held
      refl

run-exclusive_example :
    let u =
      run memory
        (acquires "Bob" "GR-1" "bob" ∷ processes (pos 100) "Ann" "GR-1" "ann" counts ∷ [])
        held in
    (u.locks "GR-1" ≡ (some "ann", some (pos 9)))
    × ((acquire_lock memory "Bob" "GR-1" "bob" u).0 ≢ ok tt)
    × ((process_blind_receipt memory (pos 100) "Bob" "GR-1" "bob" counts u).0 ≢ ok tt)
run-exclusive_example =
    run-exclusive memory memory_store "GR-1" "ann" (pos 9)
      (acquires "Bob" "GR-1" "bob" ∷ processes (pos 100) "Ann" "GR-1" "ann" counts ∷ []) held "bob"
      "Bob" (pos 100) counts (λ w t h. clock t h) refl (inr differ, (tt, tt)) differ
  where
    clock : (t : ℤ) → ◌≡◌ {A = Result ScmError ℤ} (ok (pos 5)) (ok t) → t <ℤ pos 9
    clock t h = subst (λ (k : ℤ). k <ℤ pos 9) (ok-injective h) (omega arith)

    differ : ◌≢◌ {A = String} "bob" "ann"
    differ = ground (arith, eq_iff "bob" "ann")
