-- ===== src/Scm/Shipment/Tests.antt =====
-- Shipments in memory, and the theorems at them.
use zeus_be.Prelude.{
  ℕ, ◌+◌, ◌<◌, ◌≤◌, ◌≢◌, All, ◌++◌, ap, true, Bool-cases, inl, inr, ℤ, pos, String, str_eq, eq_iff,
  true, Option, none, some, List, [], ◌∷◌, ◌++◌, if◌then◌else◌, Action, Done, Result, ok, err,
  attempt, or_error, ensure, ◌>>=◌, ◌≡◌, ◌⊎◌, refl, sym, ap, arith, inl,
}
use zeus_be.Scm.Errors.{ScmError, not_found}
use zeus_be.Scm.PurchaseOrder.{PoLineItem}
use zeus_be.Scm.GoodsReceipt.{GrLineItem}
use zeus_be.Scm.Shipment.{
  ShipmentDeps, ShipmentStatus, scheduled, in_transit, delivered, Shipment, dispatch_shipment,
  is_past, mark_delivered, create_receipt, add_receipt_lines, transitions, dispatches, run,
}
use zeus_be.Scm.Shipment.Store.{ShipmentStore}
use zeus_be.Scm.Shipment.Delivered.{run-Delivered}
use zeus_be.Scm.Shipment.Dispatch.{IsUnexpired, dispatch_shipment-saves}
use zeus_be.Scm.Shipment.Receipt.{ReceiptStore, mark_delivered-receipt, IsReceived}

-- The status of each shipment, and the lines of each receipt.
record Db : Type 0 where
  statuses : String → Option ShipmentStatus
  gr_lines : List GrLineItem

abbrev shipment : String → ShipmentStatus → Shipment
shipment i s = record {
  id = i;
  po_ref = "PO-1";
  supplier_id = 1;
  supplier_name = "";
  status = s;
  ship_date = pos 0;
  locked_by = some "ann";
  lock_expires_at = some (pos 9);
}

abbrev stored : String → Option ShipmentStatus → Option Shipment
stored i none = none
stored i (some s) = some (shipment i s)

abbrev put : String → ShipmentStatus → Db → Db
put i s w = record w { statuses = λ j. if str_eq i j then some s else w.statuses j }

abbrev add_row : Shipment → Option ShipmentStatus → Action Db ScmError Done
add_row x none w = (ok tt, put x.id x.status w)
add_row x (some s) w = (err not_found, w)

abbrev lines_in : String → List GrLineItem → List GrLineItem
lines_in g [] = []
lines_in g (line ∷ lines) =
    if str_eq line.gr_id g then line ∷ lines_in g lines else lines_in g lines

-- An id above those of the lines.
abbrev next_id : List GrLineItem → ℕ
next_id [] = 1
next_id (line ∷ lines) = line.id + next_id lines

abbrev order_line : PoLineItem ℤ
order_line = record {
  id = 7;
  po_id = "PO-1";
  sku = "CPU";
  description = "Processor";
  ordered_qty = pos 3;
  received_qty = pos 0;
  unit_price = pos 50;
}

abbrev memory : ShipmentDeps Db ℤ
memory = record {
  get_shipment_by_id = λ i w. (ok (stored i (w.statuses i)), w);
  update_shipment = λ x w. (ok tt, put x.id x.status w);
  update_shipment_fields = λ i f w. (ok tt, w);
  create_shipment_row = λ x w. add_row x (w.statuses x.id) w;
  create_shipment_item = λ x w. (ok tt, w);
  get_po_by_id = λ i w. (ok none, w);
  get_po_line_items = λ i w. (ok (order_line ∷ []), w);
  get_supplier_name = λ i w. (ok none, w);
  find_grs_by_po = λ i w. (ok [], w);
  create_gr = λ gr w. (ok tt, w);
  save_gr_line_item = λ item w. (ok tt, record w { gr_lines = w.gr_lines ++ item ∷ [] });
  new_uuid = λ w. (ok (next_id w.gr_lines), w);
  now = λ w. (ok (pos 5), w);
}

stored_reads :
    (i : String) (o : Option ShipmentStatus) (x : Shipment)
    → ◌≡◌ {A = Result ScmError (Option Shipment)} (ok (stored i o)) (ok (some x))
    → (o ≡ some x.status) × (x.id ≡ i)
stored_reads i none x h = cc
stored_reads i (some s) x h =
    let e : shipment i s ≡ x = cc in
    (ap (λ (y : Shipment). some y.status) e, ap (λ (y : Shipment). y.id) (sym e))

put_writes :
    (i j : String) (s : ShipmentStatus) (w : Db)
    → ((put i s w).statuses j ≡ w.statuses j) ⊎ ((i ≡ j) × ((put i s w).statuses j ≡ some s))
put_writes i j s w = ground (arith, eq_iff i j)

row_writes :
    (x : Shipment) (j : String) (w : Db) (o : Option ShipmentStatus)
    → w.statuses x.id ≡ o
    → ((add_row x o w).1.statuses j ≡ w.statuses j)
      ⊎ ((x.id ≡ j) × (w.statuses j ≡ none) × ((add_row x o w).1.statuses j ≡ some x.status))
row_writes x j w none e = ground (arith, eq_iff x.id j)
row_writes x j w (some s) e = inl refl

abbrev shipment_store : ShipmentStore memory
shipment_store = record {
  status_of = λ i w. w.statuses i;
  get_reads = λ i w x h. stored_reads i (w.statuses i) x h;
  update_writes = λ x j w. put_writes x.id j x.status w;
  create_writes = λ x j w. row_writes x j w (w.statuses x.id) refl;
  get_keeps = λ i j w. refl;
  fields_keeps = λ i j f w. refl;
  item_keeps = λ x j w. refl;
  po_keeps = λ i j w. refl;
  po_lines_keeps = λ i j w. refl;
  supplier_keeps = λ i j w. refl;
  grs_keeps = λ i j w. refl;
  gr_keeps = λ x j w. refl;
  gr_line_keeps = λ x j w. refl;
  uuid_keeps = λ j w. refl;
  now_keeps = λ j w. refl;
}

lines_in-snoc :
    (g : String) (lines : List GrLineItem) (item : GrLineItem)
    → str_eq item.gr_id g ≡ true
    → lines_in g (lines ++ item ∷ []) ≡ lines_in g lines ++ item ∷ []
lines_in-snoc g [] item h = rw h refl
lines_in-snoc g (line ∷ lines) item h = elim (Bool-cases (str_eq line.gr_id g)) [
  | inl own ↦ rw own (ap (◌∷◌ line) (lines_in-snoc g lines item h))
  | inr other ↦ rw other (lines_in-snoc g lines item h)
]

next_id-positive : (lines : List GrLineItem) → 0 < next_id lines
next_id-positive [] = omega arith
next_id-positive (line ∷ lines) = let p = next_id-positive lines in omega arith

next_id-fresh :
    (g : String) (lines : List GrLineItem) (n : ℕ)
    → next_id lines ≤ n
    → All (λ (line : GrLineItem). line.id ≢ n) (lines_in g lines)
next_id-fresh g [] n h = tt
next_id-fresh g (line ∷ lines) n h = elim (Bool-cases (str_eq line.gr_id g)) [
  | inl own ↦ rw own (
    (λ e. let p = next_id-positive lines in let q = ap (λ k. k) e in ground arith),
    next_id-fresh g lines n (omega arith),
  )
  | inr other ↦ rw other (next_id-fresh g lines n (omega arith))
]

ok-injective : {A : Type 0} {a b : A} → ◌≡◌ {A = Result ScmError A} (ok a) (ok b) → a ≡ b
ok-injective h = cc

abbrev receipt_store : ReceiptStore memory
receipt_store = record {
  po_lines_of = λ i w. order_line ∷ [];
  gr_lines_of = λ g w. lines_in g w.gr_lines;
  po_lines_read = λ i w items h. sym (ok-injective h);
  po_lines_get = λ i j w. refl;
  po_lines_update = λ x j w. refl;
  gr_get = λ i g w. refl;
  gr_update = λ x g w. refl;
  gr_po_lines = λ i g w. refl;
  gr_find = λ i g w. refl;
  gr_now = λ g w. refl;
  gr_uuid = λ g w. refl;
  gr_create = λ x g w. refl;
  uuid_fresh = λ id w h g.
      next_id-fresh g w.gr_lines id
        (let same : next_id w.gr_lines ≡ id = ok-injective h in omega arith);
  gr_save = λ item w _ _.
      lines_in-snoc item.gr_id w.gr_lines item ((eq_iff item.gr_id item.gr_id).1 refl);
}

abbrev all_in : ShipmentStatus → Db
all_in s = record { statuses = λ i. some s; gr_lines = [] }

run-Delivered_example :
    (run memory
        (transitions "S-1" in_transit ∷ dispatches "S-1" "ann" ∷ [])
        (all_in delivered)).statuses
      "S-1"
    ≡ some delivered
run-Delivered_example =
    run-Delivered memory shipment_store "S-1"
      (transitions "S-1" in_transit ∷ dispatches "S-1" "ann" ∷ []) (all_in delivered) refl

dispatch_shipment-saves_example :
    (x : Shipment) × (t : ℤ) × (v : Db) × ((memory.get_shipment_by_id "S-1" (all_in scheduled)).0
      ≡ ok (some x))
    × (x.status ≡ scheduled)
    × (x.locked_by ≡ some "ann")
    × IsUnexpired memory x.lock_expires_at (memory.get_shipment_by_id "S-1" (all_in scheduled)).1
    × ((memory.now v).0 ≡ ok t)
    × ((dispatch_shipment memory "S-1" "ann" (all_in scheduled)).1
        ≡ (memory.update_shipment
            (record x {
              status = in_transit;
              ship_date = t;
              locked_by = none;
              lock_expires_at = none;
            })
            (memory.now v).1).1)
unfolding dispatch_shipment is_past or_error ensure ◌>>=◌
dispatch_shipment-saves_example = dispatch_shipment-saves memory "S-1" "ann" (all_in scheduled) refl

mark_delivered-receipt_example :
    (x : Shipment) × ((memory.get_shipment_by_id "S-1" (all_in in_transit)).0 ≡ ok (some x))
    × IsReceived memory receipt_store x.po_ref
        (all_in in_transit)
        (mark_delivered memory "Ann" "S-1" "ann" (all_in in_transit)).1
unfolding mark_delivered create_receipt add_receipt_lines or_error ensure attempt ◌>>=◌
mark_delivered-receipt_example =
    mark_delivered-receipt memory receipt_store "Ann" "S-1" "ann" (all_in in_transit) refl
