-- ===== src/Scm/GoodsReceipt.antt =====
-- scm/internal/service/goods_receipt_service.go: the methods of `goodsReceiptServiceRepo`, which the
-- server builds, and `RecordEntry` of ledger_service.go, over the repositories and the clock. Call
-- counters are left out.
mod Model
pub mod Store
pub mod Frame
pub mod Stock
pub mod Exclusive
mod Tests
pub use Model.*
use zeus_be.Prelude.{
  ℕ, ◌*◌, ◌^◌, ◌-◌, ℤ, pos, negsuc, ◌+ℤ◌, ◌-ℤ◌, add64, ltb_ℤ, leb_ℤ, eqb_ℤ, String, str_eq, Bool,
  true, false, not, ◌&&◌, ◌||◌, Option, none, some, List, [], ◌∷◌, if◌then◌else◌, Action, Done,
  pure, discard, attempt, or_error, ensure, ◌>>=◌, ◌>>◌,
}
use zeus_be.Scm.Errors.{ScmError, not_found, already_locked, lock_expired}
use zeus_be.Scm.PurchaseOrder.{PoLineItem, PurchaseOrder, partial, received}
use Model.{
  GrStatus, complete, discrepancy, GoodsReceipt, GrLineItem, ComponentStock, InventoryLedger,
  LockFields,
}

-- `IGoodsReceiptRepository`, `IStockRepository`, `IPORepository`, `ILedgerRepository`, `uuid.New`
-- and `time.Now`. `count_incomplete_grs` is `CountByPOIDAndNotStatus` at `Complete`.
pub record GrDeps (W R : Type 0) : Type 0 where
  pub get_gr_by_id : String → Action W ScmError (Option GoodsReceipt)
  pub find_gr_line_items : String → Action W ScmError (List GrLineItem)
  pub save_gr_line_item : GrLineItem → Action W ScmError Done
  pub update_gr : GoodsReceipt → Action W ScmError Done
  pub update_gr_fields : String → LockFields → Action W ScmError Done
  pub count_incomplete_grs : String → Action W ScmError ℤ
  pub get_stock_by_sku : String → Action W ScmError ComponentStock
  pub save_stock : ComponentStock → Action W ScmError Done
  pub get_po_by_id : String → Action W ScmError (Option (PurchaseOrder R))
  pub get_po_line_items : String → Action W ScmError (List (PoLineItem R))
  pub save_po_line_item : PoLineItem R → Action W ScmError Done
  pub save_po : PurchaseOrder R → Action W ScmError Done
  pub get_latest_balance : String → Action W ScmError ℤ
  pub create_entry : InventoryLedger → Action W ScmError Done
  pub new_uuid : Action W ScmError ℕ
  pub now : Action W ScmError ℤ

-- What the operator typed in for one SKU.
pub record Count : Type 0 where
  pub received : ℤ
  pub defective : ℤ

abbrev pub minute : ℕ
minute = 60 * 10 ^ 9

-- `time.Since`: a Duration, at most the largest int64 and at least the smallest.
since : ℤ → ℤ → ℤ
since now t =
    let d = now -ℤ t in
    if ltb_ℤ (pos (2 ^ 63 - 1)) d
    then pos (2 ^ 63 - 1)
    else (if ltb_ℤ d (negsuc (2 ^ 63 - 1)) then negsuc (2 ^ 63 - 1) else d)

abbrev pub is_other : Option String → String → Bool
is_other none operator = false
is_other (some holder) operator = not (str_eq holder operator)

-- The lock is held by `operator`.
abbrev pub is_own : Option String → String → Bool
is_own none operator = false
is_own (some holder) operator = str_eq holder operator

abbrev plus : Option ℤ → Option ℤ → Option ℤ
plus sum none = sum
plus none (some n) = some (add64 (pos 0) n)
plus (some m) (some n) = some (add64 m n)

-- `receivedBySKU` at one SKU, from the value `sum` on; `none` where the map has no such key.
pub sum_received : String → Option ℤ → List GrLineItem → Option ℤ
sum_received sku sum [] = sum
sum_received sku sum (item ∷ items) =
    sum_received sku (if str_eq item.sku sku then plus sum item.received_qty else sum) items

module _ {W R : Type 0} (D : GrDeps W R) where
  open D use {
    get_gr_by_id, find_gr_line_items, save_gr_line_item, update_gr, update_gr_fields,
    count_incomplete_grs, get_stock_by_sku, save_stock, get_po_by_id, get_po_line_items,
    save_po_line_item, save_po, get_latest_balance, create_entry, new_uuid, now,
  }

  -- `LockExpiresAt != nil && LockExpiresAt.After(time.Now())`
  pub is_live : Option ℤ → Action W ScmError Bool
  is_live none = pure false
  is_live (some expires) = do t ← now; pure (ltb_ℤ t expires)

  -- `LockExpiresAt != nil && LockExpiresAt.Before(time.Now())`
  pub is_expired : Option ℤ → Action W ScmError Bool
  is_expired none = pure false
  is_expired (some expires) = do t ← now; pure (ltb_ℤ expires t)

  pub acquire_lock : String → String → String → Action W ScmError Done
  unfolding is_live
  acquire_lock operator_name gr_id operator_id = do
    gr ← or_error (get_gr_by_id gr_id) not_found
    live ← if is_other gr.locked_by operator_id then is_live gr.lock_expires_at else pure false
    ensure (not live) already_locked
    t ← now
    update_gr_fields gr_id (record {
      locked_by = some operator_id;
      lock_expires_at = some (t +ℤ pos (60 * minute));
      operator = some (operator_id, operator_name);
    })

  pub release_lock : String → Action W ScmError Done
  release_lock gr_id = do
    gr ← or_error (get_gr_by_id gr_id) not_found
    update_gr_fields gr_id (record { locked_by = none; lock_expires_at = none; operator = none })

  -- `RecordEntry` of the ledger service, for what a receipt brings in.
  pub record_entry : String → String → ℤ → String → String → Action W ScmError Done
  record_entry operator_name sku qty_change operator_id gr_id = do
    previous ← get_latest_balance sku
    id ← new_uuid
    create_entry (record {
      id = id;
      sku = sku;
      qty_change = qty_change;
      running_balance = add64 previous qty_change;
      location = "WH-A";
      operator_id = operator_id;
      operator_name = operator_name;
      reference = gr_id;
      reference_id = gr_id;
    })

  -- The retry's context has no name; its error is dropped.
  pub retry_entry : Option Done → String → ℤ → String → String → Action W ScmError Done
  unfolding record_entry
  retry_entry (some done) sku qty operator_id gr_id = pure tt
  retry_entry none sku qty operator_id gr_id = discard (record_entry "" sku qty operator_id gr_id)

  pub enter_received : String → String → String → String → ℤ → Action W ScmError Done
  unfolding record_entry retry_entry
  enter_received operator_name operator_id gr_id sku qty =
      if ltb_ℤ (pos 0) qty
      then (do
        entry ← attempt (record_entry operator_name sku qty operator_id gr_id)
        retry_entry entry sku qty operator_id gr_id)
      else pure tt

  -- The clock is read only where the line is sensitive to its age and its date is known.
  pub label_of : ℤ → GrLineItem → Bool → Option ℤ → Action W ScmError String
  unfolding since
  label_of threshold item true (some date) = do
    t ← now
    pure (if ltb_ℤ threshold (since t date) then "Over-Age" else item.aging_label)
  label_of threshold item true none = pure item.aging_label
  label_of threshold item false date = pure item.aging_label

  -- One turn of the loop over the lines, for a line whose SKU was counted.
  pub receive_line :
      ℤ → String → String → String → GrLineItem → Count → Action W ScmError GrLineItem
  unfolding label_of enter_received
  receive_line threshold operator_name operator_id gr_id item count = do
    label ← label_of threshold item item.aging_sensitive item.production_date
    let counted : GrLineItem = record item {
      received_qty = some count.received;
      defective_qty = some count.defective;
      aging_label = label;
    }
    save_gr_line_item counted
    stock ← get_stock_by_sku item.sku
    save_stock (record stock { stock_qty = add64 stock.stock_qty count.received })
    enter_received operator_name operator_id gr_id item.sku count.received
    pure counted

  abbrev pub differs : GrLineItem → Count → Bool
  differs item count = not (eqb_ℤ count.received item.ordered_qty) || ltb_ℤ (pos 0) count.defective

  -- A line whose SKU was not counted is passed over.
  pub turn :
      ℤ
      → String
      → String
      → String
      → GrLineItem
      → Option Count
      → Action W ScmError (GrLineItem × Bool)
  unfolding receive_line
  turn threshold operator_name operator_id gr_id item none = pure (item, false)
  turn threshold operator_name operator_id gr_id item (some count) = do
    counted ← receive_line threshold operator_name operator_id gr_id item count
    pure (counted, differs item count)

  -- The loop: the lines as they are afterwards, and `hasDiscrepancy`.
  pub receive_lines :
      ℤ
      → String
      → String
      → String
      → (String → Option Count)
      → List GrLineItem
      → Action W ScmError (List GrLineItem × Bool)
  unfolding turn
  receive_lines threshold operator_name operator_id gr_id counts [] = pure ([], false)
  receive_lines threshold operator_name operator_id gr_id counts (item ∷ items) = do
    first ← turn threshold operator_name operator_id gr_id item (counts item.sku)
    rest ← receive_lines threshold operator_name operator_id gr_id counts items
    pure (first.0 ∷ rest.0, first.1 || rest.1)

  -- A line of the order with what was received for it, and whether it is to be saved.
  abbrev add_received : PoLineItem R → Option ℤ → PoLineItem R × Bool
  add_received line none = (line, false)
  add_received line (some qty) = (record line { received_qty = add64 line.received_qty qty }, true)

  -- The loop over the lines of the order; errors of the saves are dropped.
  pub update_po_lines :
      List GrLineItem → List (PoLineItem R) → Action W ScmError (List (PoLineItem R))
  unfolding sum_received
  update_po_lines items [] = pure []
  update_po_lines items (line ∷ lines) = do
    let updated : PoLineItem R × Bool = add_received line (sum_received line.sku none items)
    if updated.1 then discard (save_po_line_item updated.0) else pure tt
    rest ← update_po_lines items lines
    pure (updated.0 ∷ rest)

  pub all_received : List (PoLineItem R) → Bool
  all_received [] = true
  all_received (line ∷ lines) = leb_ℤ line.ordered_qty line.received_qty && all_received lines

  abbrev no_lines : Option (List (PoLineItem R)) → List (PoLineItem R)
  no_lines none = []
  no_lines (some lines) = lines

  abbrev count_or_zero : Option ℤ → ℤ
  count_or_zero none = pos 0
  count_or_zero (some n) = n

  -- From the lines' end on. Where the repository has no order and no error, the source returns the
  -- error that it has: nil.
  pub close_receipt :
      String
      → String
      → GoodsReceipt
      → List GrLineItem
      → Bool
      → Option (PurchaseOrder R)
      → Action W ScmError Done
  unfolding update_po_lines all_received
  close_receipt operator_name operator_id gr items has_discrepancy none = pure tt
  close_receipt operator_name operator_id gr items has_discrepancy (some po) = do
    lines ← attempt (get_po_line_items po.id)
    updated ← update_po_lines items (no_lines lines)
    update_gr (record gr {
      status = if has_discrepancy then discrepancy else complete;
      operator_id = operator_id;
      operator_name = operator_name;
    })
    incomplete ← attempt (count_incomplete_grs po.id)
    let closed : PurchaseOrder R = record po {
      status = if all_received updated then received else partial;
    }
    if eqb_ℤ (count_or_zero incomplete) (pos 0) then save_po closed else pure tt

  -- `threshold` is `agingThreshold`, in nanoseconds.
  pub process_blind_receipt :
      ℤ → String → String → String → (String → Option Count) → Action W ScmError Done
  unfolding is_expired receive_lines close_receipt
  process_blind_receipt threshold operator_name gr_id operator_id counts = do
    gr ← or_error (get_gr_by_id gr_id) not_found
    ensure (is_own gr.locked_by operator_id) already_locked
    expired ← is_expired gr.lock_expires_at
    ensure (not expired) lock_expired
    items ← find_gr_line_items gr_id
    loop ← receive_lines threshold operator_name operator_id gr.id counts items
    po ← get_po_by_id gr.po_ref
    close_receipt operator_name operator_id gr loop.0 loop.1 po

-- The calls that change a receipt.
pub data Call : Type 0 where
  -- the operator's name, the receipt and the operator
  acquires : String → String → String → Call
  releases : String → Call
  processes : ℤ → String → String → String → (String → Option Count) → Call

module _ {W R : Type 0} (D : GrDeps W R) where
  pub call : Call → W → W
  unfolding acquire_lock release_lock process_blind_receipt
  call (acquires name gr_id operator) w = (acquire_lock D name gr_id operator w).1
  call (releases gr_id) w = (release_lock D gr_id w).1
  call (processes threshold name gr_id operator counts) w =
      (process_blind_receipt D threshold name gr_id operator counts w).1

  pub run : List Call → W → W
  unfolding call
  run [] w = w
  run (c ∷ cs) w = run cs (call c w)
