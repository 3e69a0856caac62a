-- ===== src/Scm/Shipment.antt =====
-- scm/internal/service/shipment_service.go: `validShipmentTransition` and the methods of
-- `shipmentServiceRepo` with the repositories that the server gives it, none of them nil. Call
-- counters and the texts attached to errors are left out.
mod Model
pub mod Store
pub mod Delivered
pub mod Dispatch
pub mod Receipt
mod Tests
pub use Model.*
use zeus_be.Prelude.{
  ℕ, suc, ◌+◌, ◌*◌, ◌^◌, ltb, ℤ, pos, ◌+ℤ◌, ltb_ℤ, String, str_eq, concat, decimal, length, Bool,
  true, false, not, ◌||◌, ◌==◌, Option, none, some, List, [], ◌∷◌, if◌then◌else◌, Action, Done,
  Result, ok, err, pure, raise, discard, attempt, or_error, ensure, ◌>>=◌, ◌>>◌,
}
use zeus_be.Scm.Errors.{
  ScmError, not_found, invalid_transition, state_regression, shipment_already_dispatched,
  shipment_lock_conflict, shipment_not_locked, shipment_lock_expired,
}
use zeus_be.Scm.PurchaseOrder.{PoLineItem, PurchaseOrder}
use zeus_be.Scm.GoodsReceipt.{GoodsReceipt, GrLineItem, pending}
use Model.{
  ShipmentStatus, scheduled, in_transit, delivered, delayed, shipment_eq, Shipment, ShipmentItem,
  DispatchFields,
}

-- The loop over `order`: the last index at which the status stands; `none` is the source's -1.
position : ShipmentStatus → ℕ → Option ℕ → List ShipmentStatus → Option ℕ
position s i found [] = found
position s i found (x ∷ xs) = position s (suc i) (if shipment_eq x s then some i else found) xs

abbrev shipment_order : List ShipmentStatus
shipment_order = scheduled ∷ in_transit ∷ delivered ∷ delayed ∷ []

after : ShipmentStatus → ShipmentStatus → Option ℕ → Option ℕ → Bool
after current new none j = false
after current new (some i) none = false
after current new (some i) (some j) =
    if shipment_eq new delayed
    then shipment_eq current in_transit
    else (if shipment_eq current delayed then shipment_eq new in_transit else ltb i j)

pub valid_shipment_transition : ShipmentStatus → ShipmentStatus → Bool
unfolding position after
valid_shipment_transition current new =
    after current new (position current 0 none shipment_order) (position new 0 none shipment_order)

-- `IShipmentRepository`, `IPORepository`, `IVendorRepository` (of which the supplier's name is read),
-- `IGoodsReceiptRepository`, `uuid.New` and `time.Now`.
pub record ShipmentDeps (W R : Type 0) : Type 0 where
  pub get_shipment_by_id : String → Action W ScmError (Option Shipment)
  pub update_shipment : Shipment → Action W ScmError Done
  pub update_shipment_fields : String → DispatchFields → Action W ScmError Done
  pub create_shipment_row : Shipment → Action W ScmError Done
  pub create_shipment_item : ShipmentItem → Action W ScmError Done
  pub get_po_by_id : String → Action W ScmError (Option (PurchaseOrder R))
  pub get_po_line_items : String → Action W ScmError (List (PoLineItem R))
  pub get_supplier_name : ℕ → Action W ScmError (Option String)
  pub find_grs_by_po : String → Action W ScmError (List GoodsReceipt)
  pub create_gr : GoodsReceipt → Action W ScmError Done
  pub save_gr_line_item : GrLineItem → Action W ScmError Done
  pub new_uuid : Action W ScmError ℕ
  pub now : Action W ScmError ℤ

-- `dispatchLockTTL`, in nanoseconds.
abbrev dispatch_lock_ttl : ℕ
dispatch_lock_ttl = 30 * (60 * 10 ^ 9)

abbrev is_locked_by_other : Option String → String → Bool
is_locked_by_other none operator = false
is_locked_by_other (some holder) operator = not (str_eq holder operator)

abbrev is_locked_by : Option String → String → Bool
is_locked_by none operator = false
is_locked_by (some holder) operator = str_eq holder operator

-- `%03d` of a count.
abbrev three_digits : ℕ → String
three_digits n =
    if ltb n 10
    then concat "00" (decimal (pos n))
    else (if ltb n 100 then concat "0" (decimal (pos n)) else decimal (pos n))

abbrev gone : ShipmentStatus → Bool
gone status = shipment_eq status in_transit || shipment_eq status delivered

module _ {W R : Type 0} (D : ShipmentDeps W R) where
  open D use {
    get_shipment_by_id, update_shipment, update_shipment_fields, create_shipment_row,
    create_shipment_item, get_po_by_id, get_po_line_items, get_supplier_name, find_grs_by_po,
    create_gr, save_gr_line_item, new_uuid, now,
  }

  is_unexpired : Option ℤ → Action W ScmError Bool
  is_unexpired none = pure false
  is_unexpired (some expires) = do t ← now; pure (ltb_ℤ t expires)

  is_past : Option ℤ → Action W ScmError Bool
  is_past none = pure false
  is_past (some expires) = do t ← now; pure (ltb_ℤ expires t)

  -- When the lock ends.
  pub acquire_dispatch_lock : String → String → String → Action W ScmError ℤ
  unfolding is_unexpired
  acquire_dispatch_lock operator_name shipment_id operator_id = do
    shipment ← or_error (get_shipment_by_id shipment_id) not_found
    ensure (not (gone shipment.status)) shipment_already_dispatched
    live ←
        if is_locked_by_other shipment.locked_by operator_id
        then is_unexpired shipment.lock_expires_at
        else pure false
    ensure (not live) shipment_lock_conflict
    t ← now
    let expires : ℤ = t +ℤ pos dispatch_lock_ttl
    update_shipment_fields shipment_id (record {
      locked_by = some operator_id;
      lock_expires_at = some expires;
      operator = some (operator_id, operator_name);
    })
    pure expires

  pub release_dispatch_lock : String → Action W ScmError Done
  release_dispatch_lock shipment_id = do
    shipment ← or_error (get_shipment_by_id shipment_id) not_found
    update_shipment_fields shipment_id
        (record { locked_by = none; lock_expires_at = none; operator = none })

  pub dispatch_shipment : String → String → Action W ScmError Done
  unfolding is_past
  dispatch_shipment shipment_id operator_id = do
    shipment ← or_error (get_shipment_by_id shipment_id) not_found
    ensure (shipment_eq shipment.status scheduled)
        (if gone shipment.status then shipment_already_dispatched else invalid_transition)
    ensure (is_locked_by shipment.locked_by operator_id) shipment_not_locked
    past ← is_past shipment.lock_expires_at
    ensure (not past) shipment_lock_expired
    t ← now
    update_shipment (record shipment {
      status = in_transit;
      ship_date = t;
      locked_by = none;
      lock_expires_at = none;
    })

  -- The loop over the lines of the order.
  add_receipt_lines : String → List (PoLineItem R) → Action W ScmError Done
  add_receipt_lines gr_id [] = pure tt
  add_receipt_lines gr_id (item ∷ items) = do
    id ← new_uuid
    save_gr_line_item (record {
      id = id;
      gr_id = gr_id;
      sku = item.sku;
      name = item.description;
      ordered_qty = item.ordered_qty;
      received_qty = none;
      defective_qty = none;
      aging_sensitive = false;
      production_date = none;
      aging_label = "";
    })
    add_receipt_lines gr_id items

  abbrev found_grs : Option (List GoodsReceipt) → List GoodsReceipt
  found_grs none = []
  found_grs (some grs) = grs

  -- The receipt that `MarkDelivered` creates.
  create_receipt : String → Shipment → String → Action W ScmError Done
  unfolding add_receipt_lines
  create_receipt operator_name shipment operator_id = do
    items ← get_po_line_items shipment.po_ref
    grs ← attempt (find_grs_by_po shipment.po_ref)
    let gr_id : String =
        concat (concat shipment.po_ref "-GR-") (three_digits (length (found_grs grs) + 1))
    t ← now
    create_gr (record {
      id = gr_id;
      po_ref = shipment.po_ref;
      vendor_id = shipment.supplier_id;
      status = pending;
      arrival_date = t;
      operator_id = operator_id;
      operator_name = operator_name;
      locked_by = none;
      lock_expires_at = none;
    })
    add_receipt_lines gr_id items

  pub mark_delivered : String → String → String → Action W ScmError Done
  unfolding create_receipt
  mark_delivered operator_name shipment_id operator_id = do
    shipment ← or_error (get_shipment_by_id shipment_id) not_found
    ensure (shipment_eq shipment.status in_transit) invalid_transition
    update_shipment (record shipment { status = delivered })
    create_receipt operator_name shipment operator_id

  pub transition_state : String → ShipmentStatus → Action W ScmError Done
  transition_state shipment_id new_state = do
    shipment ← or_error (get_shipment_by_id shipment_id) not_found
    ensure (valid_shipment_transition shipment.status new_state) state_regression
    update_shipment (record shipment { status = new_state })

  -- The loop that clones the lines of the order; errors are dropped.
  clone_lines : String → List (PoLineItem R) → Action W ScmError Done
  clone_lines shipment_id [] = pure tt
  clone_lines shipment_id (item ∷ items) = do
    id ← new_uuid
    discard (
        create_shipment_item (record {
          id = id;
          shipment_id = shipment_id;
          sku = item.sku;
          description = item.description;
          qty = item.ordered_qty;
        }))
    clone_lines shipment_id items

  abbrev name_or : String → Option (Option String) → String
  name_or name none = name
  name_or name (some none) = name
  name_or name (some (some found)) = found

  abbrev lines_or_none : Option (List (PoLineItem R)) → List (PoLineItem R)
  lines_or_none none = []
  lines_or_none (some items) = items

  -- An error of the order's read is the only one that refuses: an order that is not there does not.
  abbrev found_or : Result ScmError (Option (PurchaseOrder R)) × W → Result ScmError Done × W
  found_or (ok po, w) = (ok tt, w)
  found_or (err e, w) = (err not_found, w)

  check_order : String → Action W ScmError Done
  check_order po_ref w = found_or (get_po_by_id po_ref w)

  pub create_shipment : Shipment → Action W ScmError Done
  unfolding clone_lines check_order
  create_shipment shipment = do
    check_order shipment.po_ref
    found ←
        if shipment.supplier_id == 0
        then pure none
        else attempt (get_supplier_name shipment.supplier_id)
    create_shipment_row (record shipment { supplier_name = name_or shipment.supplier_name found })
    items ← attempt (get_po_line_items shipment.po_ref)
    clone_lines shipment.id (lines_or_none items)

pub data Call : Type 0 where
  -- the operator's name, the shipment and the operator
  acquires : String → String → String → Call
  releases : String → Call
  dispatches : String → String → Call
  delivers : String → String → String → Call
  transitions : String → ShipmentStatus → Call
  creates : Shipment → Call

module _ {W R : Type 0} (D : ShipmentDeps W R) where
  -- The world after a call: what was written before a failure stays written.
  pub call : Call → W → W
  unfolding acquire_dispatch_lock release_dispatch_lock dispatch_shipment mark_delivered
      transition_state create_shipment
  call (acquires name i operator) w = (acquire_dispatch_lock D name i operator w).1
  call (releases i) w = (release_dispatch_lock D i w).1
  call (dispatches i operator) w = (dispatch_shipment D i operator w).1
  call (delivers name i operator) w = (mark_delivered D name i operator w).1
  call (transitions i s) w = (transition_state D i s w).1
  call (creates shipment) w = (create_shipment D shipment w).1

  pub run : List Call → W → W
  unfolding call
  run [] w = w
  run (c ∷ cs) w = run cs (call c w)
