-- ===== src/Scm/PurchaseOrder.antt =====
-- scm/internal/service/po_service.go: `validTransition` and the methods of `poServiceRepo`, which the
-- server builds, over the repositories, the deficit lock and the clock that it calls. Log lines and
-- call counters are left out.
mod Model
pub mod Transition
pub mod Store
pub mod Lifecycle
pub mod Approval
mod Tests
pub use Model.*
use zeus_be.Prelude.{
  ℕ, suc, ◌&&◌, ltb, ℤ, pos, add64, String, concat, decimal, not, Option, none, some, List, [], ◌∷◌,
  ltb_ℤ, if◌then◌else◌, Action, Done, Result, ok, err, pure, raise, attempt, or_error, ensure,
  ◌>>=◌, ◌>>◌, Floats, Bool, true, false,
}
use zeus_be.Scm.Errors.{
  ScmError, not_found, invalid_transition, state_regression, mono_vendor_violation, incomplete_grs,
  message,
}
use Model.{
  PoStatus, draft, approved, in_transit, partial, received, void, status_eq, PoLineItem,
  PurchaseOrder, SkuMapping,
}

-- The loop over `order`: the last index at which the status stands; `none` is the source's -1.
index_from : PoStatus → ℕ → Option ℕ → List PoStatus → Option ℕ
index_from s i found [] = found
index_from s i found (x ∷ xs) = index_from s (suc i) (if status_eq x s then some i else found) xs

abbrev order : List PoStatus
order = draft ∷ approved ∷ in_transit ∷ partial ∷ received ∷ void ∷ []

is_later : PoStatus → PoStatus → Option ℕ → Option ℕ → Bool
is_later current new none j = false
is_later current new (some i) none = false
is_later current new (some i) (some j) =
    if status_eq new void && status_eq current draft then true else ltb i j

pub valid_transition : PoStatus → PoStatus → Bool
unfolding index_from is_later
valid_transition current new =
    if status_eq current partial && status_eq new in_transit
    then true
    else is_later current new (index_from current 0 none order) (index_from new 0 none order)

-- What the service calls: `IPORepository`, `IStockRepository.GetStockBySKU` (of which it reads the
-- unit cost), `DeficitLockManager.LockDeficit`, `uuid.New` and the year of `time.Now`. The last
-- field is `grRepo.CountByPOIDAndNotStatus` at `Complete`, `none` where no `grRepo` is given.
pub record PoDeps (W R : Type 0) : Type 0 where
  pub get_po_by_id : String → Action W ScmError (Option (PurchaseOrder R))
  pub get_po_line_items : String → Action W ScmError (List (PoLineItem R))
  pub find_po_by_vendor_and_statuses :
      ℕ → List PoStatus → Action W ScmError (Option (PurchaseOrder R))
  pub count_pos_by_year : ℤ → Action W ScmError ℤ
  pub create_po_row : PurchaseOrder R → Action W ScmError Done
  pub save_po : PurchaseOrder R → Action W ScmError Done
  pub update_po_status : String → PoStatus → Action W ScmError Done
  pub create_po_line_item : PoLineItem R → Action W ScmError Done
  pub find_sku_mapping : ℕ → String → Action W ScmError (Option (SkuMapping R))
  pub get_unit_cost : String → Action W ScmError R
  pub lock_deficit : String → ℤ → Action W ScmError Done
  pub new_uuid : Action W ScmError ℕ
  pub current_year : Action W ScmError ℤ
  pub count_incomplete_grs : Option (String → Action W ScmError ℤ)

module _ (F : Floats) {W : Type 0} (D : PoDeps W F.Float) where
  open F use {Float, zero_f, add_f, mul_f, of_int}
  open D use {
    get_po_by_id, get_po_line_items, find_po_by_vendor_and_statuses, count_pos_by_year,
    create_po_row, save_po, update_po_status, create_po_line_item, find_sku_mapping, get_unit_cost,
    lock_deficit, new_uuid, current_year, count_incomplete_grs,
  }

  abbrev no_active_po : Result ScmError (Option (PurchaseOrder Float)) → Bool
  no_active_po (ok (some po)) = false
  no_active_po (ok none) = true
  no_active_po (err e) = true

  -- `err == nil && existing != nil` refuses; an error of the search lets the draft through.
  check_vendor : ℕ → Action W ScmError Done
  check_vendor vendor_id w =
      let (r, w') =
        find_po_by_vendor_and_statuses vendor_id (draft ∷ approved ∷ in_transit ∷ []) w in
      ensure (no_active_po r) mono_vendor_violation w'

  pub create_draft : ℕ → Action W ScmError (PurchaseOrder Float)
  unfolding check_vendor
  create_draft vendor_id = do
    check_vendor vendor_id
    year ← current_year
    count ← count_pos_by_year year
    let po : PurchaseOrder Float = record {
      id = concat (concat (concat "PO-" (decimal year)) "-") (decimal (add64 count (pos 1)));
      vendor_id = vendor_id;
      status = draft;
      total_value = zero_f;
      payment_terms = "";
      notes = "";
      line_items = [];
    }
    create_po_row po
    pure po

  pub add_line_item_with_lock : String → String → ℤ → Action W ScmError Done
  add_line_item_with_lock po_id sku qty = do
    po ← or_error (get_po_by_id po_id) not_found
    ensure (status_eq po.status draft) invalid_transition
    lock_deficit sku qty
    cost ← get_unit_cost sku
    id ← new_uuid
    create_po_line_item (record {
      id = id;
      po_id = po_id;
      sku = sku;
      description = "";
      ordered_qty = qty;
      received_qty = pos 0;
      unit_price = cost;
    })

  pub sum_lines : Float → List (PoLineItem Float) → Float
  sum_lines total [] = total
  sum_lines total (item ∷ items) =
      sum_lines (add_f total (mul_f (of_int item.ordered_qty) item.unit_price)) items

  -- `items, _ :=` : no lines where the read fails.
  abbrev or_empty : Option (List (PoLineItem Float)) → List (PoLineItem Float)
  or_empty none = []
  or_empty (some items) = items

  pub approve_po : String → Action W ScmError Done
  unfolding sum_lines
  approve_po po_id = do
    po ← or_error (get_po_by_id po_id) not_found
    ensure (status_eq po.status draft) invalid_transition
    items ← attempt (get_po_line_items po_id)
    save_po (record po { status = approved; total_value = sum_lines zero_f (or_empty items) })

  check_receipts : String → Option (String → Action W ScmError ℤ) → Action W ScmError Done
  check_receipts po_id none = pure tt
  check_receipts po_id (some count) = do
    incomplete ← count po_id
    ensure (not (ltb_ℤ (pos 0) incomplete)) incomplete_grs

  pub transition_state : String → PoStatus → Action W ScmError Done
  unfolding check_receipts
  transition_state po_id new_state = do
    po ← or_error (get_po_by_id po_id) not_found
    ensure (valid_transition po.status new_state) state_regression
    if status_eq new_state void then pure tt else check_receipts po_id count_incomplete_grs
    update_po_status po_id new_state

  -- The loop over `po.LineItems`: each line is filled in from the mapping of its SKU.
  price_lines :
      PurchaseOrder Float
      → List (PoLineItem Float)
      → Float
      → Action W ScmError (List (PoLineItem Float) × Float)
  price_lines po [] total = pure ([], total)
  price_lines po (item ∷ items) total = do
    mapping ←
        or_error (find_sku_mapping po.vendor_id item.sku)
          (message (concat "sku mapping not found for SKU: " item.sku))
    id ← new_uuid
    let priced : PoLineItem Float = record {
      id = id;
      po_id = po.id;
      sku = item.sku;
      description = mapping.name;
      ordered_qty = item.ordered_qty;
      received_qty = pos 0;
      unit_price = mapping.unit_price;
    }
    rest ← price_lines po items (add_f total (mul_f (of_int item.ordered_qty) mapping.unit_price))
    pure (priced ∷ rest.0, rest.1)

  create_lines :
      PurchaseOrder Float → List (PoLineItem Float) → Action W ScmError (PurchaseOrder Float)
  unfolding price_lines
  create_lines po [] = raise (message "purchase order must have at least one line item")
  create_lines po (item ∷ items) = do
    priced ← price_lines po (item ∷ items) zero_f
    let filled : PurchaseOrder Float = record po {
      line_items = priced.0;
      status = draft;
      total_value = priced.1;
    }
    create_po_row filled
    pure filled

  -- The order with its lines filled in, as it is handed to the repository. (`po` is filled in
  -- place: a failure leaves the caller's lines partly filled, which no caller reads.)
  pub create_po : PurchaseOrder Float → Action W ScmError (PurchaseOrder Float)
  unfolding create_lines
  create_po po = create_lines po po.line_items

-- The calls of the service that change the store.
pub data Call (R : Type 0) : Type 0 where
  drafts : ℕ → Call R
  adds_line : String → String → ℤ → Call R
  approves : String → Call R
  transitions : String → PoStatus → Call R
  creates : PurchaseOrder R → Call R

module _ (F : Floats) {W : Type 0} (D : PoDeps W F.Float) where
  -- The world after a call: what was written before a failure stays written.
  pub call : Call F.Float → W → W
  unfolding create_draft add_line_item_with_lock approve_po transition_state create_po
  call (drafts v) w = (create_draft F D v w).1
  call (adds_line i s n) w = (add_line_item_with_lock F D i s n w).1
  call (approves i) w = (approve_po F D i w).1
  call (transitions i t) w = (transition_state F D i t w).1
  call (creates po) w = (create_po F D po w).1

  pub run : List (Call F.Float) → W → W
  unfolding call
  run [] w = w
  run (c ∷ cs) w = run cs (call c w)
