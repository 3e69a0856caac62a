-- ===== src/Scm/PurchaseOrder/Tests.antt =====
-- A store of purchase orders in memory, and the theorems at it.
use mathlib.Core.Option.{some-injective}
use zeus_be.Prelude.{
  subst, ℤ, pos, ◌+ℤ◌, ◌*ℤ◌, String, str_eq, ◌≡◌, refl, ◌⊎◌, inl, Option, none, some, List, [], ◌∷◌,
  arith, Action, ok, err, Floats, ◌>>=◌, or_error, ensure, true, if◌then◌else◌, eq_iff, Result,
  Done, ◌≤ℤ◌, attempt,
}
use zeus_be.Scm.Errors.{ScmError, failed}
use zeus_be.Scm.PurchaseOrder.{
  PoStatus, draft, approved, received, void, PurchaseOrder, PoLineItem, PoDeps, approves,
  transitions, run, valid_transition, approve_po, transition_state, check_receipts,
}
use zeus_be.Scm.PurchaseOrder.Store.{PoStore}
use zeus_be.Scm.PurchaseOrder.Transition.{Reach, here, next, Reach-received}
use zeus_be.Scm.PurchaseOrder.Lifecycle.{run-Reach}
use zeus_be.Scm.PurchaseOrder.Approval.{total_of, approve_po-saves, transition_state-receipts}

-- Prices in whole cents.
abbrev cents : Floats
cents = record {
  Float = ℤ;
  zero_f = pos 0;
  add_f = ◌+ℤ◌;
  mul_f = ◌*ℤ◌;
  div_f = λ a b. a;
  of_int = λ n. n;
}

-- The orders by their id, and one line for each.
abbrev Orders : Type 0
Orders = String → Option (PurchaseOrder ℤ)

abbrev with_status : PoStatus → Option (PurchaseOrder ℤ) → Option (PurchaseOrder ℤ)
with_status s none = none
with_status s (some po) = some (record po { status = s })

abbrev put : String → Option (PurchaseOrder ℤ) → Orders → Orders
put i v w j = if str_eq i j then v else w j

abbrev add_row : PurchaseOrder ℤ → Option (PurchaseOrder ℤ) → Action Orders ScmError Done
add_row po none w = (ok tt, put po.id (some po) w)
add_row po (some _) w = (err (failed 1), w)

abbrev line : PoLineItem ℤ
line = record {
  id = 7;
  po_id = "PO-1";
  sku = "CPU";
  description = "";
  ordered_qty = pos 3;
  received_qty = pos 0;
  unit_price = pos 50;
}

abbrev stored : String → Option (PurchaseOrder ℤ) → Option (PurchaseOrder ℤ)
stored i none = none
stored i (some po) = some (record po { id = i })

abbrev memory : PoDeps Orders ℤ
memory = record {
  get_po_by_id = λ i w. (ok (stored i (w i)), w);
  get_po_line_items = λ i w. (ok (line ∷ []), w);
  find_po_by_vendor_and_statuses = λ v ss w. (ok none, w);
  count_pos_by_year = λ y w. (ok (pos 0), w);
  create_po_row = λ po w. add_row po (w po.id) w;
  save_po = λ po w. (ok tt, put po.id (some po) w);
  update_po_status = λ i s w. (ok tt, put i (with_status s (w i)) w);
  create_po_line_item = λ item w. (ok tt, w);
  find_sku_mapping = λ v s w. (ok none, w);
  get_unit_cost = λ s w. (ok (pos 50), w);
  lock_deficit = λ s n w. (ok tt, w);
  new_uuid = λ w. (ok 1, w);
  current_year = λ w. (ok (pos 2026), w);
  count_incomplete_grs = some (λ i w. (ok (pos 0), w));
}

abbrev status_in : Option (PurchaseOrder ℤ) → Option PoStatus
status_in none = none
status_in (some po) = some po.status

ok-injective : {A : Type 0} {a b : A} → ◌≡◌ {A = Result ScmError A} (ok a) (ok b) → a ≡ b
ok-injective h = cc

stored_reads :
    (i : String) (o : Option (PurchaseOrder ℤ)) (po : PurchaseOrder ℤ)
    → stored i o ≡ some po
    → (status_in o ≡ some po.status) × (po.id ≡ i)
stored_reads i none po h = cc
stored_reads i (some row) po h = ground arith

update_writes :
    (i j : String) (s : PoStatus) (w : Orders) (o : Option (PurchaseOrder ℤ))
    → w i ≡ o
    → (status_in (put i (with_status s (w i)) w j) ≡ status_in (w j))
      ⊎ ((i ≡ j) × (status_in (put i (with_status s (w i)) w j) ≡ some s))
update_writes i j s w o e = ground (arith, eq_iff i j)

save_writes :
    (po : PurchaseOrder ℤ) (j : String) (w : Orders)
    → (status_in (put po.id (some po) w j) ≡ status_in (w j))
      ⊎ ((po.id ≡ j) × (status_in (put po.id (some po) w j) ≡ some po.status))
save_writes po j w = ground (arith, eq_iff po.id j)

create_writes :
    (po : PurchaseOrder ℤ) (j : String) (w : Orders) (o : Option (PurchaseOrder ℤ))
    → w po.id ≡ o
    → (status_in ((add_row po o w).1 j) ≡ status_in (w j))
      ⊎ ((po.id ≡ j)
          × (status_in (w j) ≡ none)
          × (status_in ((add_row po o w).1 j) ≡ some po.status))
create_writes po j w none e = ground (arith, eq_iff po.id j)
create_writes po j w (some row) e = inl refl

abbrev memory_store : PoStore memory
memory_store = record {
  status_of = λ i w. status_in (w i);
  get_reads = λ i w po h. stored_reads i (w i) po (ok-injective h);
  get_keeps = λ i j w. refl;
  lines_keeps = λ i j w. refl;
  find_keeps = λ v ss j w. refl;
  count_keeps = λ y j w. refl;
  mapping_keeps = λ v s j w. refl;
  cost_keeps = λ s j w. refl;
  lock_keeps = λ s j q w. refl;
  uuid_keeps = λ j w. refl;
  year_keeps = λ j w. refl;
  receipts_keeps = λ count i j w e.
      subst (λ c. status_in ((c i w).1 j) ≡ status_in (w j)) (some-injective _ _ e) refl;
  update_writes = λ i j s w. update_writes i j s w (w i) refl;
  save_writes = save_writes;
  create_writes = λ po j w. create_writes po j w (w po.id) refl;
  line_keeps = λ item j w. refl;
}

abbrev row : PurchaseOrder ℤ
row = record {
  id = "PO-1";
  vendor_id = 4;
  status = received;
  total_value = pos 0;
  payment_terms = "";
  notes = "";
  line_items = [];
}

abbrev one_row : PurchaseOrder ℤ → Orders
one_row po = put po.id (some po) (λ _. none)

Reach-received_example : (void ≡ received) ⊎ (void ≡ void)
unfolding valid_transition
Reach-received_example = Reach-received {t = void} (next here refl)

abbrev fresh : PurchaseOrder ℤ
fresh = record row { status = draft }

run-Reach_example :
    (t : PoStatus) × (status_in
        (run cents memory (transitions "PO-1" void ∷ approves "PO-1" ∷ []) (one_row row) "PO-1")
      ≡ some t)
    × Reach received t
run-Reach_example =
    run-Reach cents memory memory_store "PO-1" (transitions "PO-1" void ∷ approves "PO-1" ∷ [])
      (one_row row) received refl

approve_po-saves_example :
    (po : PurchaseOrder ℤ) × (items : Option (List (PoLineItem ℤ))) × ((memory.get_po_by_id "PO-1"
        (one_row fresh)).0
      ≡ ok (some po))
    × (po.status ≡ draft)
    × ((attempt (memory.get_po_line_items "PO-1") (memory.get_po_by_id "PO-1" (one_row fresh)).1).0
        ≡ ok items)
    × (approve_po cents memory "PO-1" (one_row fresh)
        ≡ memory.save_po
            (record po { status = approved; total_value = total_of cents memory items })
            (attempt
              (memory.get_po_line_items "PO-1")
              (memory.get_po_by_id "PO-1" (one_row fresh)).1).1)
unfolding approve_po ◌>>=◌ or_error ensure attempt
approve_po-saves_example = approve_po-saves cents memory "PO-1" (one_row fresh) refl

transition_state-receipts_example :
    (po : PurchaseOrder ℤ) × (n : ℤ) × ((memory.get_po_by_id "PO-1" (one_row fresh)).0
      ≡ ok (some po))
    × (valid_transition po.status approved ≡ true)
    × (◌≡◌ {A = Result ScmError ℤ} (ok (pos 0)) (ok n))
    × (n ≤ℤ pos 0)
unfolding transition_state check_receipts ◌>>=◌ or_error ensure valid_transition
transition_state-receipts_example =
    transition_state-receipts cents memory (λ i w. (ok (pos 0), w)) "PO-1" approved (one_row fresh)
      refl refl refl
