-- ===== src/Sales/Fulfillment/Tests.antt =====
-- An order that waits, and the theorems at it.
use zeus_be.Prelude.{
  ℕ, zero, suc, ◌==◌, ℤ, pos, Bool, true, false, Option, none, some, [], ◌∷◌, if◌then◌else◌, Action,
  Result, ok, err, ok-injective, discard, ensure, ◌>>=◌, ◌≡◌, ◌≢◌, refl, sym, ap, arith,
}
use zeus_be.Sales.Errors.{SalesError}
use zeus_be.Sales.Model.{SalesOrder, zero_client}
use zeus_be.Sales.Fulfillment.{
  FulfillmentDeps, AllocationQueueEntry, exhausted, check_items, reserve_or_undo, update_or_undo,
  allocate_order, get_queue_status, or_rebuilt, process_queue,
}
use zeus_be.Sales.Fulfillment.Queue.{QueueStore, process_queue-ends}
use zeus_be.Sales.Fulfillment.Allocation.{AllocationStore, allocate_order-IsWhole}

-- How many entries are queued, whether the inventory is reserved and whether the order is locked,
-- for each order.
record Db : Type 0 where
  queue : ℕ
  reserved : ℕ → Bool
  locked : ℕ → Bool

abbrev order : ℕ → SalesOrder ℤ
order i = record {
  id = i;
  client_id = 3;
  client_name = "Ann";
  destination_address = "";
  required_date = pos 0;
  status_id = 1;
  status = none;
  total_value = pos 100;
  locked = false;
  created_at = pos 0;
  updated_at = pos 0;
}

abbrev entry : AllocationQueueEntry
entry = record {
  order_id = 7;
  client_id = 3;
  client_tier = "B2C";
  required_date = pos 0;
  ingested_at = pos 0;
}

abbrev set : ℕ → Bool → (ℕ → Bool) → ℕ → Bool
set i b f j = if i == j then b else f j

abbrev dequeue : ℕ → Action Db SalesError (Option AllocationQueueEntry)
dequeue zero w = (ok none, w)
dequeue (suc n) w = (ok (some entry), record w { queue = n })

-- Five of everything are to be promised.
abbrev memory : FulfillmentDeps Db ℤ
memory = record {
  get_order = λ i w. (ok (order i), w);
  get_order_items = λ i w. (
    ok (
        record {
          id = 1;
          order_id = i;
          sku = "PC";
          requested_qty = pos 2;
          allocated_qty = pos 0;
          unit_price = pos 50;
          created_at = pos 0;
          updated_at = pos 0;
        }
        ∷ []),
    w,
  );
  list_pending_orders = λ w. (ok [], w);
  get_client = λ i w. (ok (record zero_client { id = i; tier = "B2C" }), w);
  update_order = λ o w. (ok tt, record w { locked = set o.id o.locked w.locked });
  create_reservation = λ r w. (ok tt, w);
  delete_reservation = λ i w. (ok tt, w);
  get_status_by_code = λ code w. (ok (record { id = 2; code = code }), w);
  get_atp = λ sku w. (ok (pos 5), w);
  reserve_inventory = λ i items w. (ok tt, record w { reserved = set i true w.reserved });
  release_inventory = λ i w. (ok tt, record w { reserved = set i false w.reserved });
  list_queue = λ w. (ok (entry ∷ []), w);
  clear_queue = λ w. (ok tt, record w { queue = 0 });
  enqueue_order = λ e w. (ok tt, record w { queue = suc w.queue });
  dequeue_order = λ w. dequeue w.queue w;
  publish_processed = λ i j w. (ok tt, w);
  new_uuid = λ w. (ok 1, w);
  now = λ w. (ok (pos 5), w);
}

takes :
    (n : ℕ) (w : Db) (e : AllocationQueueEntry)
    → (dequeue n w).0 ≡ ok (some e)
    → suc (dequeue n w).1.queue ≡ n
takes zero w e h = cc
takes (suc n) w e h = refl

abbrev queue_store : QueueStore memory
queue_store = record {
  queued = λ w. w.queue;
  dequeue_takes = λ w e. takes w.queue w e;
  order_keeps = λ i w. refl;
  items_keeps = λ i w. refl;
  client_keeps = λ i w. refl;
  update_keeps = λ o w. refl;
  create_keeps = λ r w. refl;
  delete_keeps = λ i w. refl;
  status_keeps = λ c w. refl;
  atp_keeps = λ s w. refl;
  reserve_keeps = λ i xs w. refl;
  release_keeps = λ i w. refl;
  publish_keeps = λ i j w. refl;
  uuid_keeps = λ w. refl;
  now_keeps = λ w. refl;
}

set_here : (i : ℕ) (b : Bool) (f : ℕ → Bool) → set i b f i ≡ b
set_here i b f = ground arith

impossible :
    {A B : Type 0} {a : A} {e : SalesError} → ◌≡◌ {A = Result SalesError A} (ok a) (err e) → B
impossible h = cc

abbrev allocation_store : AllocationStore memory
allocation_store = record {
  reserved = λ i w. w.reserved i;
  locked = λ i w. w.locked i;
  order_reads = λ i w o h. ap (λ (x : SalesOrder ℤ). x.id) (sym (ok-injective h));
  is_up = λ w. true;
  reserve_sets = λ i xs w _ _. set_here i true w.reserved;
  reserve_fails = λ i xs w e h. impossible h;
  release_sets = λ i w _. set_here i false w.reserved;
  update_sets = λ o w _. set_here o.id o.locked w.locked;
  update_fails = λ o w e h. impossible h;
  reserve_locks = λ i j xs w. refl;
  release_locks = λ i j w. refl;
  update_keeps = λ o j w. refl;
  order_keeps = λ i j w. refl;
  items_keeps = λ i j w. refl;
  client_keeps = λ i j w. refl;
  create_keeps = λ r j w. refl;
  delete_keeps = λ i j w. refl;
  status_keeps = λ c j w. refl;
  atp_keeps = λ s j w. refl;
  publish_keeps = λ a b j w. refl;
  uuid_keeps = λ j w. refl;
  uuid_succeeds = λ w e h. impossible h;
  now_succeeds = λ w e h. impossible h;
  now_keeps = λ j w. refl;
}

abbrev two_queued : Db
two_queued = record { queue = 2; reserved = λ i. false; locked = λ i. false }

process_queue-ends_example : (process_queue memory 3 two_queued).0 ≢ exhausted
unfolding get_queue_status or_rebuilt ◌>>=◌
process_queue-ends_example = process_queue-ends memory queue_store 3 two_queued (omega arith)

allocate_order-IsWhole_example :
    (allocate_order memory 7 two_queued).1.reserved 7
    ≡ (allocate_order memory 7 two_queued).1.locked 7
allocate_order-IsWhole_example =
    allocate_order-IsWhole memory allocation_store (λ w. refl) 7 two_queued refl refl

-- The allocation of the example succeeds.
allocates : (allocate_order memory 7 two_queued).1.locked 7 ≡ true
unfolding allocate_order check_items reserve_or_undo update_or_undo ensure discard ◌>>=◌
allocates = refl
