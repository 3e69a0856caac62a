-- ===== src/Sales/Fulfillment.antt =====
-- sales/internal/service/fulfillment_service.go: the allocation of orders, and the queue of those
-- that wait for it, over the database, the Valkey repository and the publisher. The counter of
-- fulfilled orders is left out.
pub mod Queue
pub mod Allocation
mod Tests
use zeus_be.Prelude.{
  ℕ, zero, suc, ℤ, ltb_ℤ, String, Bool, true, false, not, ◌==◌, Option, none, some, List, [], ◌∷◌,
  ◌++◌, if◌then◌else◌, Action, Done, Result, ok, err, pure, raise, discard, ensure, ◌>>=◌, ◌>>◌,
}
use zeus_be.Sales.Errors.{SalesError, insufficient_inventory, validation, failed, conflict, message}
use zeus_be.Sales.Model.{SalesOrder, SalesOrderItem, SalesOrderStatus, Client}

pub record AllocationQueueEntry : Type 0 where
  pub order_id : ℕ
  pub client_id : ℕ
  pub client_tier : String
  pub required_date : ℤ
  pub ingested_at : ℤ

pub record ReservationItem : Type 0 where
  pub sku : String
  pub quantity : ℤ

pub record InventoryReservation : Type 0 where
  pub id : ℕ
  pub order_id : ℕ
  pub items : List ReservationItem
  pub reserved_at : ℤ

pub record FulfillmentManifest : Type 0 where
  pub order_id : ℕ
  pub client_id : ℕ
  pub destination_address : String
  pub items : List ReservationItem
  pub generated_at : ℤ

-- `DbRepository`, `CacheRepository`, the publisher, `uuid.New` and `time.Now`. `get_status_by_code`
-- is the service's own, which reads as that of the order service.
pub record FulfillmentDeps (W R : Type 0) : Type 0 where
  pub get_order : ℕ → Action W SalesError (SalesOrder R)
  pub get_order_items : ℕ → Action W SalesError (List (SalesOrderItem R))
  pub list_pending_orders : Action W SalesError (List (SalesOrder R))
  pub get_client : ℕ → Action W SalesError Client
  pub update_order : SalesOrder R → Action W SalesError Done
  pub create_reservation : InventoryReservation → Action W SalesError Done
  pub delete_reservation : ℕ → Action W SalesError Done
  pub get_status_by_code : String → Action W SalesError SalesOrderStatus
  pub get_atp : String → Action W SalesError ℤ
  pub reserve_inventory : ℕ → List ReservationItem → Action W SalesError Done
  pub release_inventory : ℕ → Action W SalesError Done
  pub list_queue : Action W SalesError (List AllocationQueueEntry)
  pub clear_queue : Action W SalesError Done
  pub enqueue_order : AllocationQueueEntry → Action W SalesError Done
  pub dequeue_order : Action W SalesError (Option AllocationQueueEntry)
  -- "sales.fulfillment.processed", with the order and the client
  pub publish_processed : ℕ → ℕ → Action W SalesError Done
  pub new_uuid : Action W SalesError ℕ
  pub now : Action W SalesError ℤ

-- How a run over the queue ends: the queue is empty, an allocation or the queue failed, or the fuel
-- of the model is used up. The manifests so far are returned in any case.
pub data Outcome : Type 0 where
  finished : List FulfillmentManifest → Outcome
  stopped : List FulfillmentManifest → SalesError → Outcome
  exhausted : Outcome

module _ {W R : Type 0} (D : FulfillmentDeps W R) where
  open D use {
    get_order, get_order_items, list_pending_orders, get_client, update_order, create_reservation,
    delete_reservation, get_status_by_code, get_atp, reserve_inventory, release_inventory,
    list_queue, clear_queue, enqueue_order, dequeue_order, publish_processed, new_uuid, now,
  }

  pub queue_entries : List (SalesOrder R) → Action W SalesError (List AllocationQueueEntry)
  queue_entries [] = pure []
  queue_entries (order ∷ orders) = do
    client ← get_client order.client_id
    rest ← queue_entries orders
    pure (
        record {
          order_id = order.id;
          client_id = client.id;
          client_tier = client.tier;
          required_date = order.required_date;
          ingested_at = order.created_at;
        }
        ∷ rest)

  pub enqueue_all : List AllocationQueueEntry → Action W SalesError Done
  enqueue_all [] = pure tt
  enqueue_all (entry ∷ entries) = do enqueue_order entry; enqueue_all entries

  pub rebuild_queue : Action W SalesError (List AllocationQueueEntry)
  unfolding queue_entries enqueue_all
  rebuild_queue = do
    orders ← list_pending_orders
    entries ← queue_entries orders
    clear_queue
    enqueue_all entries
    pure entries

  pub or_rebuilt : List AllocationQueueEntry → Action W SalesError (List AllocationQueueEntry)
  unfolding rebuild_queue
  or_rebuilt [] = rebuild_queue
  or_rebuilt (entry ∷ entries) = pure (entry ∷ entries)

  -- What `GetQueueStatus` returns, and where `ProcessQueue` begins.
  pub get_queue_status : Action W SalesError (List AllocationQueueEntry)
  unfolding or_rebuilt
  get_queue_status = do entries ← list_queue; or_rebuilt entries

  -- The loop over the lines: each asks for what is available to promise.
  pub check_items : List (SalesOrderItem R) → Action W SalesError (List ReservationItem)
  check_items [] = pure []
  check_items (item ∷ items) = do
    atp ← get_atp item.sku
    ensure (not (ltb_ℤ atp item.requested_qty)) insufficient_inventory
    rest ← check_items items
    pure (record { sku = item.sku; quantity = item.requested_qty } ∷ rest)

  -- `if err := m(); err != nil { undo(); return err }`
  abbrev or_undo : Result SalesError Done × W → (W → W) → Result SalesError Done × W
  or_undo (ok done, w) undo = (ok done, w)
  or_undo (err e, w) undo = (err e, undo w)

  pub reserve_or_undo : InventoryReservation → Action W SalesError Done
  reserve_or_undo reservation w =
      or_undo (create_reservation reservation w) (λ u. (release_inventory reservation.order_id u).1)

  pub update_or_undo : SalesOrder R → ℕ → Action W SalesError Done
  update_or_undo order order_id w =
      or_undo (update_order order w)
        (λ u. (delete_reservation order_id (release_inventory order_id u).1).1)

  pub allocate_order : ℕ → Action W SalesError FulfillmentManifest
  unfolding check_items reserve_or_undo update_or_undo
  allocate_order order_id = do
    ensure (not (order_id == 0)) (validation "order id is required")
    order ← get_order order_id
    items ← get_order_items order_id
    processing ← get_status_by_code "PROCESSING"
    reserved ← check_items items
    reserve_inventory order_id reserved
    id ← new_uuid
    t ← now
    reserve_or_undo (record { id = id; order_id = order_id; items = reserved; reserved_at = t })
    update_or_undo
        (record order { status_id = processing.id; status = some processing; locked = true })
        order_id
    client ← get_client order.client_id
    discard (publish_processed order.id client.id)
    t' ← now
    pure (record {
      order_id = order.id;
      client_id = client.id;
      destination_address = order.destination_address;
      items = reserved;
      generated_at = t';
    })

  -- `errors.Is(err, repository.ErrInsufficientInventory)`
  abbrev put_back : SalesError → AllocationQueueEntry → W → W
  put_back insufficient_inventory entry w = (enqueue_order entry w).1
  put_back (validation text) entry w = w
  put_back (conflict text) entry w = w
  put_back (message text) entry w = w
  put_back (failed e) entry w = w

  -- One turn of the loop after a dequeue; `rest` is the loop from there on.
  abbrev after_allocate :
      List FulfillmentManifest
      → AllocationQueueEntry
      → (List FulfillmentManifest → W → Outcome × W)
      → Result SalesError FulfillmentManifest × W
      → Outcome × W
  after_allocate manifests entry rest (ok manifest, w) = rest (manifests ++ manifest ∷ []) w
  after_allocate manifests entry rest (err e, w) = (stopped manifests e, put_back e entry w)

  pub after_dequeue :
      List FulfillmentManifest
      → (List FulfillmentManifest → W → Outcome × W)
      → Result SalesError (Option AllocationQueueEntry) × W
      → Outcome × W
  unfolding allocate_order
  after_dequeue manifests rest (err e, w) = (stopped manifests e, w)
  after_dequeue manifests rest (ok none, w) = (finished manifests, w)
  after_dequeue manifests rest (ok (some entry), w) =
      after_allocate manifests entry rest (allocate_order entry.order_id w)

  pub process_entries : ℕ → List FulfillmentManifest → W → Outcome × W
  unfolding after_dequeue
  process_entries zero manifests w = (exhausted, w)
  process_entries (suc fuel) manifests w =
      after_dequeue manifests (process_entries fuel) (dequeue_order w)

  abbrev start : ℕ → Result SalesError (List AllocationQueueEntry) × W → Outcome × W
  start fuel (ok entries, w) = process_entries fuel [] w
  start fuel (err e, w) = (stopped [] e, w)

  pub process_queue : ℕ → W → Outcome × W
  unfolding get_queue_status process_entries
  process_queue fuel w = start fuel (get_queue_status w)
