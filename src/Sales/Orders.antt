-- ===== src/Sales/Orders.antt =====
-- sales/internal/service/order_service.go: what the order service calls, the statuses of orders and
-- the cancellation.
pub mod Cancel
pub mod Creation
pub mod Revision
pub mod Listing
mod Tests
use zeus_be.Prelude.{
  ℕ, ℤ, String, str_eq, is_blank, Bool, true, false, not, ◌&&◌, ◌||◌, ◌==◌, Option, none, some,
  List, if◌then◌else◌, Action, Done, Result, ok, err, pure, discard, attempt, ensure, ◌>>=◌, ◌>>◌,
}
use zeus_be.Sales.Errors.{SalesError, validation, conflict}
use zeus_be.Sales.Model.{SalesOrderStatus, SalesOrder, SalesOrderItem, Client}
use zeus_be.Sales.Clients.{ClientDeps, Caller}
use zeus_be.Sales.Fulfillment.{AllocationQueueEntry}

-- `infra.SCMClient`, what the order service calls of it.
pub record ScmCatalog (W R : Type 0) : Type 0 where
  pub check_sku : String → Action W SalesError Bool
  pub get_product_model_price : String → Action W SalesError R

-- What `OrderService` calls. The reads of a status go through the cache of
-- `Infrastructure`, where there is one; `clear_queue` is of `svc.cache`, where that is not nil.
pub record OrderDeps (W R : Type 0) : Type 0 where
  pub get_order : ℕ → Action W SalesError (SalesOrder R)
  pub update_order : SalesOrder R → Action W SalesError Done
  pub cached_status_by_id : Option (ℕ → Action W SalesError (Option SalesOrderStatus))
  pub cached_status_by_code : Option (String → Action W SalesError (Option SalesOrderStatus))
  pub cache_status : SalesOrderStatus → Action W SalesError Done
  pub get_order_status_by_id : ℕ → Action W SalesError SalesOrderStatus
  pub get_order_status_by_code : String → Action W SalesError SalesOrderStatus
  pub clear_queue : Option (Action W SalesError Done)
  pub create_order_row : SalesOrder R → Action W SalesError Done
  pub create_order_item : SalesOrderItem R → Action W SalesError Done
  pub replace_order_items : ℕ → List (SalesOrderItem R) → Action W SalesError Done
  pub get_order_items : ℕ → Action W SalesError (List (SalesOrderItem R))
  pub list_order_rows : Action W SalesError (List (SalesOrder R))
  pub list_pending_rows : Action W SalesError (List (SalesOrder R))
  pub clients : ClientDeps W
  pub scm : Option (ScmCatalog W R)
  -- of `svc.cache`, where that is not nil
  pub enqueue_order : Option (AllocationQueueEntry → Action W SalesError Done)
  -- `OrderCreatedQueue` and `OrderUpdatedQueue`, with the order, the client, the total, the date and
  -- each SKU with its quantity
  pub publish_created : ℕ → ℕ → R → ℤ → List (String × ℤ) → Action W SalesError Done
  pub publish_updated : ℕ → ℕ → R → ℤ → List (String × ℤ) → Action W SalesError Done
  pub publish_audit : Caller → String → String → String → Client → Action W SalesError Done
  pub new_uuid : Action W SalesError ℕ
  -- `OrderCancelledQueue`, with the order
  pub publish_cancelled : ℕ → Action W SalesError Done
  pub now : Action W SalesError ℤ

abbrev found_status : Option (Option SalesOrderStatus) → Option SalesOrderStatus
found_status none = none
found_status (some found) = found

module _ {W : Type 0} where
  -- A status from the cache, or else from the table and then cached.
  pub status_or :
      (SalesOrderStatus → Action W SalesError Done)
      → Action W SalesError SalesOrderStatus
      → Bool
      → Option SalesOrderStatus
      → Action W SalesError SalesOrderStatus
  status_or cache_status read is_cached (some status) = pure status
  status_or cache_status read true none = do
    status ← read
    discard (cache_status status)
    pure status
  status_or cache_status read false none = read

  pub cached_read :
      {K : Type 0}
      → Option (K → Action W SalesError (Option SalesOrderStatus))
      → (SalesOrderStatus → Action W SalesError Done)
      → (K → Action W SalesError SalesOrderStatus)
      → K
      → Action W SalesError SalesOrderStatus
  unfolding status_or
  cached_read none cache_status read key = status_or cache_status (read key) false none
  cached_read (some cache) cache_status read key = do
    found ← attempt (cache key)
    status_or cache_status (read key) true (found_status found)

module _ {W R : Type 0} (D : OrderDeps W R) where
  open D use {
    get_order, update_order, cached_status_by_id, cached_status_by_code, cache_status,
    get_order_status_by_id, get_order_status_by_code, clear_queue, publish_cancelled, now,
  }

  pub get_status_by_id : ℕ → Action W SalesError SalesOrderStatus
  unfolding cached_read
  get_status_by_id = cached_read cached_status_by_id cache_status get_order_status_by_id

  pub get_status_by_code : String → Action W SalesError SalesOrderStatus
  unfolding cached_read
  get_status_by_code = cached_read cached_status_by_code cache_status get_order_status_by_code

  abbrev own_status : Option SalesOrderStatus → Option SalesOrderStatus
  own_status none = none
  own_status (some status) = if is_blank status.code then none else some status

  status_by_id : Option SalesOrderStatus → ℕ → Action W SalesError (Option SalesOrderStatus)
  unfolding get_status_by_id
  status_by_id (some status) id = pure (some status)
  status_by_id none id =
      if id == 0 then pure none else (get_status_by_id id >>= λ status. pure (some status))

  -- The status that the order carries, or the one of its id. (The source also notes it in the order.)
  pub resolve_order_status : SalesOrder R → Action W SalesError (Option SalesOrderStatus)
  unfolding status_by_id
  resolve_order_status order = status_by_id (own_status order.status) order.status_id

  abbrev pub is_pending : Option SalesOrderStatus → Bool
  is_pending none = false
  is_pending (some status) = str_eq status.code "PENDING"

  drop_queue : Option (Action W SalesError Done) → Action W SalesError Done
  drop_queue none = pure tt
  drop_queue (some clear) = discard clear

  pub cancel_order : ℕ → Action W SalesError Done
  unfolding resolve_order_status get_status_by_code drop_queue
  cancel_order id = do
    ensure (not (id == 0)) (validation "order id is required")
    order ← get_order id
    status ← resolve_order_status order
    ensure (not order.locked && is_pending status)
        (conflict "order cannot be cancelled once processing has started")
    cancelled ← get_status_by_code "CANCELLED"
    t ← now
    update_order
        (record order { status_id = cancelled.id; status = some cancelled; updated_at = t })
    drop_queue clear_queue
    discard (publish_cancelled order.id)
