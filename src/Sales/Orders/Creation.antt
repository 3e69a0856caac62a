-- ===== src/Sales/Orders/Creation.antt =====
-- sales/internal/service/order_service.go, `CreateOrder` and `GetOrder`. The text that
-- `fmt.Errorf` puts before an error of the supply chain service is left out.
pub mod Lines
pub mod Items
use zeus_be.Prelude.{
  ℕ, ℤ, pos, ◌+ℤ◌, add64, ltb_ℤ, eqb_ℤ, String, str_eq, concat, trim_space, to_upper, is_blank,
  Bool, true, false, not, ◌&&◌, ◌||◌, ◌==◌, Option, none, some, List, [], ◌∷◌, map, if◌then◌else◌,
  Action, Done, pure, raise, discard, attempt, ensure, ◌>>=◌, ◌>>◌, Floats,
}
use zeus_be.Sales.Errors.{SalesError, validation, conflict}
use zeus_be.Sales.Model.{
  SalesOrder, SalesOrderItem, SalesOrderStatus, Client, zero_time, zero_client,
}
use zeus_be.Sales.Clients.{ClientDeps, Caller, get_client, resolve_or_create_client}
use zeus_be.Sales.Fulfillment.{AllocationQueueEntry}
use zeus_be.Sales.Orders.{
  OrderDeps, ScmCatalog, get_status_by_id, get_status_by_code, resolve_order_status, is_pending,
}

pub record OrderItemRequest : Type 0 where
  pub sku : String
  pub requested_qty : ℤ

pub record CreateOrderRequest : Type 0 where
  pub required_date : ℤ
  pub items : List OrderItemRequest

pub record OrderResponse (R : Type 0) : Type 0 where
  pub order : SalesOrder R
  pub client : Client
  pub items : List (SalesOrderItem R)

-- What the context holds for the user: a text, a uuid or nothing.
pub data UserId : Type 0 where
  text : String → UserId
  uuid : ℕ → UserId
  absent : UserId

unfoldable pub lookup : {R : Type 0} → String → List (String × R) → Option R
lookup key [] = none
lookup key ((k, r) ∷ ps) = if str_eq k key then some r else lookup key ps

abbrev pub is_some : {A : Type 0} → Option A → Bool
is_some none = false
is_some (some a) = true

-- The SKUs and quantities of a message.
abbrev pub quantities : {R : Type 0} → List (SalesOrderItem R) → List (String × ℤ)
quantities [] = []
quantities (item ∷ items) = (item.sku, item.requested_qty) ∷ quantities items

module _ {W : Type 0} (F : Floats) (D : OrderDeps W F.Float) where
  open D use {
    get_order, update_order, clear_queue, create_order_row, create_order_item, replace_order_items,
    get_order_items, clients, scm, enqueue_order, publish_created, publish_updated, publish_audit,
    new_uuid, now,
  }
  open F use {Float, zero_f, add_f, mul_f, of_int}

  abbrev pub key_of : String → String
  key_of sku = to_upper clients.upper_rune (trim_space sku)

  unfoldable pub priced_by : Option (ScmCatalog W Float) → String → Action W SalesError Float
  priced_by none sku = pure zero_f
  priced_by (some catalog) sku = do
    valid ← catalog.check_sku sku
    ensure valid (
        validation (concat (concat "SKU " sku) " is not an active, orderable finished good in SCM"))
    catalog.get_product_model_price sku

  -- The checks of one line, in a loop that has seen the keys of `prices`: its price.
  unfoldable pub check_line : List (String × Float) → OrderItemRequest → Action W SalesError Float
  unfolding priced_by lookup
  check_line prices item = do
    ensure (not (str_eq (trim_space item.sku) "")) (validation "sku is required")
    ensure (ltb_ℤ (pos 0) item.requested_qty) (
        validation
          (concat (concat "requested quantity for " (trim_space item.sku)) " must be positive"))
    ensure (not (is_some (lookup (key_of item.sku) prices)))
        (validation (concat "duplicate sku " (trim_space item.sku)))
    priced_by scm (trim_space item.sku)

  -- The loop: the prices by key, and the total.
  unfoldable pub check_lines :
      List (String × Float)
      → Float
      → List OrderItemRequest
      → Action W SalesError (List (String × Float) × Float)
  unfolding check_line
  check_lines prices total [] = pure (prices, total)
  check_lines prices total (item ∷ items) = do
    price ← check_line prices item
    check_lines ((key_of item.sku, price) ∷ prices)
        (add_f total (mul_f (of_int item.requested_qty) price)) items

  abbrev or_zero : Option Float → Float
  or_zero none = zero_f
  or_zero (some price) = price

  unfoldable pub create_items :
      ℕ
      → List (String × Float)
      → List OrderItemRequest
      → Action W SalesError (List (SalesOrderItem Float))
  unfolding lookup
  create_items order_id prices [] = pure []
  create_items order_id prices (line ∷ lines) = do
    id ← new_uuid
    t ← now
    let item : SalesOrderItem Float = record {
      id = id;
      order_id = order_id;
      sku = trim_space line.sku;
      requested_qty = line.requested_qty;
      allocated_qty = pos 0;
      unit_price = or_zero (lookup (key_of line.sku) prices);
      created_at = t;
      updated_at = zero_time;
    }
    create_order_item item
    items ← create_items order_id prices lines
    pure (item ∷ items)

  unfoldable pub client_with : Option ℕ → Action W SalesError (Option Client)
  client_with none = pure none
  client_with (some id) =
      if id == 0 then pure none else (get_client clients id >>= λ client. pure (some client))

  abbrev user_uuid : (String → Option ℕ) → UserId → Option ℕ
  user_uuid parse_uuid (text s) = parse_uuid s
  user_uuid parse_uuid (uuid i) = some i
  user_uuid parse_uuid absent = some 0

  -- The client of a user whose role is "client".
  unfoldable pub own_client :
      (String → Option ℕ) → String → UserId → Action W SalesError (Option Client)
  unfolding client_with
  own_client parse_uuid role user =
      if str_eq role "client" then client_with (user_uuid parse_uuid user) else pure none

  abbrev or_default : Option Client → Action W SalesError Client
  or_default (some client) = pure client
  or_default none = resolve_or_create_client clients "Default Client" "Default Address" "B2C"

  abbrev enqueue_in :
      Option (AllocationQueueEntry → Action W SalesError Done)
      → AllocationQueueEntry
      → Action W SalesError Done
  enqueue_in none entry = pure tt
  enqueue_in (some enqueue) entry = discard (enqueue entry)

  abbrev status_or_read :
      SalesOrder Float → Option SalesOrderStatus → Bool → Action W SalesError (SalesOrder Float)
  status_or_read order (some status) b = pure order
  status_or_read order none true = pure order
  status_or_read order none false = do
    status ← get_status_by_id D order.status_id
    pure (record order { status = some status })

  unfoldable pub build_response :
      SalesOrder Float → List (SalesOrderItem Float) → Action W SalesError (OrderResponse Float)
  build_response order items = do
    order' ← status_or_read order order.status (order.status_id == 0)
    client ← get_client clients order.client_id
    pure (record { order = order'; client = client; items = items })

  -- What is saved and told once the rows of the order are stored.
  unfoldable pub finish_order :
      Caller
      → Client
      → SalesOrder Float
      → List (SalesOrderItem Float)
      → Action W SalesError (OrderResponse Float)
  unfolding build_response
  finish_order caller client order items = do
    clients.save_client
        (record client { total_lifetime_orders = add64 client.total_lifetime_orders (pos 1) })
    enqueue_in enqueue_order (record {
      order_id = order.id;
      client_id = client.id;
      client_tier = client.tier;
      required_date = order.required_date;
      ingested_at = order.created_at;
    })
    discard (
        publish_created order.id client.id order.total_value order.required_date (quantities items))
    discard (
        publish_audit caller "CREATE" (concat "sales/orders/" (clients.uuid_string order.id))
          (concat
            (concat (concat "Created sales order " (clients.uuid_string order.id)) " for client ")
            client.name)
          client)
    build_response order items

  unfoldable pub store_rows :
      Caller
      → List OrderItemRequest
      → List (String × Float)
      → Client
      → SalesOrder Float
      → Action W SalesError (OrderResponse Float)
  unfolding create_items finish_order
  store_rows caller lines prices client order = do
    create_order_row order
    items ← create_items order.id prices lines
    finish_order caller client order items

  abbrev new_order : Client → ℤ → Float → SalesOrderStatus → ℕ → ℤ → SalesOrder Float
  new_order client required_date total pending order_id t = record {
    id = order_id;
    client_id = client.id;
    client_name = client.name;
    destination_address = client.default_destination_address;
    required_date = required_date;
    status_id = pending.id;
    status = some pending;
    total_value = total;
    locked = false;
    created_at = t;
    updated_at = zero_time;
  }

  -- From the prices and the client on.
  unfoldable pub store_order :
      Caller
      → CreateOrderRequest
      → List (String × Float)
      → Float
      → Client
      → Action W SalesError (OrderResponse Float)
  unfolding store_rows
  store_order caller req prices total client = do
    pending ← get_status_by_code D "PENDING"
    order_id ← new_uuid
    t ← now
    store_rows caller req.items prices client
        (new_order client req.required_date total pending order_id t)

  abbrev pub is_empty : {A : Type 0} → List A → Bool
  is_empty [] = true
  is_empty (a ∷ as') = false

  -- `parse_uuid` is `uuid.Parse`; `role` and `user` are what the context holds.
  unfoldable pub create_order :
      (String → Option ℕ)
      → String
      → UserId
      → Caller
      → CreateOrderRequest
      → Action W SalesError (OrderResponse Float)
  unfolding check_lines own_client store_order
  create_order parse_uuid role user caller req = do
    ensure (not (eqb_ℤ req.required_date zero_time)) (validation "required date is required")
    ensure (not (is_empty req.items)) (validation "at least one order item is required")
    checked ← check_lines [] zero_f req.items
    own ← own_client parse_uuid role user
    client ← or_default own
    store_order caller req checked.0 checked.1 client

  pub get_order_response : ℕ → Action W SalesError (OrderResponse Float)
  unfolding build_response
  get_order_response id = do
    ensure (not (id == 0)) (validation "order id is required")
    order ← get_order id
    items ← get_order_items id
    build_response order items
