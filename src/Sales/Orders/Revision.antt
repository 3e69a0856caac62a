-- ===== src/Sales/Orders/Revision.antt =====
-- sales/internal/service/order_service.go, `UpdateOrder`. The text that `fmt.Errorf` puts before an
-- error of the supply chain service is left out.
use zeus_be.Prelude.{
  ℕ, ℤ, pos, String, trim_space, not, ◌&&◌, ◌||◌, ◌==◌, Option, none, some, List, [], ◌∷◌, Action,
  Done, pure, discard, attempt, ensure, ◌>>=◌, ◌>>◌, Floats,
}
use zeus_be.Sales.Errors.{SalesError, validation, conflict}
use zeus_be.Sales.Model.{SalesOrder, SalesOrderItem, Client, zero_time, zero_client}
use zeus_be.Sales.Orders.{OrderDeps, resolve_order_status, is_pending}
use zeus_be.Sales.Orders.Creation.{
  OrderItemRequest, OrderResponse, is_some, quantities, key_of, check_line, is_empty,
}

pub record UpdateOrderRequest : Type 0 where
  pub destination_address : Option String
  pub required_date : Option ℤ
  pub items : List OrderItemRequest

module _ {W : Type 0} (F : Floats) (D : OrderDeps W F.Float) where
  open D use {
    get_order, update_order, clear_queue, create_order_row, create_order_item, replace_order_items,
    get_order_items, clients, scm, enqueue_order, publish_created, publish_updated, publish_audit,
    new_uuid, now,
  }
  open F use {Float, zero_f, add_f, mul_f, of_int}

  -- The loop of `UpdateOrder`: the new items and the total.
  pub replaced_items :
      ℕ
      → List (String × Float)
      → Float
      → List OrderItemRequest
      → Action W SalesError (List (SalesOrderItem Float) × Float)
  unfolding check_line
  replaced_items order_id prices total [] = pure ([], total)
  replaced_items order_id prices total (line ∷ lines) = do
    price ← check_line F D prices line
    id ← new_uuid
    t ← now
    rest ←
        replaced_items order_id ((key_of F D line.sku, price) ∷ prices)
          (add_f total (mul_f (of_int line.requested_qty) price)) lines
    pure (
      record {
        id = id;
        order_id = order_id;
        sku = trim_space line.sku;
        requested_qty = line.requested_qty;
        allocated_qty = pos 0;
        unit_price = price;
        created_at = t;
        updated_at = zero_time;
      }
          ∷ rest.0,
      rest.1,
    )

  pub replace_lines :
      SalesOrder Float → List OrderItemRequest → Action W SalesError (SalesOrder Float)
  unfolding replaced_items
  replace_lines order [] = pure order
  replace_lines order (line ∷ lines) = do
    replaced ← replaced_items order.id [] zero_f (line ∷ lines)
    replace_order_items order.id replaced.0
    pure (record order { total_value = replaced.1 })

  abbrev readdressed : Option String → SalesOrder Float → SalesOrder Float
  readdressed none order = order
  readdressed (some address) order = record order { destination_address = trim_space address }

  abbrev redated : Option ℤ → SalesOrder Float → SalesOrder Float
  redated none order = order
  redated (some date) order = record order { required_date = date }

  abbrev or_none : Option (List (SalesOrderItem Float)) → List (SalesOrderItem Float)
  or_none none = []
  or_none (some items) = items

  abbrev or_blank : Option Client → Client
  or_blank none = zero_client
  or_blank (some client) = client

  abbrev clear_in : Option (Action W SalesError Done) → Action W SalesError Done
  clear_in none = pure tt
  clear_in (some clear) = clear

  pub update_order_with : ℕ → UpdateOrderRequest → Action W SalesError (OrderResponse Float)
  unfolding replace_lines
  update_order_with id req = do
    ensure (not (id == 0)) (validation "order id is required")
    found ← get_order id
    status ← resolve_order_status D found
    ensure (not found.locked && is_pending D status)
        (conflict "order is locked or no longer editable")
    ensure
        (is_some req.destination_address
          || is_some req.required_date
          || not (is_empty F D req.items))
        (validation "update request is empty")
    order ←
        replace_lines
          (redated req.required_date
            (readdressed req.destination_address (record found { status = status })))
          req.items
    update_order order
    clear_in clear_queue
    items ← attempt (get_order_items order.id)
    client ← attempt (clients.get_client_row order.client_id)
    discard (
        publish_updated order.id order.client_id order.total_value order.required_date
          (quantities (or_none items)))
    pure (record { order = order; client = or_blank client; items = or_none items })
