-- ===== src/Sales/Orders/Tests.antt =====
-- An order that is pending, and the theorem at it.
use zeus_be.Prelude.{
  Floats, ◌+ℤ◌, ◌*ℤ◌, List, [], ◌∷◌, All, attempt, trim_space, to_upper, String, length, filter,
  ◌==◌, ◌-ℤ◌, ℤ, pos, str_eq, is_blank, true, false, none, some, if◌then◌else◌, ok, err, discard,
  ensure, ◌>>=◌, ◌≡◌, refl,
}
use zeus_be.Sales.Errors.{failed}
use zeus_be.Sales.Model.{
  SalesOrder, SalesOrderItem, SalesOrderStatus, Client, zero_client, zero_time,
}
use zeus_be.Sales.Clients.{
  ClientDeps, Caller, get_client, get_cached_client_by_id, cached_in, cache_client, cache_in,
  resolve_or_create_client, get_cached_client_by_name,
}
use zeus_be.Sales.Orders.Creation.{
  CreateOrderRequest, OrderResponse, absent, is_empty, create_order, check_lines, check_line,
  priced_by, lookup, own_client, store_order, store_rows, create_items, finish_order,
  build_response,
}
use zeus_be.Sales.Orders.Creation.Lines.{IsLine, AreDistinct, Matches}
use zeus_be.Sales.Orders.Creation.Items.{IsSaved, create_order-IsSaved}
use zeus_be.Sales.Orders.Listing.{Metrics, get_metrics, count_orders}
use zeus_be.Sales.Orders.Listing.Counts.{
  Statuses, get_metrics-IsCount, has_code, is_recent, sum_values,
}
use zeus_be.Sales.Orders.{
  OrderDeps, resolve_order_status, get_status_by_id, status_by_id, get_status_by_code, cached_read,
  status_or, cancel_order, drop_queue,
}
use zeus_be.Sales.Orders.Cancel.{resolved_at, cancel_order-saves}

abbrev pending : SalesOrderStatus
pending = record { id = 1; code = "PENDING" }

abbrev cancelled : SalesOrderStatus
cancelled = record { id = 5; code = "CANCELLED" }

abbrev order : SalesOrder ℤ
order = record {
  id = 7;
  client_id = 3;
  client_name = "Ann";
  destination_address = "";
  required_date = pos 0;
  status_id = 1;
  status = some pending;
  total_value = pos 100;
  locked = false;
  created_at = pos 0;
  updated_at = pos 0;
}

-- Prices in whole cents.
abbrev cents : Floats
cents = record {
  Float = ℤ;
  zero_f = pos 0;
  add_f = ◌+ℤ◌;
  mul_f = ◌*ℤ◌;
  div_f = λ a b. a;
  of_int = λ n. n;
}

abbrev ann : Client
ann = record zero_client {
  id = 3;
  name = "Ann";
  tier = "B2C";
  default_destination_address = "Street 1";
}

-- One client, who is in no cache.
abbrev only_ann : ClientDeps (SalesOrder ℤ)
only_ann = record {
  exists_client_by_name = λ name w. (ok true, w);
  get_client_by_name = λ name w. (ok ann, w);
  get_client_row = λ id w. (ok ann, w);
  get_client_by_api_key_prefix = λ prefix w. (ok ann, w);
  list_client_rows = λ w. (ok (ann ∷ []), w);
  insert_client = λ client w. (ok tt, w);
  save_client = λ client w. (ok tt, w);
  remove_client = λ id w. (ok tt, w);
  client_cache = none;
  publisher = none;
  clear_queue = none;
  same_password = λ hash key w. (ok tt, w);
  uuid_string = λ id. "an id";
  upper_rune = λ c. c;
  new_uuid = λ w. (ok 9, w);
  now = λ w. (ok (pos 5), w);
}

-- The order, as it is stored.
abbrev memory : OrderDeps (SalesOrder ℤ) ℤ
memory = record {
  get_order = λ i w. (ok w, w);
  update_order = λ o w. (ok tt, o);
  cached_status_by_id = none;
  cached_status_by_code = none;
  cache_status = λ s w. (ok tt, w);
  get_order_status_by_id = λ i w. (ok (if i == 1 then pending else cancelled), w);
  get_order_status_by_code = λ code w. (
    if str_eq code "CANCELLED"
        then ok cancelled
        else if str_eq code "PENDING"
        then ok pending
        else err (failed 1),
    w,
  );
  clear_queue = none;
  create_order_row = λ o w. (ok tt, o);
  create_order_item = λ item w. (ok tt, w);
  replace_order_items = λ id items w. (ok tt, w);
  get_order_items = λ id w. (ok [], w);
  list_order_rows = λ w. (ok (w ∷ record w { status_id = 5 } ∷ []), w);
  list_pending_rows = λ w. (ok (w ∷ []), w);
  clients = only_ann;
  scm = some (record {
    check_sku = λ sku w. (ok true, w);
    get_product_model_price = λ sku w. (ok (pos 250), w);
  });
  enqueue_order = none;
  publish_created = λ id client total date lines w. (ok tt, w);
  publish_updated = λ id client total date lines w. (ok tt, w);
  publish_audit = λ caller action target details client w. (ok tt, w);
  new_uuid = λ w. (ok 8, w);
  publish_cancelled = λ i w. (ok tt, w);
  now = λ w. (ok (pos 5), w);
}

cancel_order-saves_example :
    (o : SalesOrder ℤ) × (s c : SalesOrderStatus) × (t : ℤ) × ((memory.get_order 7 order).0 ≡ ok o)
    × ((resolve_order_status memory o (memory.get_order 7 order).1).0 ≡ ok (some s))
    × (o.locked ≡ false)
    × (s.code ≡ "PENDING")
    × ((get_status_by_code memory "CANCELLED" (resolved_at memory o 7 order)).0 ≡ ok c)
    × ((memory.now (get_status_by_code memory "CANCELLED" (resolved_at memory o 7 order)).1).0
        ≡ ok t)
    × ((memory.update_order
          (record o { status_id = c.id; status = some c; updated_at = t })
          (memory.now (get_status_by_code memory "CANCELLED" (resolved_at memory o 7 order)).1).1).0
        ≡ ok tt)
unfolding cancel_order resolve_order_status status_by_id get_status_by_code cached_read status_or
    drop_queue ◌>>=◌ ensure discard is_blank
cancel_order-saves_example = cancel_order-saves memory 7 order refl

-- Two of one SKU and one of another.
abbrev two_lines : CreateOrderRequest
two_lines = record {
  required_date = pos 100;
  items =
      record { sku = " A1 "; requested_qty = pos 2 }
      ∷ record { sku = "b2"; requested_qty = pos 1 }
      ∷ [];
}

abbrev nobody : Caller
nobody = record { user_id = ""; email = "" }

abbrev saved_item : String → ℤ → SalesOrderItem ℤ
saved_item sku quantity = record {
  id = 8;
  order_id = 8;
  sku = sku;
  requested_qty = quantity;
  allocated_qty = pos 0;
  unit_price = pos 250;
  created_at = pos 5;
  updated_at = zero_time;
}

abbrev created : OrderResponse ℤ
created = record {
  order = record {
    id = 8;
    client_id = 3;
    client_name = "Ann";
    destination_address = "Street 1";
    required_date = pos 100;
    status_id = 1;
    status = some pending;
    total_value = pos 750;
    locked = false;
    created_at = pos 5;
    updated_at = zero_time;
  };
  client = ann;
  items = saved_item "A1" (pos 2) ∷ saved_item "b2" (pos 1) ∷ [];
}

create_order-IsSaved_example :
    (is_empty cents memory two_lines.items ≡ false)
    × All (IsLine cents memory) two_lines.items
    × AreDistinct cents memory two_lines.items
    × Matches cents memory 8 two_lines.items created.items
    × IsSaved cents memory two_lines created
unfolding create_order check_lines check_line priced_by lookup own_client store_order store_rows
    create_items finish_order build_response get_client get_cached_client_by_id cached_in
    cache_client cache_in resolve_or_create_client get_cached_client_by_name get_status_by_code
    cached_read status_or ◌>>=◌ ensure discard attempt trim_space to_upper ◌+ℤ◌ ◌*ℤ◌
create_order-IsSaved_example =
    create_order-IsSaved cents memory (λ s. none) "" absent nobody two_lines order created refl

abbrev status_table : Statuses cents memory
unfolding attempt get_status_by_id
status_table = record {
  status_of = λ i. some (if i == 1 then pending else cancelled);
  reads = λ i w. refl;
}

-- The order, and another that has been cancelled.
abbrev metrics : Metrics ℤ
metrics = record { total_pending = 1; active_processing_value = pos 0; completed_last_24_hours = 0 }

get_metrics-IsCount_example :
    (orders : List (SalesOrder ℤ)) × (t : ℤ) × (v : SalesOrder ℤ) × ((memory.list_order_rows
        order).0
      ≡ ok orders)
    × ((memory.now v).0 ≡ ok t)
    × (metrics.total_pending
        ≡ length (filter (has_code cents memory status_table "PENDING") orders))
    × (metrics.active_processing_value
        ≡ sum_values cents memory status_table
            (pos 0)
            (filter (has_code cents memory status_table "PROCESSING") orders))
    × (metrics.completed_last_24_hours
        ≡ length (filter (is_recent cents memory status_table (t -ℤ pos 86400000000000)) orders))
unfolding get_metrics count_orders get_status_by_id cached_read status_or ◌>>=◌ attempt
get_metrics-IsCount_example = get_metrics-IsCount cents memory status_table order metrics refl
