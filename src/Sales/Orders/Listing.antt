-- ===== src/Sales/Orders/Listing.antt =====
-- sales/internal/service/order_service.go: the lists of orders and their metrics. A count of rows is
-- a natural number, since a list in memory is shorter than an `int` can tell.
pub mod Counts
use zeus_be.Prelude.{
  ℕ, ◌+◌, ℤ, pos, ◌-ℤ◌, ltb_ℤ, String, str_eq, trim_space, to_upper, Bool, true, false, ◌&&◌,
  Option, none, some, List, [], ◌∷◌, length, filter, any, if◌then◌else◌, Action, ok, pure, attempt,
  ◌>>=◌, >>=-ok, ok-injective, Floats, ◌≡◌, refl, sym, ap, ◌∙◌, subst, eq_iff, filter_yes,
  filter_no, arith, Bool-cases, inl, inr,
}
use zeus_be.Sales.Errors.{SalesError}
use zeus_be.Sales.Model.{SalesOrder, SalesOrderStatus, Client}
use zeus_be.Sales.Clients.{get_client}
use zeus_be.Sales.Orders.{OrderDeps, get_status_by_id}

pub record OrderListItem (R : Type 0) : Type 0 where
  pub order_id : ℕ
  pub client_name : String
  pub required_date : ℤ
  pub total_value : R
  pub status : String

pub record Metrics (R : Type 0) : Type 0 where
  pub total_pending : ℕ
  pub active_processing_value : R
  pub completed_last_24_hours : ℕ

abbrev name_of : Option Client → String
name_of none = ""
name_of (some client) = client.name

abbrev pub code_of : Option SalesOrderStatus → String
code_of none = ""
code_of (some status) = status.code

module _ {W R : Type 0} (D : OrderDeps W R) where
  open D use {list_order_rows, list_pending_rows, clients}

  list_item : SalesOrder R → Action W SalesError (OrderListItem R)
  list_item order = do
    client ← attempt (get_client clients order.client_id)
    pure (record {
      order_id = order.id;
      client_name = name_of client;
      required_date = order.required_date;
      total_value = order.total_value;
      status = code_of order.status;
    })

  pub list_items : List (SalesOrder R) → Action W SalesError (List (OrderListItem R))
  unfolding list_item
  list_items [] = pure []
  list_items (order ∷ orders) = do
    item ← list_item order
    items ← list_items orders
    pure (item ∷ items)

  pub list_orders : Action W SalesError (List (OrderListItem R))
  unfolding list_items
  list_orders = do orders ← list_order_rows; list_items orders

  pub list_pending_orders : Action W SalesError (List (OrderListItem R))
  unfolding list_items
  list_pending_orders = do orders ← list_pending_rows; list_items orders

  abbrev on_day : (ℤ → ℤ → Bool) → Option ℤ → ℤ → Bool
  on_day same_day none date = true
  on_day same_day (some day) date = same_day date day

  abbrev upper_code : Option SalesOrderStatus → Option String
  upper_code none = none
  upper_code (some status) = some (to_upper clients.upper_rune status.code)

  abbrev member : List String → Option String → Bool
  member states none = false
  member states (some code) = any (λ state. str_eq state code) states

  -- Whether the status of an order is asked for. No states ask for all.
  in_states : List String → SalesOrder R → Action W SalesError Bool
  in_states [] order = pure true
  in_states (state ∷ states) order = do
    status ← attempt (get_status_by_id D order.status_id)
    pure (member (state ∷ states) (upper_code status))

  abbrev item_if :
      SalesOrder R
      → Bool
      → Action W SalesError (List (OrderListItem R))
      → Action W SalesError (List (OrderListItem R))
  item_if order true rest = do item ← list_item order; items ← rest; pure (item ∷ items)
  item_if order false rest = rest

  pub filtered_items :
      (ℤ → ℤ → Bool)
      → List String
      → Option ℤ
      → List (SalesOrder R)
      → Action W SalesError (List (OrderListItem R))
  unfolding list_item in_states
  filtered_items same_day states date [] = pure []
  filtered_items same_day states date (order ∷ orders) =
      let rest = filtered_items same_day states date orders in
      if on_day same_day date order.required_date
      then (in_states states order >>= λ included. item_if order included rest)
      else rest

  abbrev normalized : List String → List String
  normalized [] = []
  normalized (s ∷ ss) = to_upper clients.upper_rune (trim_space s) ∷ normalized ss

  -- `same_day` compares the dates of two times, each in its time zone.
  pub list_orders_with_filters :
      (ℤ → ℤ → Bool) → List String → Option ℤ → Action W SalesError (List (OrderListItem R))
  unfolding filtered_items
  list_orders_with_filters same_day states date = do
    orders ← list_order_rows
    filtered_items same_day (normalized states) date orders

module _ {W : Type 0} (F : Floats) (D : OrderDeps W F.Float) where
  open F use {Float, zero_f, add_f}

  -- What an order of a status adds to the metrics.
  abbrev counted : ℤ → SalesOrder Float → Option SalesOrderStatus → Metrics Float → Metrics Float
  counted cutoff order none m = m
  counted cutoff order (some status) m =
      if str_eq status.code "PENDING"
      then record m { total_pending = m.total_pending + 1 }
      else if str_eq status.code "PROCESSING"
      then record m { active_processing_value = add_f m.active_processing_value order.total_value }
      else if str_eq status.code "COMPLETED"
      then (if ltb_ℤ cutoff order.updated_at
          then record m { completed_last_24_hours = m.completed_last_24_hours + 1 }
          else m)
      else m

  unfoldable pub count_orders :
      ℤ → List (SalesOrder Float) → Metrics Float → Action W SalesError (Metrics Float)
  count_orders cutoff [] m = pure m
  count_orders cutoff (order ∷ orders) m = do
    status ← attempt (get_status_by_id D order.status_id)
    count_orders cutoff orders (counted cutoff order status m)

  abbrev zero_metrics : Metrics Float
  zero_metrics = record {
    total_pending = 0;
    active_processing_value = zero_f;
    completed_last_24_hours = 0;
  }

  unfoldable pub get_metrics : Action W SalesError (Metrics Float)
  unfolding count_orders
  get_metrics = do
    orders ← D.list_order_rows
    t ← D.now
    count_orders (t -ℤ pos 86400000000000) orders zero_metrics
