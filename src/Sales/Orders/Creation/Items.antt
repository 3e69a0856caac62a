-- ===== src/Sales/Orders/Creation/Items.antt =====
-- sales/internal/service/order_service.go, `CreateOrder`: what an order that is created is made of.
use zeus_be.Prelude.{
  not-true, ℕ, ◌==◌, ℤ, eqb_ℤ, String, false, not, Option, some, List, [], All, ok, >>=-ok,
  ensure-ok, ok-injective, Floats, ◌≡◌, refl, sym, ap, ◌∙◌, subst,
}
use zeus_be.Sales.Model.{SalesOrder, SalesOrderItem, SalesOrderStatus, Client, zero_time}
use zeus_be.Sales.Clients.{Caller}
use zeus_be.Sales.Orders.{OrderDeps, get_status_by_code}
use zeus_be.Sales.Orders.Creation.{
  OrderItemRequest, CreateOrderRequest, OrderResponse, UserId, check_lines, create_items,
  own_client, store_order, store_rows, new_order, finish_order, build_response, status_or_read,
  is_empty, create_order,
}
use zeus_be.Sales.Orders.Creation.Lines.{
  IsLine, AreDistinct, Matches, value_of, value_by, check_lines-ok, create_items-Matches,
}

module _ {W : Type 0} (F : Floats) (D : OrderDeps W F.Float) where
  open F use {Float, zero_f, add_f, mul_f, of_int}

  -- What the response is of: an order that has been saved under its id, without an error, as
  -- unlocked and with the status that PENDING stands for.
  abbrev pub IsSaved : CreateOrderRequest → OrderResponse Float → Type 0
  IsSaved req r =
      (client : Client) × (pending : SalesOrderStatus) × (t : ℤ) × (u v : W) × ((get_status_by_code
          D "PENDING" u).0
        ≡ ok pending)
      × ((D.create_order_row r.order v).0 ≡ ok tt)
      × (r.order ≡ record {
        id = r.order.id;
        client_id = client.id;
        client_name = client.name;
        destination_address = client.default_destination_address;
        required_date = req.required_date;
        status_id = pending.id;
        status = some pending;
        total_value = value_of F D zero_f r.items;
        locked = false;
        created_at = t;
        updated_at = zero_time;
      })

  build_response-ok :
      (order : SalesOrder Float) (status : SalesOrderStatus) (items : List (SalesOrderItem Float))
      (w : W) (r : OrderResponse Float)
      → order.status ≡ some status
      → (build_response F D order items w).0 ≡ ok r
      → (order ≡ r.order) × (items ≡ r.items)
  unfolding build_response
  build_response-ok order status items w r e h =
      let (order', same, h₁) =
        >>=-ok (status_or_read F D order order.status (order.status_id == 0)) _ w r h in
      let (own, _, h₂) = >>=-ok _ _ _ r h₁ in
      let built = ok-injective h₂ in
      let kept : order ≡ order' =
        ok-injective
          (sym (ap (λ s. (status_or_read F D order s (order.status_id == 0) w).0) e) ∙ same) in
      (kept ∙ ap (λ x. x.order) built, ap (λ x. x.items) built)

  finish_order-ok :
      (caller : Caller) (client : Client) (order : SalesOrder Float) (status : SalesOrderStatus)
      (items : List (SalesOrderItem Float)) (w : W) (r : OrderResponse Float)
      → order.status ≡ some status
      → (finish_order F D caller client order items w).0 ≡ ok r
      → (order ≡ r.order) × (items ≡ r.items)
  unfolding finish_order
  finish_order-ok caller client order status items w r e h =
      let (_, _, h₁) = >>=-ok _ _ w r h in
      let (_, _, h₂) = >>=-ok _ _ _ r h₁ in
      let (_, _, h₃) = >>=-ok _ _ _ r h₂ in
      let (_, _, h₄) = >>=-ok _ _ _ r h₃ in build_response-ok order status items _ r e h₄

  store_rows-ok :
      (caller : Caller) (lines : List OrderItemRequest) (prices : List (String × Float))
      (client : Client) (order : SalesOrder Float) (status : SalesOrderStatus) (w : W)
      (r : OrderResponse Float)
      → order.status ≡ some status
      → (store_rows F D caller lines prices client order w).0 ≡ ok r
      → ((D.create_order_row order w).0 ≡ ok tt)
        × (order ≡ r.order)
        × Matches F D r.order.id lines r.items
        × ((total : Float) → value_of F D total r.items ≡ value_by F D prices total lines)
  unfolding store_rows
  store_rows-ok caller lines prices client order status w r e h =
      let (_, saved, h₁) = >>=-ok (D.create_order_row order) _ w r h in
      let (items, created, h₂) = >>=-ok (create_items F D order.id prices lines) _ _ r h₁ in
      let (same, own) = finish_order-ok caller client order status items _ r e h₂ in
      let (matches, value) = create_items-Matches F D order.id prices lines _ items created in
      (
        saved,
        same,
        subst (λ o. Matches F D o.id lines r.items) same
            (subst (λ is. Matches F D order.id lines is) own matches),
        λ total. ap (value_of F D total) (sym own) ∙ value total,
      )

  store_order-IsSaved :
      (caller : Caller) (req : CreateOrderRequest) (prices : List (String × Float)) (total : Float)
      (client : Client) (w : W) (r : OrderResponse Float)
      → total ≡ value_by F D prices zero_f req.items
      → (store_order F D caller req prices total client w).0 ≡ ok r
      → Matches F D r.order.id req.items r.items × IsSaved req r
  unfolding store_order
  store_order-IsSaved caller req prices total client w r e h =
      let (pending, found, h₁) = >>=-ok (get_status_by_code D "PENDING") _ w r h in
      let (i, _, h₂) = >>=-ok D.new_uuid _ _ r h₁ in
      let (t, _, h₃) = >>=-ok D.now _ _ r h₂ in
      let order = new_order F D client req.required_date total pending i t in
      let v = (D.now (D.new_uuid (get_status_by_code D "PENDING" w).1).1).1 in
      let (saved, same, matches, value) =
        store_rows-ok caller req.items prices client order pending _ r refl h₃ in
      let worth = e ∙ sym (value zero_f) in
      (
        matches,
        (
          client,
          pending,
          t,
          w,
          v,
          found,
          subst (λ o. (D.create_order_row o v).0 ≡ ok tt) same saved,
          sym same
              ∙ ap (λ v. new_order F D client req.required_date v pending i t) worth
              ∙ ap
                  (λ o.
                    record (new_order F D client req.required_date (value_of F D zero_f r.items)
                      pending i t) { id = o.id })
                  same,
        ),
      )

  -- An order that is created with success is of at least one line, each with a SKU and a positive
  -- quantity, and no SKU twice in whatever case. Its items are those of the lines, in order, with
  -- nothing allocated; it was saved, without an error, as unlocked and with the status that the code
  -- PENDING stands for, and its total is the sum over its items of the quantity times the price.
  pub create_order-IsSaved :
      (parse_uuid : String → Option ℕ) (role : String) (user : UserId) (caller : Caller)
      (req : CreateOrderRequest) (w : W) (r : OrderResponse Float)
      → (create_order F D parse_uuid role user caller req w).0 ≡ ok r
      → (is_empty F D req.items ≡ false)
        × All (IsLine F D) req.items
        × AreDistinct F D req.items
        × Matches F D r.order.id req.items r.items
        × IsSaved req r
  unfolding create_order
  create_order-IsSaved parse_uuid role user caller req w r h =
      let (_, h₁) = ensure-ok (not (eqb_ℤ req.required_date zero_time)) _ _ w r h in
      let (some_line, h₂) = ensure-ok (not (is_empty F D req.items)) _ _ w r h₁ in
      let (checked, passed, h₃) = >>=-ok (check_lines F D [] zero_f req.items) _ w r h₂ in
      let (_, _, h₄) = >>=-ok (own_client F D parse_uuid role user) _ _ r h₃ in
      let (client, _, h₅) = >>=-ok _ _ _ r h₄ in
      let (are_lines, distinct, _, _, value) =
        check_lines-ok F D [] zero_f req.items w checked passed in
      let (matches, saved) =
        store_order-IsSaved caller req checked.0 checked.1 client _ r value h₅ in
      (not-true (is_empty F D req.items) some_line, are_lines, distinct, matches, saved)
