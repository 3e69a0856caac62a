-- ===== src/Sales/Orders/Listing/Counts.antt =====
-- sales/internal/service/order_service.go, `GetMetrics`: what the metrics count.
use zeus_be.Prelude.{
  ℕ, ◌+◌, ℤ, pos, ◌-ℤ◌, ltb_ℤ, String, str_eq, Bool, true, false, ◌&&◌, Option, none, some, List,
  [], ◌∷◌, length, filter, if◌then◌else◌, ok, attempt, >>=-ok, ok-injective, Floats, ◌≡◌, refl, sym,
  ap, ◌∙◌, subst, eq_iff, filter_yes, filter_no, arith, Bool-cases, inl, inr,
}
use zeus_be.Sales.Model.{SalesOrder, SalesOrderStatus}
use zeus_be.Sales.Orders.{OrderDeps, get_status_by_id}
use zeus_be.Sales.Orders.Listing.{
  Metrics, code_of, counted, count_orders, zero_metrics, get_metrics,
}

module _ {W : Type 0} (F : Floats) (D : OrderDeps W F.Float) where
  open F use {Float, zero_f, add_f}

  -- A table of statuses: reading one gives what the table has for its id, or fails where it has none.
  pub record Statuses : Type 0 where
    pub status_of : ℕ → Option SalesOrderStatus
    pub reads : (i : ℕ) (w : W) → (attempt (get_status_by_id D i) w).0 ≡ ok (status_of i)

  module _ (T : Statuses) where
    abbrev pub has_code : String → SalesOrder Float → Bool
    has_code code order = str_eq (code_of (T.status_of order.status_id)) code

    abbrev pub is_recent : ℤ → SalesOrder Float → Bool
    is_recent cutoff order = has_code "COMPLETED" order && ltb_ℤ cutoff order.updated_at

    -- The values of the orders, added up in order.
    abbrev pub sum_values : Float → List (SalesOrder Float) → Float
    sum_values total [] = total
    sum_values total (order ∷ orders) = sum_values (add_f total order.total_value) orders

    abbrev IsCount : ℤ → List (SalesOrder Float) → Metrics Float → Metrics Float → Type 0
    IsCount cutoff orders m r =
        (r.total_pending ≡ m.total_pending + length (filter (has_code "PENDING") orders))
        × (r.active_processing_value
            ≡ sum_values m.active_processing_value (filter (has_code "PROCESSING") orders))
        × (r.completed_last_24_hours
            ≡ m.completed_last_24_hours + length (filter (is_recent cutoff) orders))

    -- An order more, whose status has the code `c`.
    module _ (cutoff : ℤ) (order : SalesOrder Float) (orders : List (SalesOrder Float))
        (m r : Metrics Float) where
      other_code :
          (h : IsCount cutoff orders m r)
          → has_code "PENDING" order ≡ false
          → has_code "PROCESSING" order ≡ false
          → is_recent cutoff order ≡ false
          → IsCount cutoff (order ∷ orders) m r
      other_code (a, b, c) p₁ p₂ p₃ =
          let f₁ = filter_no (has_code "PENDING") order orders p₁ in
          let f₂ = filter_no (has_code "PROCESSING") order orders p₂ in
          let f₃ = filter_no (is_recent cutoff) order orders p₃ in
          (rw (f₁, a), rw (f₂, b), rw (f₃, c))

      pending_code :
          IsCount cutoff orders (record m { total_pending = m.total_pending + 1 }) r
          → code_of (T.status_of order.status_id) ≡ "PENDING"
          → IsCount cutoff (order ∷ orders) m r
      pending_code (a, b, c) e =
          let f₁ = filter_yes (has_code "PENDING") order orders (rw e) in
          let f₂ = filter_no (has_code "PROCESSING") order orders (rw e) in
          let f₃ = filter_no (is_recent cutoff) order orders (rw e) in
          (rw f₁ (omega (arith, a)), rw (f₂, b), rw (f₃, c))

      processing_code :
          IsCount cutoff orders
            (record m {
              active_processing_value = add_f m.active_processing_value order.total_value;
            })
            r
          → code_of (T.status_of order.status_id) ≡ "PROCESSING"
          → IsCount cutoff (order ∷ orders) m r
      processing_code (a, b, c) e =
          let f₁ = filter_no (has_code "PENDING") order orders (rw e) in
          let f₂ = filter_yes (has_code "PROCESSING") order orders (rw e) in
          let f₃ = filter_no (is_recent cutoff) order orders (rw e) in
          (rw (f₁, a), rw (f₂, b), rw (f₃, c))

      completed_code :
          (recent : Bool)
          → ltb_ℤ cutoff order.updated_at ≡ recent
          → IsCount cutoff orders
              (if recent
                then record m { completed_last_24_hours = m.completed_last_24_hours + 1 }
                else m)
              r
          → code_of (T.status_of order.status_id) ≡ "COMPLETED"
          → IsCount cutoff (order ∷ orders) m r
      completed_code false late h e = other_code h (rw e) (rw e) (rw (e, late))
      completed_code true late (a, b, c) e =
          let f₁ = filter_no (has_code "PENDING") order orders (rw e) in
          let f₂ = filter_no (has_code "PROCESSING") order orders (rw e) in
          let f₃ = filter_yes (is_recent cutoff) order orders (rw (e, late)) in
          (rw (f₁, a), rw (f₂, b), rw f₃ (omega (arith, c)))

      IsCount-step :
          (s : Option SalesOrderStatus)
          → T.status_of order.status_id ≡ s
          → IsCount cutoff orders (counted F D cutoff order s m) r
          → IsCount cutoff (order ∷ orders) m r
      IsCount-step none e h = other_code h (rw e) (rw e) (rw e)
      IsCount-step (some status) e h =
          let same_code = ap code_of e in
          elim (Bool-cases (str_eq status.code "PENDING")) [
            | inl same ↦
                pending_code (rw same at h) (same_code ∙ (eq_iff status.code "PENDING").0 same)
            | inr p₁ ↦ elim (Bool-cases (str_eq status.code "PROCESSING")) [
              | inl same ↦
                  processing_code (rw (p₁, same) at h)
                    (same_code ∙ (eq_iff status.code "PROCESSING").0 same)
              | inr p₂ ↦ elim (Bool-cases (str_eq status.code "COMPLETED")) [
                | inl same ↦
                    completed_code (ltb_ℤ cutoff order.updated_at) refl (rw (p₁, p₂, same) at h)
                      (same_code ∙ (eq_iff status.code "COMPLETED").0 same)
                | inr p₃ ↦ other_code (rw (p₁, p₂, p₃) at h) (rw (e, p₁)) (rw (e, p₂)) (rw (e, p₃))
              ]
            ]
          ]

    count_orders-IsCount :
        (cutoff : ℤ) (orders : List (SalesOrder Float)) (m r : Metrics Float) (w : W)
        → (count_orders F D cutoff orders m w).0 ≡ ok r
        → IsCount cutoff orders m r
    unfolding count_orders
    count_orders-IsCount cutoff [] m r w h =
        let same = ok-injective h in
        subst (IsCount cutoff [] m) same (omega arith, refl, omega arith)
    count_orders-IsCount cutoff (order ∷ orders) m r w h =
        let (s, read, h₁) = >>=-ok (attempt (get_status_by_id D order.status_id)) _ w r h in
        IsCount-step cutoff order orders m r s
          (ok-injective (sym (T.reads order.status_id w) ∙ read))
          (count_orders-IsCount cutoff orders (counted F D cutoff order s m) r _ h₁)

    -- Metrics that are read with success are those of the rows of the orders, by the code that the
    -- table of the statuses has for each: as many as are pending, the values of those that are
    -- processing, added up in order, and as many as are completed and were updated less than 24
    -- hours before the time that was read.
    pub get_metrics-IsCount :
        (w : W) (r : Metrics Float)
        → (get_metrics F D w).0 ≡ ok r
        → (orders : List (SalesOrder Float)) × (t : ℤ) × (v : W) × ((D.list_order_rows w).0
            ≡ ok orders)
          × ((D.now v).0 ≡ ok t)
          × (r.total_pending ≡ length (filter (has_code "PENDING") orders))
          × (r.active_processing_value ≡ sum_values zero_f (filter (has_code "PROCESSING") orders))
          × (r.completed_last_24_hours
              ≡ length (filter (is_recent (t -ℤ pos 86400000000000)) orders))
    unfolding get_metrics
    get_metrics-IsCount w r h =
        let (orders, listed, h₁) = >>=-ok D.list_order_rows _ w r h in
        let (t, told, h₂) = >>=-ok D.now _ _ r h₁ in
        let (a, b, c) =
          count_orders-IsCount (t -ℤ pos 86400000000000) orders (zero_metrics F D) r _ h₂ in
        (orders, t, _, listed, told, omega (arith, a), b, omega (arith, c))
