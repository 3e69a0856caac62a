-- ===== src/Sales/Orders/Cancel.antt =====
-- sales/internal/service/order_service.go, `CancelOrder`: what is cancelled, and how.
use zeus_be.Prelude.{
  ℕ, ℤ, Bool, true, false, not, ◌&&◌, ◌==◌, Option, none, some, ok, ap, ◌∙◌, eq_iff, ◌≡◌, refl,
  >>=-ok, ensure-ok,
}
use zeus_be.Sales.Model.{SalesOrder, SalesOrderStatus}
use zeus_be.Sales.Orders.{
  OrderDeps, resolve_order_status, get_status_by_code, is_pending, cancel_order,
}

module _ {W R : Type 0} (D : OrderDeps W R) where
  abbrev IsPending : Option SalesOrderStatus → Type 0
  IsPending o = (s : SalesOrderStatus) × (o ≡ some s) × (s.code ≡ "PENDING")

  both :
      (b : Bool) (o : Option SalesOrderStatus)
      → not b && is_pending D o ≡ true
      → (b ≡ false) × IsPending o
  both true o h = cc
  both false none h = cc
  both false (some s) h = (refl, (s, refl, (eq_iff s.code "PENDING").0 h))

  -- After the status of the order was resolved.
  abbrev pub resolved_at : SalesOrder R → ℕ → W → W
  resolved_at order i w = (resolve_order_status D order (D.get_order i w).1).1

  -- A cancellation that succeeds has read an order that is not locked and whose status has
  -- the code PENDING, and has saved that order, without an error, with the status that the code
  -- CANCELLED stands for and the time that the clock showed.
  pub cancel_order-saves :
      (i : ℕ) (w : W)
      → (cancel_order D i w).0 ≡ ok tt
      → (order : SalesOrder R) × (status cancelled : SalesOrderStatus) × (t : ℤ) × ((D.get_order i
            w).0
          ≡ ok order)
        × ((resolve_order_status D order (D.get_order i w).1).0 ≡ ok (some status))
        × (order.locked ≡ false)
        × (status.code ≡ "PENDING")
        × ((get_status_by_code D "CANCELLED" (resolved_at order i w)).0 ≡ ok cancelled)
        × ((D.now (get_status_by_code D "CANCELLED" (resolved_at order i w)).1).0 ≡ ok t)
        × ((D.update_order
              (record order { status_id = cancelled.id; status = some cancelled; updated_at = t })
              (D.now (get_status_by_code D "CANCELLED" (resolved_at order i w)).1).1).0
            ≡ ok tt)
  unfolding cancel_order
  cancel_order-saves i w done =
      let (_, h) = ensure-ok (not (i == 0)) _ _ w tt done in
      let (order, got, h₁) = >>=-ok _ _ w tt h in
      let (status, resolved, h₂) = >>=-ok _ _ _ tt h₁ in
      let (guard, h₃) = ensure-ok (not order.locked && is_pending D status) _ _ _ tt h₂ in
      let (cancelled, found, h₄) = >>=-ok _ _ _ tt h₃ in
      let (t, clock, h₅) = >>=-ok _ _ _ tt h₄ in
      let (_, saved, _) = >>=-ok _ _ _ tt h₅ in
      let (free, pending) = both order.locked status guard in
      let (s, same, code) = pending in
      (order, s, cancelled, t, got, resolved ∙ ap ok same, free, code, found, clock, saved)
