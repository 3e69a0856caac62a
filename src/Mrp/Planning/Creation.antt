-- ===== src/Mrp/Planning/Creation.antt =====
-- mrp/internal/consumer/order_consumer.go: which messages are acknowledged.
use zeus_be.Prelude.{
  pos, ◌<ℤ◌, ◌≤ℤ◌, ltb_ℤ, leb_ℤ, leb_ℤ→le, Bool-cases, inl, inr, ◌⊎◌, ◌≢◌, eq_iff, arith, Runs,
  Runs-of, ℤ, str_eq, Bool, true, false, List, [], ◌∷◌, some, Result, ok, err, Action, Done, ◌>>◌,
  >>=-ok, >>=-run, if◌then◌else◌, ◌≡◌, refl, sym, ap, subst,
}
use zeus_be.Mrp.Errors.{MrpError}
use zeus_be.Mrp.Planning.{
  PlanDeps, ProductionOrderResponse, plan_production, OrderPayloadItem, OrderCreatedPayload,
  requested_quantity, skipped, process_items, acked, discarded, settled, on_message,
}

module _ {W : Type 0} (D : PlanDeps W) where
  -- The item asks for this quantity: the requested one where it is positive, else its quantity.
  pub data AsksFor (item : OrderPayloadItem) : ℤ → Type 0 where
    requested : pos 0 <ℤ item.requested_qty → AsksFor item item.requested_qty
    plain : item.requested_qty ≤ℤ pos 0 → AsksFor item item.qty

  -- The items, in order, from one world to another: one without a SKU or without a positive
  -- quantity is passed over, any other is planned with success.
  pub data Planned (required_date : ℤ) : List OrderPayloadItem → W → W → Type 0 where
    finished : {w : W} → Planned required_date [] w w
    skips :
        {item : OrderPayloadItem} {items : List OrderPayloadItem} {w v : W} {quantity : ℤ}
        → AsksFor item quantity
        → (item.sku ≡ "") ⊎ (quantity ≤ℤ pos 0)
        → Planned required_date items w v
        → Planned required_date (item ∷ items) w v
    plans :
        {item : OrderPayloadItem} {items : List OrderPayloadItem} {w u v : W} {quantity : ℤ}
        {response : ProductionOrderResponse}
        → AsksFor item quantity
        → item.sku ≢ ""
        → pos 0 <ℤ quantity
        → Runs
            (plan_production D (record {
              product_model_code = item.sku;
              target_quantity = quantity;
              scheduled_at = required_date;
            }))
            w
            response
            u
        → Planned required_date items u v
        → Planned required_date (item ∷ items) w v

  asked_lem : (item : OrderPayloadItem) → AsksFor item (requested_quantity item)
  asked_lem item = elim (Bool-cases (ltb_ℤ (pos 0) item.requested_qty)) [
    | inl more ↦ rw more (requested (ground (arith, more)))
    | inr none_asked ↦ rw none_asked (plain (ground (arith, none_asked)))
  ]

  skipped_lem :
      (item : OrderPayloadItem)
      → skipped item ≡ true
      → (item.sku ≡ "") ⊎ (requested_quantity item ≤ℤ pos 0)
  skipped_lem item h = elim (Bool-cases (str_eq item.sku "")) [
    | inl blank ↦ inl ((eq_iff item.sku "").0 blank)
    | inr named ↦
        let small = rw named at h in inr (leb_ℤ→le (requested_quantity item) (pos 0) small)
  ]

  kept_lem :
      (item : OrderPayloadItem)
      → skipped item ≡ false
      → (item.sku ≢ "") × (pos 0 <ℤ requested_quantity item)
  kept_lem item h = elim (Bool-cases (str_eq item.sku "")) [
    | inl blank ↦ let clash = rw blank at h in cc
    | inr named ↦
        let small : leb_ℤ (requested_quantity item) (pos 0) ≡ false = rw named at h in
        (λ e. let same = (eq_iff item.sku "").1 e in cc, above (requested_quantity item) small)
  ]
    where
      above : (q : ℤ) → leb_ℤ q (pos 0) ≡ false → pos 0 <ℤ q
      above q k = ground arith

  process_items-Planned :
      (required_date : ℤ) (items : List OrderPayloadItem) (w : W)
      → (process_items D required_date items w).0 ≡ ok tt
      → Planned required_date items w (process_items D required_date items w).1
  unfolding process_items
  process_items-Planned required_date [] w h = finished
  process_items-Planned required_date (item ∷ items) w h =
      cases (skipped item) refl (process_items-Planned required_date items) h
    where
      plan : Action W MrpError ProductionOrderResponse
      plan = plan_production D (record {
        product_model_code = item.sku;
        target_quantity = requested_quantity item;
        scheduled_at = required_date;
      })

      rest : Action W MrpError Done
      rest = process_items D required_date items

      cases :
          (b : Bool)
          → skipped item ≡ b
          → ((v : W) → (rest v).0 ≡ ok tt → Planned required_date items v (rest v).1)
          → ((if b then rest else (plan >> rest)) w).0 ≡ ok tt
          → Planned required_date (item ∷ items) w ((if b then rest else (plan >> rest)) w).1
      cases true skip later g = skips (asked_lem item) (skipped_lem item skip) (later w g)
      cases false keep later g =
          let (response, planned, g₁) = >>=-ok plan (λ _. rest) w tt g in
          let run = ap (λ p. p.1) (>>=-run plan (λ _. rest) w response planned) in
          let (named, positive) = kept_lem item keep in
          subst (Planned required_date (item ∷ items) w) (sym run) (
            plans (asked_lem item) named positive (Runs-of plan w response planned)
              (later (plan w).1 g₁))

  settled-acked : (r : Result MrpError Done × W) → (settled D r).0 ≡ acked → r.0 ≡ ok tt
  settled-acked (ok done, w) h = refl
  settled-acked (err e, w) h = cc

  settled-state : (r : Result MrpError Done × W) → (settled D r).1 ≡ r.1
  settled-state (ok done, w) = refl
  settled-state (err e, w) = refl

  -- A message is acknowledged only where its order has an id and each of its items, in order, is
  -- either passed over, exactly where it has no SKU or no positive quantity, or planned with success
  -- for its quantity, which is the requested one where that is positive.
  pub on_message-Planned :
      (payload : OrderCreatedPayload) (w : W)
      → (on_message D w (some payload)).0 ≡ acked
      → (str_eq payload.order_id "" ≡ false)
        × Planned payload.required_date payload.items w (on_message D w (some payload)).1
  unfolding on_message
  on_message-Planned payload w h = cases (str_eq payload.order_id "") refl h
    where
      run : Result MrpError Done × W
      run = process_items D payload.required_date payload.items w

      cases :
          (b : Bool)
          → str_eq payload.order_id "" ≡ b
          → (if b then (discarded, w) else settled D run).0 ≡ acked
          → (str_eq payload.order_id "" ≡ false)
            × Planned payload.required_date payload.items w
                (if b then (discarded, w) else settled D run).1
      cases true named g = cc
      cases false named g = (
        named,
        subst (Planned payload.required_date payload.items w) (sym (settled-state run))
            (process_items-Planned payload.required_date payload.items w (settled-acked run g)),
      )
