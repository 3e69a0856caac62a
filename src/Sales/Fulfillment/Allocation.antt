-- ===== src/Sales/Fulfillment/Allocation.antt =====
-- sales/internal/service/fulfillment_service.go, `allocateOrder`: an allocation is made whole or undone,
-- and what a successful one has done.
use zeus_be.Prelude.{
  ℕ, ℤ, String, Bool, true, false, some, List, [], ◌∷◌, Action, Done, Result, ok, err, discard,
  ◌>>=◌, ◌>>◌, pure, ◌≡◌, ◌≢◌, refl, sym, ap, subst, ◌∙◌, Keeps, Keeps-then, Keeps-discard,
  Keeps-ensure, >>=-state, ensure-state,
}
use zeus_be.Sales.Errors.{SalesError}
use zeus_be.Sales.Model.{SalesOrder, SalesOrderItem}
use zeus_be.Sales.Fulfillment.{
  FulfillmentDeps, InventoryReservation, ReservationItem, FulfillmentManifest, check_items, or_undo,
  allocate_order,
}

abbrev pub both : {W : Type 0} → (ℕ → W → Bool) → (ℕ → W → Bool) → ℕ → W → Bool × Bool
both reserved locked j w = (reserved j w, locked j w)

-- Whether the inventory of an order is reserved in Valkey, and whether the order is saved as locked.
pub record AllocationStore {W R : Type 0} (D : FulfillmentDeps W R) : Type 0 where
  pub reserved : ℕ → W → Bool
  pub locked : ℕ → W → Bool
  -- the Valkey repository is enabled and reaches its server; else its calls return nil and do nothing
  pub is_up : W → Bool
  pub order_reads :
      (i : ℕ) (w : W) (order : SalesOrder R) → (D.get_order i w).0 ≡ ok order → order.id ≡ i
  pub reserve_sets :
      (i : ℕ) (items : List ReservationItem) (w : W)
      → is_up w ≡ true
      → (D.reserve_inventory i items w).0 ≡ ok tt
      → reserved i (D.reserve_inventory i items w).1 ≡ true
  pub reserve_fails :
      (i : ℕ) (items : List ReservationItem) (w : W) (e : SalesError)
      → (D.reserve_inventory i items w).0 ≡ err e
      → reserved i (D.reserve_inventory i items w).1 ≡ reserved i w
  -- the release of a reservation does not fail
  pub release_sets :
      (i : ℕ) (w : W) → is_up w ≡ true → reserved i (D.release_inventory i w).1 ≡ false
  pub update_sets :
      (order : SalesOrder R) (w : W)
      → (D.update_order order w).0 ≡ ok tt
      → locked order.id (D.update_order order w).1 ≡ order.locked
  pub update_fails :
      (order : SalesOrder R) (w : W) (e : SalesError)
      → (D.update_order order w).0 ≡ err e
      → locked order.id (D.update_order order w).1 ≡ locked order.id w
  pub reserve_locks :
      (i j : ℕ) (items : List ReservationItem) (w : W)
      → locked j (D.reserve_inventory i items w).1 ≡ locked j w
  pub release_locks : (i j : ℕ) (w : W) → locked j (D.release_inventory i w).1 ≡ locked j w
  pub update_keeps :
      (o : SalesOrder R) (j : ℕ) (w : W) → reserved j (D.update_order o w).1 ≡ reserved j w
  pub order_keeps :
      (i j : ℕ) (w : W) → both reserved locked j (D.get_order i w).1 ≡ both reserved locked j w
  pub items_keeps :
      (i j : ℕ) (w : W)
      → both reserved locked j (D.get_order_items i w).1 ≡ both reserved locked j w
  pub client_keeps :
      (i j : ℕ) (w : W) → both reserved locked j (D.get_client i w).1 ≡ both reserved locked j w
  pub create_keeps :
      (r : InventoryReservation) (j : ℕ) (w : W)
      → both reserved locked j (D.create_reservation r w).1 ≡ both reserved locked j w
  pub delete_keeps :
      (i j : ℕ) (w : W)
      → both reserved locked j (D.delete_reservation i w).1 ≡ both reserved locked j w
  pub status_keeps :
      (code : String) (j : ℕ) (w : W)
      → both reserved locked j (D.get_status_by_code code w).1 ≡ both reserved locked j w
  pub atp_keeps :
      (sku : String) (j : ℕ) (w : W)
      → both reserved locked j (D.get_atp sku w).1 ≡ both reserved locked j w
  pub publish_keeps :
      (a b j : ℕ) (w : W)
      → both reserved locked j (D.publish_processed a b w).1 ≡ both reserved locked j w
  pub uuid_keeps :
      (j : ℕ) (w : W) → both reserved locked j (D.new_uuid w).1 ≡ both reserved locked j w
  -- `uuid.New` and `time.Now` have no error
  pub uuid_succeeds : (w : W) (e : SalesError) → (D.new_uuid w).0 ≢ err e
  pub now_succeeds : (w : W) (e : SalesError) → (D.now w).0 ≢ err e
  pub now_keeps : (j : ℕ) (w : W) → both reserved locked j (D.now w).1 ≡ both reserved locked j w

module _ {W R : Type 0} (D : FulfillmentDeps W R) (S : AllocationStore D)
    (up : (w : W) → S.is_up w ≡ true) (i : ℕ) where
  open S use {reserved, locked}

  abbrev IsAt : Bool → Bool → W → Type 0
  IsAt r l w = both reserved locked i w ≡ (r, l)

  -- Reserved and locked, or neither.
  abbrev IsWhole : W → Type 0
  IsWhole w = reserved i w ≡ locked i w

  whole : (b : Bool) (w : W) → IsAt b b w → IsWhole w
  whole b w h = ap (λ p. p.0) h ∙ sym (ap (λ p. p.1) h)

  pair : (r l : Bool) (w : W) → reserved i w ≡ r → locked i w ≡ l → IsAt r l w
  pair r l w h k = rw (h, k)

  check_items-Keeps :
      (r l : Bool) (items : List (SalesOrderItem R)) → Keeps (IsAt r l) (check_items D items)
  unfolding check_items
  check_items-Keeps r l [] = λ w h. h
  check_items-Keeps r l (item ∷ items) =
      Keeps-then (IsAt r l) _ _ (λ w h. S.atp_keeps item.sku i w ∙ h)
        λ atp.
          Keeps-then (IsAt r l) _ _ (Keeps-ensure (IsAt r l) _ _)
            λ _. Keeps-then (IsAt r l) _ _ (check_items-Keeps r l items) (λ rest w h. h)

  reserve_fails :
      (x : InventoryReservation) (w : W) (r : Result SalesError Done × W) (e : SalesError)
      → x.order_id ≡ i
      → D.create_reservation x w ≡ r
      → IsAt true false w
      → (or_undo D r (λ u. (D.release_inventory x.order_id u).1)).0 ≡ err e
      → IsAt false false (or_undo D r (λ u. (D.release_inventory x.order_id u).1)).1
  reserve_fails x w (ok d, v) e own same h k = cc
  reserve_fails x w (err f, v) e own same h k =
      let at : IsAt true false v =
        ap (λ (s : Result SalesError Done × W). both reserved locked i s.1) (sym same)
        ∙ S.create_keeps x i w
        ∙ h in
      pair false false _
        (subst (λ j. reserved i (D.release_inventory j v).1 ≡ false) (sym own)
          (S.release_sets i v (up v)))
        (S.release_locks x.order_id i v ∙ ap (λ p. p.1) at)

  reserve_keeps :
      (x : InventoryReservation) (w : W) (r : Result SalesError Done × W)
      → D.create_reservation x w ≡ r
      → IsAt true false w
      → (or_undo D r (λ u. (D.release_inventory x.order_id u).1)).0 ≡ ok tt
      → IsAt true false (or_undo D r (λ u. (D.release_inventory x.order_id u).1)).1
  reserve_keeps x w (ok d, v) same h k =
      ap (λ (s : Result SalesError Done × W). both reserved locked i s.1) (sym same)
      ∙ S.create_keeps x i w
      ∙ h
  reserve_keeps x w (err f, v) same h k = cc

  update_ends :
      (order : SalesOrder R) (w : W) (r : Result SalesError Done × W)
      → order.id ≡ i
      → order.locked ≡ true
      → D.update_order order w ≡ r
      → IsAt true false w
      → IsWhole (or_undo D r (λ u. (D.delete_reservation i (D.release_inventory i u).1).1)).1
  update_ends order w (ok d, v) own lock same h =
      let kept : reserved i v ≡ true =
        ap (λ (s : Result SalesError Done × W). reserved i s.1) (sym same)
        ∙ S.update_keeps order i w
        ∙ ap (λ p. p.0) h in
      let set : locked order.id v ≡ order.locked =
        ap (λ (s : Result SalesError Done × W). locked order.id s.1) (sym same)
        ∙ S.update_sets order w (ap (λ (s : Result SalesError Done × W). s.0) same) in
      kept ∙ sym (subst (λ j. locked j v ≡ true) own (set ∙ lock))
  update_ends order w (err e, v) own lock same h =
      let failed : locked order.id v ≡ locked order.id w =
        ap (λ (s : Result SalesError Done × W). locked order.id s.1) (sym same)
        ∙ S.update_fails order w e (ap (λ (s : Result SalesError Done × W). s.0) same) in
      let free : locked i v ≡ false =
        subst (λ j. locked j v ≡ locked j w) own failed ∙ ap (λ p. p.1) h in
      let released : IsAt false false (D.release_inventory i v).1 =
        pair false false _ (S.release_sets i v (up v)) (S.release_locks i i v ∙ free) in
      whole false _ (S.delete_keeps i i _ ∙ released)

  abbrev manifest : SalesOrder R → ℕ → List ReservationItem → ℤ → FulfillmentManifest
  manifest order client asked t = record {
    order_id = order.id;
    client_id = client;
    destination_address = order.destination_address;
    items = asked;
    generated_at = t;
  }

  -- The rest of an allocation, once the order is saved.
  Whole-Keeps :
      {A : Type 0} (m : Action W SalesError A)
      → ((w : W) → both reserved locked i (m w).1 ≡ both reserved locked i w)
      → Keeps IsWhole m
  Whole-Keeps m kept w h = ap (λ p. p.0) (kept w) ∙ h ∙ sym (ap (λ p. p.1) (kept w))

  remaining-Keeps :
      (order : SalesOrder R) (asked : List ReservationItem)
      → Keeps IsWhole (
          D.get_client order.client_id >>= λ client.
          discard (D.publish_processed order.id client.id)
          >> (D.now >>= λ t. pure (manifest order client.id asked t)))
  remaining-Keeps order asked =
      Keeps-then IsWhole _ _
        (Whole-Keeps (D.get_client order.client_id) (S.client_keeps order.client_id i))
        λ client.
          Keeps-then IsWhole _ _
            (Keeps-discard IsWhole _ (
              Whole-Keeps (D.publish_processed order.id client.id)
                (S.publish_keeps order.id client.id i)))
            λ _. Keeps-then IsWhole _ _ (Whole-Keeps D.now (S.now_keeps i)) (λ t w h. h)

  -- Where the Valkey repository is enabled and reaches its server, and a release of inventory does
  -- not fail: whether it succeeds or fails, and wherever it fails, an allocation of an order whose
  -- inventory is not reserved and which is not locked ends with both or with neither. Its inventory
  -- is reserved exactly where the order is saved as locked.
  pub allocate_order-IsWhole :
      (w : W)
      → reserved i w ≡ false
      → locked i w ≡ false
      → reserved i (allocate_order D i w).1 ≡ locked i (allocate_order D i w).1
  unfolding allocate_order
  allocate_order-IsWhole w free unlocked =
      let idle = pair false false w free unlocked in
      ensure-state IsWhole _ _ _ w (λ _. whole false w idle)
        λ _.
          let h₁ = S.order_keeps i i w ∙ idle in
          >>=-state IsWhole _ _ w (λ _ _. whole false _ h₁)
            λ order got.
              let h₂ = S.items_keeps i i _ ∙ h₁ in
              >>=-state IsWhole _ _ _ (λ _ _. whole false _ h₂)
                λ items _.
                  let h₃ = S.status_keeps _ i _ ∙ h₂ in
                  >>=-state IsWhole _ _ _ (λ _ _. whole false _ h₃)
                    λ processing _.
                      let h₄ = check_items-Keeps false false items _ h₃ in
                      >>=-state IsWhole _ _ _ (λ _ _. whole false _ h₄)
                        λ asked _.
                          >>=-state IsWhole _ _ _
                            (λ e failed. whole false _ (
                              pair false false _
                                (S.reserve_fails i asked _ e failed ∙ ap (λ p. p.0) h₄)
                                (S.reserve_locks i i asked _ ∙ ap (λ p. p.1) h₄)))
                            λ d done.
                              let h₅ =
                                pair true false _ (S.reserve_sets i asked _ (up _) done)
                                  (S.reserve_locks i i asked _ ∙ ap (λ p. p.1) h₄) in
                              let h₆ = S.uuid_keeps i _ ∙ h₅ in
                              >>=-state IsWhole _ _ _
                                (λ e failed. elim (S.uuid_succeeds _ e failed) [ ])
                                λ id _.
                                  let h₇ = S.now_keeps i _ ∙ h₆ in
                                  >>=-state IsWhole _ _ _
                                    (λ e failed. elim (S.now_succeeds _ e failed) [ ])
                                    λ t _.
                                      let reservation : InventoryReservation = record {
                                        id = id;
                                        order_id = i;
                                        items = asked;
                                        reserved_at = t;
                                      } in
                                      >>=-state IsWhole _ _ _
                                        (λ e failed.
                                          whole false _
                                            (reserve_fails reservation _ _ e refl refl h₇ failed))
                                        λ _ made.
                                          let h₈ = reserve_keeps reservation _ _ refl h₇ made in
                                          let saved : SalesOrder R = record order {
                                            status_id = processing.id;
                                            status = some processing;
                                            locked = true;
                                          } in
                                          let h₉ =
                                            update_ends saved _ _ (S.order_reads i w order got) refl
                                              refl h₈ in
                                          >>=-state IsWhole _ _ _ (λ _ _. h₉)
                                            (λ _ _. remaining-Keeps order asked _ h₉)
