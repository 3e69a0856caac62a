-- ===== src/Sales/Fulfillment/Queue.antt =====
-- sales/internal/service/fulfillment_service.go, `ProcessQueue`: the loop over the queue ends.
use zeus_be.Prelude.{
  ℕ, zero, suc, ◌<◌, String, Option, none, some, List, [], ◌∷◌, ◌++◌, Done, Result, ok, err, ◌≡◌,
  ◌≢◌, refl, ◌∙◌, arith, Keeps, Keeps-then, Keeps-discard, Keeps-ensure,
}
use zeus_be.Sales.Errors.{SalesError}
use zeus_be.Sales.Model.{SalesOrder, SalesOrderItem}
use zeus_be.Sales.Fulfillment.{
  FulfillmentDeps, AllocationQueueEntry, InventoryReservation, ReservationItem, FulfillmentManifest,
  Outcome, exhausted, check_items, reserve_or_undo, or_undo, update_or_undo, allocate_order,
  after_dequeue, after_allocate, process_entries, get_queue_status, start, process_queue,
}

-- The queue holds a number of entries; a dequeue that gives one takes it out, and the calls of an
-- allocation leave the queue alone.
pub record QueueStore {W R : Type 0} (D : FulfillmentDeps W R) : Type 0 where
  pub queued : W → ℕ
  pub dequeue_takes :
      (w : W) (entry : AllocationQueueEntry)
      → (D.dequeue_order w).0 ≡ ok (some entry)
      → suc (queued (D.dequeue_order w).1) ≡ queued w
  pub order_keeps : (i : ℕ) (w : W) → queued (D.get_order i w).1 ≡ queued w
  pub items_keeps : (i : ℕ) (w : W) → queued (D.get_order_items i w).1 ≡ queued w
  pub client_keeps : (i : ℕ) (w : W) → queued (D.get_client i w).1 ≡ queued w
  pub update_keeps : (o : SalesOrder R) (w : W) → queued (D.update_order o w).1 ≡ queued w
  pub create_keeps :
      (r : InventoryReservation) (w : W) → queued (D.create_reservation r w).1 ≡ queued w
  pub delete_keeps : (i : ℕ) (w : W) → queued (D.delete_reservation i w).1 ≡ queued w
  pub status_keeps : (code : String) (w : W) → queued (D.get_status_by_code code w).1 ≡ queued w
  pub atp_keeps : (sku : String) (w : W) → queued (D.get_atp sku w).1 ≡ queued w
  pub reserve_keeps :
      (i : ℕ) (items : List ReservationItem) (w : W)
      → queued (D.reserve_inventory i items w).1 ≡ queued w
  pub release_keeps : (i : ℕ) (w : W) → queued (D.release_inventory i w).1 ≡ queued w
  pub publish_keeps : (i j : ℕ) (w : W) → queued (D.publish_processed i j w).1 ≡ queued w
  pub uuid_keeps : (w : W) → queued (D.new_uuid w).1 ≡ queued w
  pub now_keeps : (w : W) → queued (D.now w).1 ≡ queued w

module _ {W R : Type 0} (D : FulfillmentDeps W R) (S : QueueStore D) where
  open S use {queued}

  module _ (n : ℕ) where
    abbrev Holds : W → Type 0
    Holds w = queued w ≡ n

    check_items-Keeps : (items : List (SalesOrderItem R)) → Keeps Holds (check_items D items)
    unfolding check_items
    check_items-Keeps [] = λ w h. h
    check_items-Keeps (item ∷ items) =
        Keeps-then Holds _ _ (λ w h. S.atp_keeps item.sku w ∙ h)
          λ atp.
            Keeps-then Holds _ _ (Keeps-ensure Holds _ _)
              λ _. Keeps-then Holds _ _ (check_items-Keeps items) (λ rest w h. h)

    undo-Keeps :
        (r : Result SalesError Done × W) (undo : W → W)
        → Holds r.1
        → ((u : W) → Holds u → Holds (undo u))
        → Holds (or_undo D r undo).1
    undo-Keeps (ok d, w) undo h k = h
    undo-Keeps (err e, w) undo h k = k w h

    reserve-Keeps : (r : InventoryReservation) → Keeps Holds (reserve_or_undo D r)
    unfolding reserve_or_undo
    reserve-Keeps r w h =
        undo-Keeps (D.create_reservation r w) _ (S.create_keeps r w ∙ h)
          (λ u k. S.release_keeps _ u ∙ k)

    update-Keeps : (o : SalesOrder R) (i : ℕ) → Keeps Holds (update_or_undo D o i)
    unfolding update_or_undo
    update-Keeps o i w h =
        undo-Keeps (D.update_order o w) _ (S.update_keeps o w ∙ h)
          (λ u k. S.delete_keeps i (D.release_inventory i u).1 ∙ S.release_keeps i u ∙ k)

    allocate_order-Keeps : (i : ℕ) → Keeps Holds (allocate_order D i)
    unfolding allocate_order
    allocate_order-Keeps i = Keeps-then Holds _ _ (Keeps-ensure Holds _ _) λ _.
        Keeps-then Holds _ _ (λ w h. S.order_keeps i w ∙ h)
          λ order.
            Keeps-then Holds _ _ (λ w h. S.items_keeps i w ∙ h)
              λ items.
                Keeps-then Holds _ _ (λ w h. S.status_keeps _ w ∙ h)
                  λ processing. Keeps-then Holds _ _ (check_items-Keeps items) λ reserved.
                    Keeps-then Holds _ _ (λ w h. S.reserve_keeps i reserved w ∙ h)
                      λ _.
                        Keeps-then Holds _ _ (λ w h. S.uuid_keeps w ∙ h)
                          λ id.
                            Keeps-then Holds _ _ (λ w h. S.now_keeps w ∙ h)
                              λ t. Keeps-then Holds _ _ (reserve-Keeps _) λ _.
                                Keeps-then Holds _ _ (update-Keeps _ i) λ _.
                                  Keeps-then Holds _ _ (λ w h. S.client_keeps order.client_id w ∙ h)
                                    λ client.
                                      Keeps-then Holds _ _
                                        (Keeps-discard Holds _ (λ w h. S.publish_keeps _ _ w ∙ h))
                                        λ _.
                                          Keeps-then Holds _ _ (λ w h. S.now_keeps w ∙ h)
                                            (λ _ w h. h)

  ends_after_allocate :
      (manifests : List FulfillmentManifest) (entry : AllocationQueueEntry)
      (rest : List FulfillmentManifest → W → Outcome × W)
      (r : Result SalesError FulfillmentManifest × W)
      → ((ms : List FulfillmentManifest) → (rest ms r.1).0 ≢ exhausted)
      → (after_allocate D manifests entry rest r).0 ≢ exhausted
  ends_after_allocate manifests entry rest (ok m, w) k h = k (manifests ++ m ∷ []) h
  ends_after_allocate manifests entry rest (err e, w) k h = cc

  ends_after_dequeue :
      (manifests : List FulfillmentManifest) (rest : List FulfillmentManifest → W → Outcome × W)
      (r : Result SalesError (Option AllocationQueueEntry) × W)
      → ((entry : AllocationQueueEntry) (ms : List FulfillmentManifest)
          → r.0 ≡ ok (some entry)
          → (rest ms (allocate_order D entry.order_id r.1).1).0 ≢ exhausted)
      → (after_dequeue D manifests rest r).0 ≢ exhausted
  unfolding after_dequeue
  ends_after_dequeue manifests rest (err e, w) k h = cc
  ends_after_dequeue manifests rest (ok none, w) k h = cc
  ends_after_dequeue manifests rest (ok (some entry), w) k h =
      ends_after_allocate manifests entry rest (allocate_order D entry.order_id w)
        (λ ms. k entry ms refl) h

  process_entries-ends :
      (fuel : ℕ) (manifests : List FulfillmentManifest) (w : W)
      → queued w < fuel
      → (process_entries D fuel manifests w).0 ≢ exhausted
  unfolding process_entries
  process_entries-ends zero manifests w h = omega arith
  process_entries-ends (suc fuel) manifests w h =
      ends_after_dequeue manifests (process_entries D fuel) (D.dequeue_order w) λ entry ms got.
        let taken = S.dequeue_takes w entry got in
        let kept =
          allocate_order-Keeps (queued (D.dequeue_order w).1) entry.order_id (D.dequeue_order w).1
            refl in
        process_entries-ends fuel ms _ (omega (arith, taken, kept, h))

  ends_after_start :
      (fuel : ℕ) (r : Result SalesError (List AllocationQueueEntry) × W)
      → queued r.1 < fuel
      → (start D fuel r).0 ≢ exhausted
  ends_after_start fuel (ok entries, w) h k = process_entries-ends fuel [] w h k
  ends_after_start fuel (err e, w) h k = cc

  -- The loop over the queue ends: with more fuel than the queue, as it was read or rebuilt, has
  -- entries, the run finds the queue empty or stops at an error, and never uses the fuel up.
  pub process_queue-ends :
      (fuel : ℕ) (w : W)
      → queued (get_queue_status D w).1 < fuel
      → (process_queue D fuel w).0 ≢ exhausted
  unfolding process_queue
  process_queue-ends fuel w h = ends_after_start fuel (get_queue_status D w) h
