-- ===== src/Scm/Shipment/Delivered.antt =====
-- scm/internal/service/shipment_service.go: a shipment that is delivered stays delivered.
use zeus_be.Prelude.{
  ℤ, String, Bool, true, false, Option, none, some, List, [], ◌∷◌, Result, ok, err, or_error,
  or_error-ok, ensure-state, >>=-state, ◌∙◌, sym, ◌≡◌, ◌≢◌, refl, subst, arith, inl, inr, Keeps,
  Keeps-then, Keeps-attempt, Keeps-discard, Keeps-if, Keeps-ensure, Keeps-or_error,
}
use zeus_be.Scm.Errors.{ScmError, not_found}
use zeus_be.Scm.PurchaseOrder.{PoLineItem, PurchaseOrder}
use zeus_be.Scm.Shipment.{
  ShipmentDeps, ShipmentStatus, scheduled, in_transit, delivered, shipment_eq, Shipment,
  valid_shipment_transition, acquire_dispatch_lock, release_dispatch_lock, dispatch_shipment,
  mark_delivered, transition_state, create_shipment, create_receipt, found_or, add_receipt_lines,
  clone_lines, check_order, is_unexpired, is_past, Call, acquires, releases, dispatches, delivers,
  transitions, creates, call, run,
}
use zeus_be.Scm.Shipment.Store.{ShipmentStore}

module _ {W R : Type 0} (D : ShipmentDeps W R) (S : ShipmentStore D) (j : String) where
  open S use {status_of}

  abbrev pub IsDelivered : W → Type 0
  IsDelivered w = status_of j w ≡ some delivered

  read-Keeps : (i : String) → Keeps IsDelivered (or_error (D.get_shipment_by_id i) not_found)
  read-Keeps i = Keeps-or_error IsDelivered _ _ (λ w h. S.get_keeps i j w ∙ h)

  now-Keeps : Keeps IsDelivered D.now
  now-Keeps w h = S.now_keeps j w ∙ h

  is_past-Keeps : (e : Option ℤ) → Keeps IsDelivered (is_past D e)
  unfolding is_past
  is_past-Keeps none = λ w h. h
  is_past-Keeps (some e) = Keeps-then IsDelivered _ _ now-Keeps (λ t w h. h)

  is_unexpired-Keeps : (e : Option ℤ) → Keeps IsDelivered (is_unexpired D e)
  unfolding is_unexpired
  is_unexpired-Keeps none = λ w h. h
  is_unexpired-Keeps (some e) = Keeps-then IsDelivered _ _ now-Keeps (λ t w h. h)

  -- A write of a shipment that was read, in a status from which the code writes.
  update-Keeps :
      (i : String) (w : W) (old new : Shipment)
      → IsDelivered w
      → (or_error (D.get_shipment_by_id i) not_found w).0 ≡ ok old
      → old.status ≢ delivered
      → new.id ≡ old.id
      → Keeps IsDelivered (D.update_shipment new)
  update-Keeps i w old new held got undelivered id u h = elim (S.update_writes new j u) [
    | inl same ↦ same ∙ h
    | inr (row, _) ↦
        let (status, name) =
          S.get_reads i w old (or_error-ok (D.get_shipment_by_id i) not_found w old got) in
        let here : i ≡ j = sym name ∙ sym id ∙ row in
        let read : status_of j w ≡ some old.status =
          subst (λ k. status_of k w ≡ some old.status) here status in
        elim (undelivered (some-injective (sym read ∙ held))) [ ]
  ]
    where
      some-injective :
          {a b : ShipmentStatus} → ◌≡◌ {A = Option ShipmentStatus} (some a) (some b) → a ≡ b
      some-injective e = cc

  not_scheduled : (s : ShipmentStatus) → shipment_eq s scheduled ≡ true → s ≢ delivered
  not_scheduled s h e = ground arith

  not_in_transit : (s : ShipmentStatus) → shipment_eq s in_transit ≡ true → s ≢ delivered
  not_in_transit s h e = ground arith

  -- No status can be reached from Delivered.
  last : (t : ShipmentStatus) → valid_shipment_transition delivered t ≡ false
  unfolding valid_shipment_transition
  last t = ground arith

  not_last : (s t : ShipmentStatus) → valid_shipment_transition s t ≡ true → s ≢ delivered
  not_last s t h e =
      let h' : valid_shipment_transition delivered t ≡ true = rw e at h in conflict (last t) h'
    where
      conflict : {A : Type 0} {b : Bool} → b ≡ false → b ≡ true → A
      conflict {b = true} p q = cc
      conflict {b = false} p q = cc

  acquire-Keeps :
      (name i operator : String) → Keeps IsDelivered (acquire_dispatch_lock D name i operator)
  unfolding acquire_dispatch_lock
  acquire-Keeps name i operator = Keeps-then IsDelivered _ _ (read-Keeps i) λ shipment.
      Keeps-then IsDelivered _ _ (Keeps-ensure IsDelivered _ _) λ _.
        Keeps-then IsDelivered _ _
          (Keeps-if IsDelivered _ _ _ (is_unexpired-Keeps shipment.lock_expires_at) (λ w h. h))
          λ live. Keeps-then IsDelivered _ _ (Keeps-ensure IsDelivered _ _) λ _.
            Keeps-then IsDelivered _ _ now-Keeps
              λ t. Keeps-then IsDelivered _ _ (λ w h. S.fields_keeps i j _ w ∙ h) (λ _ w h. h)

  dispatch-Keeps : (i operator : String) → Keeps IsDelivered (dispatch_shipment D i operator)
  unfolding dispatch_shipment
  dispatch-Keeps i operator w h =
      >>=-state IsDelivered _ _ w (λ _ _. read-Keeps i w h)
        λ shipment got.
          let h₁ = read-Keeps i w h in
          ensure-state IsDelivered _ _ _ _ (λ _. h₁)
            λ ready.
              (Keeps-then IsDelivered _ _ (Keeps-ensure IsDelivered _ _) λ _.
                  Keeps-then IsDelivered _ _ (is_past-Keeps shipment.lock_expires_at) λ past.
                    Keeps-then IsDelivered _ _ (Keeps-ensure IsDelivered _ _) λ _.
                      Keeps-then IsDelivered _ _ now-Keeps λ t.
                        update-Keeps i w shipment _ h got (not_scheduled shipment.status ready)
                          refl)
                _ h₁

  lines-Keeps :
      (g : String) (items : List (PoLineItem R)) → Keeps IsDelivered (add_receipt_lines D g items)
  unfolding add_receipt_lines
  lines-Keeps g [] = λ w h. h
  lines-Keeps g (item ∷ items) =
      Keeps-then IsDelivered _ _ (λ w h. S.uuid_keeps j w ∙ h)
        λ id.
          Keeps-then IsDelivered _ _ (λ w h. S.gr_line_keeps _ j w ∙ h) (λ _. lines-Keeps g items)

  receipt-Keeps :
      (name : String) (shipment : Shipment) (operator : String)
      → Keeps IsDelivered (create_receipt D name shipment operator)
  unfolding create_receipt
  receipt-Keeps name shipment operator =
      Keeps-then IsDelivered _ _ (λ w h. S.po_lines_keeps _ j w ∙ h)
        λ items.
          Keeps-then IsDelivered _ _ (Keeps-attempt IsDelivered _ (λ w h. S.grs_keeps _ j w ∙ h))
            λ grs. Keeps-then IsDelivered _ _ now-Keeps λ t.
              Keeps-then IsDelivered _ _ (λ w h. S.gr_keeps _ j w ∙ h) (λ _. lines-Keeps _ items)

  deliver-Keeps : (name i operator : String) → Keeps IsDelivered (mark_delivered D name i operator)
  unfolding mark_delivered
  deliver-Keeps name i operator w h =
      >>=-state IsDelivered _ _ w (λ _ _. read-Keeps i w h)
        λ shipment got.
          let h₁ = read-Keeps i w h in
          ensure-state IsDelivered _ _ _ _ (λ _. h₁)
            λ moving.
              Keeps-then IsDelivered _ _
                (update-Keeps i w shipment _ h got (not_in_transit shipment.status moving) refl)
                (λ _. receipt-Keeps name shipment operator) _ h₁

  transition-Keeps : (i : String) (t : ShipmentStatus) → Keeps IsDelivered (transition_state D i t)
  unfolding transition_state
  transition-Keeps i t w h =
      >>=-state IsDelivered _ _ w (λ _ _. read-Keeps i w h)
        λ shipment got.
          let h₁ = read-Keeps i w h in
          ensure-state IsDelivered _ _ _ _ (λ _. h₁)
            λ valid. update-Keeps i w shipment _ h got (not_last shipment.status t valid) refl _ h₁

  clone-Keeps :
      (i : String) (items : List (PoLineItem R)) → Keeps IsDelivered (clone_lines D i items)
  unfolding clone_lines
  clone-Keeps i [] = λ w h. h
  clone-Keeps i (item ∷ items) =
      Keeps-then IsDelivered _ _ (λ w h. S.uuid_keeps j w ∙ h)
        λ id.
          Keeps-then IsDelivered _ _ (Keeps-discard IsDelivered _ (λ w h. S.item_keeps _ j w ∙ h))
            (λ _. clone-Keeps i items)

  check-Keeps : (ref : String) → Keeps IsDelivered (check_order D ref)
  unfolding check_order
  check-Keeps ref w h = go (D.get_po_by_id ref w) (S.po_keeps ref j w ∙ h)
    where
      go :
          (r : Result ScmError (Option (PurchaseOrder R)) × W)
          → IsDelivered r.1
          → IsDelivered (found_or D r).1
      go (ok po, u) e = e
      go (err x, u) e = e

  create-Keeps : (shipment : Shipment) → Keeps IsDelivered (create_shipment D shipment)
  unfolding create_shipment
  create-Keeps shipment = Keeps-then IsDelivered _ _ (check-Keeps shipment.po_ref) λ _.
      Keeps-then IsDelivered _ _
        (Keeps-if IsDelivered _ _ _ (λ w h. h)
          (Keeps-attempt IsDelivered _ (λ w h. S.supplier_keeps _ j w ∙ h)))
        λ found. Keeps-then IsDelivered _ _ (row _) λ _.
          Keeps-then IsDelivered _ _
            (Keeps-attempt IsDelivered _ (λ w h. S.po_lines_keeps _ j w ∙ h))
            (λ items. clone-Keeps shipment.id _)
    where
      row : (x : Shipment) → Keeps IsDelivered (D.create_shipment_row x)
      row x w h = elim (S.create_writes x j w) [
        | inl same ↦ same ∙ h
        | inr (_, absent, _) ↦ impossible (sym absent ∙ h)
      ]
        where
          impossible : {A : Type 0} → ◌≡◌ {A = Option ShipmentStatus} none (some delivered) → A
          impossible e = cc

  call-Keeps : (c : Call) (w : W) → IsDelivered w → IsDelivered (call D c w)
  unfolding call release_dispatch_lock
  call-Keeps (acquires name i operator) = acquire-Keeps name i operator
  call-Keeps (releases i) =
      Keeps-then IsDelivered _ _ (read-Keeps i) (λ _ w h. S.fields_keeps i j _ w ∙ h)
  call-Keeps (dispatches i operator) = dispatch-Keeps i operator
  call-Keeps (delivers name i operator) = deliver-Keeps name i operator
  call-Keeps (transitions i t) = transition-Keeps i t
  call-Keeps (creates shipment) = create-Keeps shipment

  -- Whatever calls are made, in whatever order and whichever of them fail: a shipment that is
  -- delivered stays delivered.
  pub run-Delivered :
      (cs : List Call) (w : W)
      → status_of j w ≡ some delivered
      → status_of j (run D cs w) ≡ some delivered
  unfolding run
  run-Delivered [] w h = h
  run-Delivered (c ∷ cs) w h = run-Delivered cs (call D c w) (call-Keeps c w h)
