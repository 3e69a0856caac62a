-- ===== src/Scm/Shipment/Dispatch.antt =====
-- scm/internal/service/shipment_service.go: who may dispatch a shipment.
use zeus_be.Prelude.{
  ℤ, ◌≤ℤ◌, ltb_ℤ, String, Bool, true, not, Option, none, some, Done, Result, ok, or_error-ok,
  or_error-state, ◌≡◌, ap, subst, eq_iff, ◌⊎◌, refl, arith, inl, inr, >>=-Ends, ensure-Ends, >>=-ok,
}
use zeus_be.Scm.Errors.{ScmError, not_found}
use zeus_be.Scm.Shipment.{
  ShipmentDeps, ShipmentStatus, scheduled, in_transit, delivered, delayed, other, shipment_eq,
  Shipment, dispatch_shipment, is_locked_by, is_past,
}

module _ {W R : Type 0} (D : ShipmentDeps W R) where
  -- A lock with no end, or one whose end the clock did not show as passed.
  abbrev pub IsUnexpired : Option ℤ → W → Type 0
  IsUnexpired e v =
      (e ≡ none) ⊎ ((x : ℤ) × (t : ℤ) × (e ≡ some x) × ((D.now v).0 ≡ ok t) × (t ≤ℤ x))

  is_scheduled : (s : ShipmentStatus) → shipment_eq s scheduled ≡ true → s ≡ scheduled
  is_scheduled scheduled h = refl
  is_scheduled in_transit h = cc
  is_scheduled delivered h = cc
  is_scheduled delayed h = cc
  is_scheduled (other s) h = cc

  is_holder :
      (holder : Option String) (operator : String)
      → is_locked_by holder operator ≡ true
      → holder ≡ some operator
  is_holder none operator h = cc
  is_holder (some holder) operator h = ap some ((eq_iff holder operator).0 h)

  unexpired_lem :
      (e : Option ℤ) (past : Bool) (v : W)
      → (is_past D e v).0 ≡ ok past
      → not past ≡ true
      → IsUnexpired e v
  unfolding is_past
  unexpired_lem none past v h free = inl refl
  unexpired_lem (some x) past v h free =
      let (t, read, same) = >>=-ok D.now _ v past h in
      let e : ltb_ℤ x t ≡ past = ok-injective same in inr (x, t, refl, read, bound x t past e free)
    where
      ok-injective : {a b : Bool} → ◌≡◌ {A = Result ScmError Bool} (ok a) (ok b) → a ≡ b
      ok-injective q = cc

      bound : (x t : ℤ) (b : Bool) → ltb_ℤ x t ≡ b → not b ≡ true → t ≤ℤ x
      bound x t b p q = ground arith

  -- A dispatch that succeeds has read a scheduled shipment whose lock the caller held and which had
  -- not expired by the clock as it was read after the shipment, and its last call saves that
  -- shipment as in transit and unlocked, shipped at the time that the clock showed.
  pub dispatch_shipment-saves :
      (i operator : String) (w : W)
      → (dispatch_shipment D i operator w).0 ≡ ok tt
      → (shipment : Shipment) × (t : ℤ) × (v : W) × ((D.get_shipment_by_id i w).0
          ≡ ok (some shipment))
        × (shipment.status ≡ scheduled)
        × (shipment.locked_by ≡ some operator)
        × IsUnexpired shipment.lock_expires_at (D.get_shipment_by_id i w).1
        × ((D.now v).0 ≡ ok t)
        × ((dispatch_shipment D i operator w).1
            ≡ (D.update_shipment
                (record shipment {
                  status = in_transit;
                  ship_date = t;
                  locked_by = none;
                  lock_expires_at = none;
                })
                (D.now v).1).1)
  unfolding dispatch_shipment
  dispatch_shipment-saves i operator w =
      let Q : Done → W → Type 0 = λ _ u.
        (shipment : Shipment) × (t : ℤ) × (v : W) × ((D.get_shipment_by_id i w).0
          ≡ ok (some shipment))
        × (shipment.status ≡ scheduled)
        × (shipment.locked_by ≡ some operator)
        × IsUnexpired shipment.lock_expires_at (D.get_shipment_by_id i w).1
        × ((D.now v).0 ≡ ok t)
        × (u
            ≡ (D.update_shipment
                (record shipment {
                  status = in_transit;
                  ship_date = t;
                  locked_by = none;
                  lock_expires_at = none;
                })
                (D.now v).1).1) in
      (>>=-Ends Q _ _ w λ shipment got. ensure-Ends Q _ _ _ _ λ ready. ensure-Ends Q _ _ _ _ λ own.
          >>=-Ends Q _ _ _ λ past read. ensure-Ends Q _ _ _ _ λ free.
            >>=-Ends Q _ _ _ λ t clock _ _. (
              shipment,
              t,
              _,
              or_error-ok (D.get_shipment_by_id i) not_found w shipment got,
              is_scheduled shipment.status ready,
              is_holder shipment.locked_by operator own,
              subst (IsUnexpired shipment.lock_expires_at)
                  (or_error-state (D.get_shipment_by_id i) not_found w)
                  (unexpired_lem shipment.lock_expires_at past _ read free),
              clock,
              refl,
            ))
        tt
