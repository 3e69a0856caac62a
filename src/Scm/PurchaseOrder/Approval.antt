-- ===== src/Scm/PurchaseOrder/Approval.antt =====
-- scm/internal/service/po_service.go: what a successful `ApprovePO` and `TransitionState` have read
-- and written.
use zeus_be.Prelude.{
  ensure-ok, ensure-run, ensure_holds, >>=-run, or_error-state, ◌∙◌, subst, ℤ, pos, ◌≤ℤ◌, String,
  ◌≡◌, refl, ap, Option, none, some, List, [], ◌∷◌, Result, arith, Action, Done, ok, attempt,
  or_error, or_error-ok, not, ltb_ℤ, >>=-ok, Floats, true, false, if◌then◌else◌, pure,
}
use zeus_be.Scm.Errors.{ScmError, not_found, invalid_transition, state_regression, incomplete_grs}
use zeus_be.Scm.PurchaseOrder.{
  PoStatus, draft, approved, in_transit, partial, received, other, void, PurchaseOrder, PoLineItem,
  status_eq, valid_transition, PoDeps, approve_po, transition_state, check_receipts, sum_lines,
  or_empty,
}

none_left : (n : ℤ) → not (ltb_ℤ (pos 0) n) ≡ true → n ≤ℤ pos 0
none_left n h = ground arith

module _ (F : Floats) {W : Type 0} (D : PoDeps W F.Float) where
  -- The lines from the first on, each with its quantity times its unit price.
  abbrev pub total_from : F.Float → List (PoLineItem F.Float) → F.Float
  total_from total [] = total
  total_from total (item ∷ items) =
      total_from (F.add_f total (F.mul_f (F.of_int item.ordered_qty) item.unit_price)) items

  -- No lines where they could not be read.
  abbrev pub total_of : Option (List (PoLineItem F.Float)) → F.Float
  total_of none = F.zero_f
  total_of (some items) = total_from F.zero_f items

  sum_lines-total_from :
      (total : F.Float) (items : List (PoLineItem F.Float))
      → sum_lines F D total items ≡ total_from total items
  unfolding sum_lines
  sum_lines-total_from total [] = refl
  sum_lines-total_from total (item ∷ items) =
      sum_lines-total_from (F.add_f total (F.mul_f (F.of_int item.ordered_qty) item.unit_price))
        items

  sum_lines-total_of :
      (items : Option (List (PoLineItem F.Float)))
      → sum_lines F D F.zero_f (or_empty F D items) ≡ total_of items
  unfolding sum_lines
  sum_lines-total_of none = refl
  sum_lines-total_of (some items) = sum_lines-total_from F.zero_f items

  is_draft_lem : (s : PoStatus) → status_eq s draft ≡ true → s ≡ draft
  is_draft_lem draft h = refl
  is_draft_lem approved h = cc
  is_draft_lem in_transit h = cc
  is_draft_lem partial h = cc
  is_draft_lem received h = cc
  is_draft_lem void h = cc
  is_draft_lem (other s) h = cc

  -- An approval that succeeds has read an order in Draft, and its last call saves that order as
  -- Approved with the sum of quantity times unit price, in order, over the lines that were read; the
  -- sum is zero where they could not be read.
  pub approve_po-saves :
      (i : String) (w : W)
      → (approve_po F D i w).0 ≡ ok tt
      → (po : PurchaseOrder F.Float) × (items : Option (List (PoLineItem F.Float)))
        × ((D.get_po_by_id i w).0 ≡ ok (some po))
        × (po.status ≡ draft)
        × ((attempt (D.get_po_line_items i) (D.get_po_by_id i w).1).0 ≡ ok items)
        × (approve_po F D i w
            ≡ D.save_po
                (record po { status = approved; total_value = total_of items })
                (attempt (D.get_po_line_items i) (D.get_po_by_id i w).1).1)
  unfolding approve_po
  approve_po-saves i w h =
      let (po, got, h₁) = >>=-ok (or_error (D.get_po_by_id i) not_found) _ w tt h in
      let (is_draft, h₂) = ensure-ok (status_eq po.status draft) invalid_transition _ _ tt h₁ in
      let (items, read, _) = >>=-ok (attempt (D.get_po_line_items i)) _ _ tt h₂ in
      (
        po,
        items,
        or_error-ok (D.get_po_by_id i) not_found w po got,
        is_draft_lem po.status is_draft,
        subst (λ u. (attempt (D.get_po_line_items i) u).0 ≡ ok items)
            (or_error-state (D.get_po_by_id i) not_found w) read,
        >>=-run _ _ w po got
            ∙ ensure-run _ _ _ _ is_draft
            ∙ >>=-run _ _ _ items read
            ∙ ap
                (save
                  (attempt (D.get_po_line_items i) (or_error (D.get_po_by_id i) not_found w).1).1
                  po)
                (sum_lines-total_of items)
            ∙ ap (λ u. save (attempt (D.get_po_line_items i) u).1 po (total_of items))
                (or_error-state (D.get_po_by_id i) not_found w),
      )
    where
      save : W → PurchaseOrder F.Float → F.Float → Result ScmError Done × W
      save u po total = D.save_po (record po { status = approved; total_value = total }) u

  abbrev guard_receipts : PoStatus → String → Action W ScmError Done
  guard_receipts t i =
      if status_eq t void then pure tt else check_receipts F D i D.count_incomplete_grs

  receipts_counted :
      (count : String → Action W ScmError ℤ) (i : String) (t : PoStatus) (u : W)
      → D.count_incomplete_grs ≡ some count
      → status_eq t void ≡ false
      → (guard_receipts t i u).0 ≡ ok tt
      → (n : ℤ) × ((count i u).0 ≡ ok n) × (n ≤ℤ pos 0)
  unfolding check_receipts
  receipts_counted count i t u e ne h =
      let (n, counted, h') = >>=-ok (count i) _ u tt (rw (ne, e, check_receipts) at h) in
      (n, counted, none_left n (ensure_holds _ incomplete_grs _ h'))

  -- With a receipt counter, an order moves on to a status other than Void only from a state in
  -- which no receipt of it was counted as incomplete.
  pub transition_state-receipts :
      (count : String → Action W ScmError ℤ) (i : String) (t : PoStatus) (w : W)
      → D.count_incomplete_grs ≡ some count
      → status_eq t void ≡ false
      → (transition_state F D i t w).0 ≡ ok tt
      → (po : PurchaseOrder F.Float) × (n : ℤ) × ((D.get_po_by_id i w).0 ≡ ok (some po))
        × (valid_transition po.status t ≡ true)
        × ((count i (D.get_po_by_id i w).1).0 ≡ ok n)
        × (n ≤ℤ pos 0)
  unfolding transition_state
  transition_state-receipts count i t w e ne h =
      let (po, got, h₁) = >>=-ok (or_error (D.get_po_by_id i) not_found) _ w tt h in
      let (valid, h₂) = ensure-ok (valid_transition po.status t) state_regression _ _ tt h₁ in
      let (_, checked, _) = >>=-ok (guard_receipts t i) _ _ tt h₂ in
      let (n, counted, at_most) = receipts_counted count i t _ e ne checked in
      (
        po,
        n,
        or_error-ok (D.get_po_by_id i) not_found w po got,
        valid,
        subst (λ u. (count i u).0 ≡ ok n) (or_error-state (D.get_po_by_id i) not_found w) counted,
        at_most,
      )
