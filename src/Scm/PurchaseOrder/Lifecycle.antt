-- ===== src/Scm/PurchaseOrder/Lifecycle.antt =====
-- The life of a purchase order under the calls of scm/internal/service/po_service.go, over any
-- store of orders that keeps one row for each id.
use zeus_be.Prelude.{
  ℕ, ℤ, String, ◌≡◌, refl, ◌⊎◌, inl, inr, some, List, [], ◌∷◌, arith, Action, Done, ok, pure,
  attempt, or_error, ensure, or_error-state, or_error-ok, attempt-state, >>=-state, ensure-state,
  ◌∙◌, subst, Option-cases, ensure_keeps, if◌then◌else◌, sym, ap, ◌>>=◌, ◌>>◌, Floats, Bool, true,
  false,
}
use zeus_be.Scm.PurchaseOrder.Transition.{Reach, here, next, Reach-trans}
use zeus_be.Scm.PurchaseOrder.Store.{PoStore, Move, stay, born, step}
use zeus_be.Scm.Errors.{ScmError, not_found}
use zeus_be.Scm.PurchaseOrder.{
  PoStatus, draft, approved, void, PurchaseOrder, valid_transition, status_eq,
}
use zeus_be.Scm.PurchaseOrder.{
  PoDeps, Call, drafts, adds_line, approves, transitions, creates, call, run, create_lines,
  create_draft, add_line_item_with_lock, approve_po, transition_state, create_po, check_receipts,
  check_vendor, price_lines, PoLineItem,
}

module _ (F : Floats) {W : Type 0} (D : PoDeps W F.Float) (S : PoStore D) (j : String) where
  open S use {status_of}

  abbrev Quiet : W → W → Type 0
  Quiet w u = status_of j u ≡ status_of j w

  abbrev Moved : W → W → Type 0
  Moved w u = Move (status_of j w) (status_of j u)

  Quiet-then :
      {A B : Type 0} (w₀ : W) (m : Action W ScmError A) (f : A → Action W ScmError B) (w : W)
      → Quiet w₀ (m w).1
      → ((a : A) → (m w).0 ≡ ok a → Moved w₀ (f a (m w).1).1)
      → Moved w₀ ((m >>= f) w).1
  Quiet-then w₀ m f w q rest = >>=-state (Moved w₀) m f w (λ _ _. stay q) rest

  ensure_then :
      {B : Type 0} (w₀ : W) (b : Bool) (e : ScmError) (k : Action W ScmError B) (w : W)
      → Quiet w₀ w
      → (b ≡ true → Moved w₀ (k w).1)
      → Moved w₀ ((ensure b e >> k) w).1
  ensure_then w₀ b e k w q rest = ensure-state (Moved w₀) b e k w (λ _. stay q) rest

  read-Quiet : (i : String) (w : W) → Quiet w (or_error (D.get_po_by_id i) not_found w).1
  read-Quiet i w = rw (or_error-state (D.get_po_by_id i) not_found w) (S.get_keeps i j w)

  -- What was read is what the store holds.
  read_status :
      (i : String) (w : W) (po : PurchaseOrder F.Float)
      → (or_error (D.get_po_by_id i) not_found w).0 ≡ ok po
      → (status_of i w ≡ some po.status) × (po.id ≡ i)
  read_status i w po h = S.get_reads i w po (or_error-ok (D.get_po_by_id i) not_found w po h)

  -- A write of the status `t` to the order that was read, where `valid_transition` allows it.
  write_moves :
      (i : String) (w u v : W) (s t : PoStatus)
      → status_of i w ≡ some s
      → Quiet w u
      → valid_transition s t ≡ true
      → (status_of j v ≡ status_of j u) ⊎ ((i ≡ j) × (status_of j v ≡ some t))
      → Moved w v
  write_moves i w u v s t h q valid (inl e) = stay (e ∙ q)
  write_moves i w u v s t h q valid (inr (same, e)) =
      step s t (subst (λ k. status_of k w ≡ some s) same h) e valid

  draft_to_approved : (s : PoStatus) → status_eq s draft ≡ true → valid_transition s approved ≡ true
  unfolding valid_transition
  draft_to_approved s h = ground arith

  approve_po-Move : (i : String) (w : W) → Moved w (approve_po F D i w).1
  unfolding approve_po
  approve_po-Move i w = Quiet-then w _ _ w (read-Quiet i w) λ po got.
      ensure_then w _ _ _ _ (read-Quiet i w) λ is_draft.
        let q : Quiet w
            (attempt (D.get_po_line_items i) (or_error (D.get_po_by_id i) not_found w).1).1 =
          rw attempt-state (S.lines_keeps i j _ ∙ read-Quiet i w) in
        Quiet-then w _ _ _ q λ items _.
          let (held, same) = read_status i w po got in
          write_moves po.id w _ _ po.status approved (rw same held) q
            (draft_to_approved po.status is_draft) (S.save_writes _ j _)

  receipts-Quiet : (i : String) (w : W) → Quiet w (check_receipts F D i D.count_incomplete_grs w).1
  unfolding check_receipts
  receipts-Quiet i w = elim (Option-cases D.count_incomplete_grs) [
    | inl e ↦ rw (e, check_receipts)
    | inr (count, e) ↦
        let q = S.receipts_keeps count i j w e in
        rw (e, check_receipts)
          (>>=-state (Quiet w) (count i) _ w (λ _ _. q) (λ n _. rw ensure_keeps q))
  ]

  guard-Quiet :
      (b : Bool) (i : String) (w : W)
      → Quiet w ((if b then pure tt else check_receipts F D i D.count_incomplete_grs) w).1
  guard-Quiet true i w = refl
  guard-Quiet false i w = receipts-Quiet i w

  pub transition_state-Move :
      (i : String) (t : PoStatus) (w : W) → Moved w (transition_state F D i t w).1
  unfolding transition_state
  transition_state-Move i t w = Quiet-then w _ _ w (read-Quiet i w) λ po got.
      ensure_then w _ _ _ _ (read-Quiet i w) λ valid.
        let q = guard-Quiet (status_eq t void) i _ ∙ read-Quiet i w in
        Quiet-then w _ _ _ q λ _ _.
          write_moves i w _ _ po.status t (read_status i w po got).0 q valid
            (S.update_writes i j t _)

  -- A new row with the status Draft.
  create_moves :
      (po : PurchaseOrder F.Float) (w u : W)
      → Quiet w u
      → po.status ≡ draft
      → Moved w (D.create_po_row po u).1
  create_moves po w u q new = elim (S.create_writes po j u) [
    | inl e ↦ stay (e ∙ q)
    | inr (_, absent, e) ↦ born (sym q ∙ absent) (e ∙ ap some new)
  ]

  last_pure :
      {A : Type 0} (w : W) (m : Action W ScmError Done) (a : A) (u : W)
      → Moved w (m u).1
      → Moved w ((m >> pure a) u).1
  last_pure w m a u h = >>=-state (Moved w) m _ u (λ _ _. h) (λ _ _. h)

  pub create_draft-Move : (v : ℕ) (w : W) → Moved w (create_draft F D v w).1
  unfolding create_draft check_vendor
  create_draft-Move v w =
      let q₁ : Quiet w (check_vendor F D v w).1 =
        rw (check_vendor, ensure_keeps) (S.find_keeps v _ j w) in
      Quiet-then w _ _ w q₁ λ _ _.
        let q₂ = S.year_keeps j _ ∙ q₁ in
        Quiet-then w _ _ _ q₂ λ year _.
          let q₃ = S.count_keeps year j _ ∙ q₂ in
          Quiet-then w _ _ _ q₃ λ count _. last_pure w _ _ _ (create_moves _ w _ q₃ refl)

  pub add_line_item_with_lock-Move :
      (i s : String) (n : ℤ) (w : W) → Moved w (add_line_item_with_lock F D i s n w).1
  unfolding add_line_item_with_lock
  add_line_item_with_lock-Move i s n w = Quiet-then w _ _ w (read-Quiet i w) λ po _.
      ensure_then w _ _ _ _ (read-Quiet i w) λ _.
        let q₁ = S.lock_keeps s j n _ ∙ read-Quiet i w in
        Quiet-then w _ _ _ q₁ λ _ _.
          let q₂ = S.cost_keeps s j _ ∙ q₁ in
          Quiet-then w _ _ _ q₂ λ cost _.
            let q₃ = S.uuid_keeps j _ ∙ q₂ in
            Quiet-then w _ _ _ q₃ λ id _. stay (S.line_keeps _ j _ ∙ q₃)

  price_lines-Quiet :
      (po : PurchaseOrder F.Float) (items : List (PoLineItem F.Float)) (total : F.Float) (w u : W)
      → Quiet w u
      → Quiet w (price_lines F D po items total u).1
  unfolding price_lines
  price_lines-Quiet po [] total w u q = q
  price_lines-Quiet po (item ∷ items) total w u q =
      let q₁ : Quiet w _ = rw or_error-state (S.mapping_keeps po.vendor_id item.sku j u ∙ q) in
      >>=-state (Quiet w) _ _ u (λ _ _. q₁)
        λ mapping _.
          let q₂ = S.uuid_keeps j _ ∙ q₁ in
          >>=-state (Quiet w) _ _ _ (λ _ _. q₂)
            λ id _.
              let q₃ = price_lines-Quiet po items _ w _ q₂ in
              >>=-state (Quiet w) _ _ _ (λ _ _. q₃) (λ _ _. q₃)

  create_lines-Move :
      (po : PurchaseOrder F.Float) (items : List (PoLineItem F.Float)) (w : W)
      → Moved w (create_lines F D po items w).1
  unfolding create_lines
  create_lines-Move po [] w = stay refl
  create_lines-Move po (item ∷ items) w =
      let q = price_lines-Quiet po (item ∷ items) F.zero_f w w refl in
      Quiet-then w _ _ w q λ priced _. last_pure w _ _ _ (create_moves _ w _ q refl)

  -- One call, whether it succeeds or fails, leaves the status of an order alone, creates the order
  -- as a draft, or makes one valid transition.
  pub call-Move : (c : Call F.Float) (w : W) → Moved w (call F D c w)
  unfolding call create_po
  call-Move (drafts v) w = create_draft-Move v w
  call-Move (adds_line i s n) w = add_line_item_with_lock-Move i s n w
  call-Move (approves i) w = approve_po-Move i w
  call-Move (transitions i t) w = transition_state-Move i t w
  call-Move (creates po) w = create_lines-Move po po.line_items w

  Move-Reach :
      (w u : W) (s : PoStatus)
      → status_of j w ≡ some s
      → Moved w u
      → (t : PoStatus) × (status_of j u ≡ some t) × Reach s t
  Move-Reach w u s h (stay e) = (s, e ∙ h, here)
  Move-Reach w u s h (born e _) = cc
  Move-Reach w u s h (step s' t e e' valid) =
      let same : s' ≡ s = cc in
      (t, e', next here (subst (λ k. valid_transition k t ≡ true) same valid))

  -- Whichever calls of the purchase order service are made (a new order, a draft from deficits, a
  -- line added, an approval, a transition), in whatever order and whichever of them fail: an order
  -- that the store holds is still held afterwards, and these calls have changed its status through
  -- valid transitions only. Other services, such as the receipt of goods, are not among the calls.
  pub run-Reach :
      (cs : List (Call F.Float)) (w : W) (s : PoStatus)
      → status_of j w ≡ some s
      → (t : PoStatus) × (status_of j (run F D cs w) ≡ some t) × Reach s t
  unfolding run
  run-Reach [] w s h = (s, h, here)
  run-Reach (c ∷ cs) w s h =
      let (t, e, r) = Move-Reach w (call F D c w) s h (call-Move c w) in
      let (t', e', r') = run-Reach cs (call F D c w) t e in (t', e', Reach-trans r r')
