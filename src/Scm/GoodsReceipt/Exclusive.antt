-- ===== src/Scm/GoodsReceipt/Exclusive.antt =====
-- scm/internal/service/goods_receipt_service.go: the lock of a receipt keeps other operators out.
use zeus_be.Prelude.{
  ℤ, ◌<ℤ◌, ltb_ℤ, String, str_eq, eq_iff, Bool, true, false, not, Option, none, some, List, [], ◌∷◌,
  if◌then◌else◌, Result, ok, pure, or_error, or_error-state, or_error-ok, ensure-state, ensure-ok,
  >>=-state, >>=-ok, ◌∙◌, ◌≡◌, ◌≢◌, ◌⊎◌, refl, ap, sym, subst, arith, All, Keeps, Keeps-then,
  Keeps-if, inl, inr,
}
use zeus_be.Scm.Errors.{ScmError, not_found}
use zeus_be.Scm.GoodsReceipt.{
  GrDeps, GrLineItem, GoodsReceipt, LockFields, Count, Call, acquires, releases, processes, call,
  run, is_live, is_other, is_own, acquire_lock, release_lock, receive_line, turn, receive_lines,
  process_blind_receipt,
}
use zeus_be.Scm.GoodsReceipt.Store.{GrStore}
use zeus_be.Scm.GoodsReceipt.Frame.{
  Framed, now-Keeps, is_live-Keeps, is_expired-Keeps, enter_received-Keeps, label_of-Keeps,
  close_receipt-Keeps,
}

module _ {W R : Type 0} (D : GrDeps W R) (S : GrStore D) (i operator : String) (expires : ℤ) where
  open S use {lock_of}

  -- The operator holds the lock of the receipt.
  abbrev pub Held : W → Type 0
  Held w = lock_of i w ≡ (some operator, some expires)

  -- The clock does not come to the end of the lock.
  abbrev pub Early : Type 0
  Early = (w : W) (t : ℤ) → (D.now w).0 ≡ ok t → t <ℤ expires

  -- A call of someone else, or one for another receipt; processing is anyone's.
  abbrev pub IsForeign : Call → Type 0
  IsForeign (acquires name j other) = (j ≢ i) ⊎ (other ≢ operator)
  IsForeign (releases j) = j ≢ i
  IsForeign (processes threshold name j other counts) = Unit

  Held-Framed : Framed D S Held
  Held-Framed w u same h = same.0 i ∙ h

  receive_line-Keeps :
      (threshold : ℤ) (name other j : String) (item : GrLineItem) (count : Count)
      → Keeps Held (receive_line D threshold name other j item count)
  unfolding receive_line
  receive_line-Keeps threshold name other j item count =
      Keeps-then Held _ _
        (label_of-Keeps D S Held Held-Framed threshold item item.aging_sensitive
          item.production_date)
        λ label.
          Keeps-then Held _ _ (λ w. Held-Framed w _ (S.line_keeps _ w))
            λ _.
              Keeps-then Held _ _ (λ w. Held-Framed w _ (S.get_stock_keeps _ w))
                λ stock.
                  Keeps-then Held _ _ (λ w h. S.save_locks _ i w ∙ h)
                    λ _.
                      Keeps-then Held _ _
                        (enter_received-Keeps D S Held Held-Framed name other j item.sku
                          count.received)
                        (λ _ w h. h)

  turn-Keeps :
      (threshold : ℤ) (name other j : String) (item : GrLineItem) (count : Option Count)
      → Keeps Held (turn D threshold name other j item count)
  unfolding turn
  turn-Keeps threshold name other j item none = λ w h. h
  turn-Keeps threshold name other j item (some count) =
      Keeps-then Held _ _ (receive_line-Keeps threshold name other j item count) (λ _ w h. h)

  receive_lines-Keeps :
      (threshold : ℤ) (name other j : String) (counts : String → Option Count)
      (items : List GrLineItem)
      → Keeps Held (receive_lines D threshold name other j counts items)
  unfolding receive_lines
  receive_lines-Keeps threshold name other j counts [] = λ w h. h
  receive_lines-Keeps threshold name other j counts (item ∷ items) =
      Keeps-then Held _ _ (turn-Keeps threshold name other j item (counts item.sku)) λ first.
        Keeps-then Held _ _ (receive_lines-Keeps threshold name other j counts items) (λ _ w h. h)

  read-Held : (j : String) → Keeps Held (or_error (D.get_gr_by_id j) not_found)
  read-Held j w h = rw or_error-state (Held-Framed w _ (S.get_gr_keeps j w) h)

  -- What was read of a receipt is its lock.
  read_lock :
      (j : String) (w : W) (gr : GoodsReceipt)
      → (or_error (D.get_gr_by_id j) not_found w).0 ≡ ok gr
      → (lock_of j w ≡ (gr.locked_by, gr.lock_expires_at)) × (gr.id ≡ j)
  read_lock j w gr got = S.get_gr_reads j w gr (or_error-ok (D.get_gr_by_id j) not_found w gr got)

  -- A row that is saved with the lock that was read leaves the lock as it is.
  update-Held :
      (j : String) (w : W) (gr : GoodsReceipt)
      → Held w
      → (or_error (D.get_gr_by_id j) not_found w).0 ≡ ok gr
      → (gr' : GoodsReceipt) → gr'.id ≡ gr.id
      → gr'.locked_by ≡ gr.locked_by
      → gr'.lock_expires_at ≡ gr.lock_expires_at
      → Keeps Held (D.update_gr gr')
  update-Held j w gr held got gr' id holder end u h = elim (S.update_locks gr' i u) [
    | inl same ↦ same ∙ h
    | inr (row, lock) ↦
        let (read, name) = read_lock j w gr got in
        let here : j ≡ i = sym name ∙ sym id ∙ row in
        let own : lock_of i w ≡ (gr.locked_by, gr.lock_expires_at) =
          subst (λ k. lock_of k w ≡ (gr.locked_by, gr.lock_expires_at)) here read in
        rw (lock, holder, end) (sym own ∙ held)
  ]

  process-Keeps :
      (threshold : ℤ) (name j other : String) (counts : String → Option Count)
      → Keeps Held (process_blind_receipt D threshold name j other counts)
  unfolding process_blind_receipt
  process-Keeps threshold name j other counts w h =
      >>=-state Held _ _ w (λ _ _. read-Held j w h)
        λ gr got.
          let h₁ = read-Held j w h in
          ensure-state Held _ _ _ _ (λ _. h₁)
            λ own.
              (Keeps-then Held _ _ (is_expired-Keeps D S Held Held-Framed gr.lock_expires_at)
                  λ expired v h₂.
                    ensure-state Held _ _ _ v (λ _. h₂)
                      λ _.
                        (Keeps-then Held _ _ (λ u. Held-Framed u _ (S.lines_keeps j u))
                            λ items.
                              Keeps-then Held _ _
                                (receive_lines-Keeps threshold name other gr.id counts items)
                                λ loop.
                                  Keeps-then Held _ _ (λ u. Held-Framed u _ (S.get_po_keeps _ u))
                                    λ po.
                                      close_receipt-Keeps D S Held Held-Framed name other gr loop.0
                                        loop.1 po (update-Held j w gr h got))
                          v h₂)
                _ h₁

  live_lem :
      (other : String) (v : W) (holder : Option String) (e : Option ℤ) (live : Bool)
      → Early
      → other ≢ operator
      → holder ≡ some operator
      → e ≡ some expires
      → ((if is_other holder other then is_live D e else pure false) v).0 ≡ ok live
      → live ≡ true
  unfolding is_live
  live_lem other v holder e live early differ h₁ h₂ h =
      let foreign : is_other (some operator) other ≡ true = ground (arith, eq_iff operator other) in
      let done : (is_live D (some expires) v).0 ≡ ok live = rw (h₁, h₂, foreign) at h in
      let (t, read, same) = >>=-ok D.now (λ t. pure (ltb_ℤ t expires)) v live done in
      let before : ltb_ℤ t expires ≡ true = ground (arith, early v t read) in
      ok-injective before same
    where
      ok-injective :
          {a b : Bool} → a ≡ true → ◌≡◌ {A = Result ScmError Bool} (ok a) (ok b) → b ≡ true
      ok-injective p q = cc

  -- A write of the lock fields of another receipt.
  fields-Held : (j : String) (f : LockFields) → j ≢ i → Keeps Held (D.update_gr_fields j f)
  fields-Held j f apart w h = elim (S.fields_locks j i f w) [
    | inl same ↦ same ∙ h
    | inr (row, _) ↦ elim (apart row) [ ]
  ]

  test-Keeps :
      (other : String) (holder : Option String) (e : Option ℤ)
      → Keeps Held (if is_other holder other then is_live D e else pure false)
  test-Keeps other holder e = Keeps-if Held _ _ _ (is_live-Keeps D S Held Held-Framed e) (λ w h. h)

  -- Where the lock is someone else's and the clock does not come to its end, the test lets no one by.
  not_live :
      (j other : String) (w : W) (gr : GoodsReceipt) (live : Bool)
      → Early
      → Held w
      → j ≡ i
      → other ≢ operator
      → (or_error (D.get_gr_by_id j) not_found w).0 ≡ ok gr
      → ((if is_other gr.locked_by other then is_live D gr.lock_expires_at else pure false)
          (or_error (D.get_gr_by_id j) not_found w).1).0
        ≡ ok live
      → live ≡ true
  not_live j other w gr live early held here differ got read =
      let (lock, _) = read_lock j w gr got in
      let e : lock_of i w ≡ (gr.locked_by, gr.lock_expires_at) =
        subst (λ k. lock_of k w ≡ (gr.locked_by, gr.lock_expires_at)) here lock in
      let both = sym e ∙ held in
      live_lem other _ gr.locked_by gr.lock_expires_at live early differ (ap (λ l. l.0) both)
        (ap (λ l. l.1) both) read

  conflict : {A : Type 0} {live : Bool} → live ≡ true → not live ≡ true → A
  conflict {live = true} e h = cc
  conflict {live = false} e h = cc

  acquire-Keeps :
      (name j other : String)
      → Early
      → (j ≢ i) ⊎ (other ≢ operator)
      → Keeps Held (acquire_lock D name j other)
  unfolding acquire_lock
  acquire-Keeps name j other early foreign w h =
      >>=-state Held _ _ w (λ _ _. read-Held j w h)
        λ gr got.
          let h₁ = read-Held j w h in
          let h₂ = test-Keeps other gr.locked_by gr.lock_expires_at _ h₁ in
          >>=-state Held _ _ _ (λ _ _. h₂)
            λ live read.
              ensure-state Held (not live) _ _ _ (λ _. h₂)
                λ free.
                  let apart : j ≢ i = elim (foreign) [
                    | inl differ ↦ differ
                    | inr differ ↦ λ here.
                        let taken = not_live j other w gr live early h here differ got read in
                        conflict taken free
                  ] in
                  Keeps-then Held _ _ (now-Keeps D S Held Held-Framed) (λ t. fields-Held j _ apart)
                    _ h₂

  call-Keeps : (c : Call) → Early → IsForeign c → (w : W) → Held w → Held (call D c w)
  unfolding call release_lock
  call-Keeps (acquires name j other) early foreign = acquire-Keeps name j other early foreign
  call-Keeps (releases j) early foreign =
      Keeps-then Held _ _ (read-Held j) (λ gr. fields-Held j _ foreign)
  call-Keeps (processes threshold name j other counts) early foreign =
      process-Keeps threshold name j other counts

  run-Keeps : (cs : List Call) → Early → All IsForeign cs → (w : W) → Held w → Held (run D cs w)
  unfolding run
  run-Keeps [] early foreign w h = h
  run-Keeps (c ∷ cs) early foreign w h =
      run-Keeps cs early foreign.1 (call D c w) (call-Keeps c early foreign.0 w h)

  acquire_refused :
      (name other : String) (w : W)
      → Early
      → Held w
      → other ≢ operator
      → (acquire_lock D name i other w).0 ≢ ok tt
  unfolding acquire_lock
  acquire_refused name other w early h differ done =
      let (gr, got, rest) = >>=-ok _ _ w tt done in
      let (live, read, rest') = >>=-ok _ _ _ tt rest in
      let (free, _) = ensure-ok (not live) _ _ _ tt rest' in
      let taken = not_live i other w gr live early h refl differ got read in conflict taken free

  process_refused :
      (threshold : ℤ) (name other : String) (counts : String → Option Count) (w : W)
      → Held w
      → other ≢ operator
      → (process_blind_receipt D threshold name i other counts w).0 ≢ ok tt
  unfolding process_blind_receipt
  process_refused threshold name other counts w h differ done =
      let (gr, got, rest) = >>=-ok _ _ w tt done in
      let (own, _) = ensure-ok (is_own gr.locked_by other) _ _ _ tt rest in
      let (lock, _) = read_lock i w gr got in
      let holder : gr.locked_by ≡ some operator = ap (λ l. l.0) (sym lock ∙ h) in
      let same : str_eq operator other ≡ true = rw holder at own in
      differ (ground (arith, eq_iff operator other))

  -- While an operator holds the lock of a receipt and the clock does not come to its end: whatever
  -- others call, for this receipt or another, and whoever processes it, short of releasing it, the
  -- operator still holds the lock, and no other can take it or process the receipt.
  pub run-exclusive :
      (cs : List Call) (w : W) (other name : String) (threshold : ℤ)
      (counts : String → Option Count)
      → Early
      → Held w
      → All IsForeign cs
      → other ≢ operator
      → let u = run D cs w in
        Held u
        × ((acquire_lock D name i other u).0 ≢ ok tt)
        × ((process_blind_receipt D threshold name i other counts u).0 ≢ ok tt)
  run-exclusive cs w other name threshold counts early h foreign differ =
      let held = run-Keeps cs early foreign w h in
      (
        held,
        acquire_refused name other (run D cs w) early held differ,
        process_refused threshold name other counts (run D cs w) held differ,
      )
