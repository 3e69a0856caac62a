-- ===== src/Scm/GoodsReceipt/Stock.antt =====
-- scm/internal/service/goods_receipt_service.go, `ProcessBlindReceipt`: what a receipt adds to the
-- stock.
use zeus_be.Prelude.{
  ℤ, pos, ◌+ℤ◌, wrap64, wrap64-eq, wrap64-IsInt64, wrap64-+ℤ, add64, +ℤ-zero, int_laws, String,
  str_eq, eq_iff, Bool, true, false, Option, none, some, List, [], ◌∷◌, if◌then◌else◌, Done, ok,
  or_error-state, ◌∙◌, ◌≡◌, ◌≢◌, refl, ap, sym, subst, arith, Keeps-then, Ends, >>=-Ends,
  ensure-Ends, Bool-cases, inl, inr,
}
use zeus_be.Scm.GoodsReceipt.{
  GrDeps, GrLineItem, ComponentStock, Count, receive_line, turn, receive_lines,
  process_blind_receipt, is_expired,
}
use zeus_be.Scm.GoodsReceipt.Store.{GrStore}
use zeus_be.Scm.GoodsReceipt.Frame.{
  Framed, is_expired-Keeps, enter_received-Keeps, label_of-Keeps, close_receipt-Keeps,
}

-- What was counted for one SKU over the lines of a receipt.
abbrev pub count_of : Option Count → ℤ
count_of none = pos 0
count_of (some count) = count.received

abbrev pub counted : String → (String → Option Count) → List GrLineItem → ℤ
counted s counts [] = pos 0
counted s counts (item ∷ items) =
    (if str_eq item.sku s then count_of (counts item.sku) else pos 0) +ℤ counted s counts items

module _ {W R : Type 0} (D : GrDeps W R) (S : GrStore D) (s : String) where
  open S use {stock_of}

  abbrev IsAt : ℤ → W → Type 0
  IsAt x w = stock_of s w ≡ x

  IsAt-Framed : (x : ℤ) → Framed D S (IsAt x)
  IsAt-Framed x w u same h = same.1 s ∙ h

  same_sku : (a b : String) → str_eq a b ≡ true → a ≡ b
  same_sku a b h = ground (arith, eq_iff a b)

  other_sku : (a b : String) → str_eq a b ≡ false → a ≢ b
  other_sku a b h e = ground (arith, eq_iff a b)

  -- Nothing is added.
  kept : (w u : W) → stock_of s u ≡ stock_of s w → stock_of s u ≡ wrap64 (stock_of s w +ℤ pos 0)
  kept w u h = rw (+ℤ-zero (stock_of s w), wrap64-eq (stock_of s w) (S.stock_range s w)) h

  save_adds :
      (sku : String) (n : ℤ) (w : W) (stock : ComponentStock)
      → (D.get_stock_by_sku sku w).0 ≡ ok stock
      → Ends
          (λ _ u. stock_of s u ≡ wrap64 (stock_of s w +ℤ (if str_eq sku s then n else pos 0)))
          (D.save_stock (record stock { stock_qty = add64 stock.stock_qty n }))
          (D.get_stock_by_sku sku w).1
  unfolding add64
  save_adds sku n w stock got d saved = elim (Bool-cases (str_eq sku s)) [
    | inl same ↦
        let (qty, name) = S.get_stock_reads sku w stock got in
        let e : stock.sku ≡ s = name ∙ same_sku sku s same in
        let left : stock_of sku w ≡ stock_of s w = ap (λ k. stock_of k w) (same_sku sku s same) in
        rw (same, sym left, qty)
          (subst
            (λ k.
              stock_of k
                (D.save_stock (record stock { stock_qty = add64 stock.stock_qty n })
                  (D.get_stock_by_sku sku w).1).1
              ≡ wrap64 (stock.stock_qty +ℤ n))
            e
            (S.save_stocks (record stock { stock_qty = add64 stock.stock_qty n }) _
              (wrap64-IsInt64 (stock.stock_qty +ℤ n)) saved))
    | inr other ↦
        let (qty, name) = S.get_stock_reads sku w stock got in
        let differ : stock.sku ≢ s = λ e. other_sku sku s other (sym name ∙ e) in
        rw other (
          kept w _ (
            S.save_others (record stock { stock_qty = add64 stock.stock_qty n }) s _ differ
            ∙ (S.get_stock_keeps sku w).1 s))
  ]

  -- A world that differs from another in no quantity of `s` counts as it.
  from_here :
      (w v u : W) (n : ℤ)
      → stock_of s v ≡ stock_of s w
      → stock_of s u ≡ wrap64 (stock_of s v +ℤ n)
      → stock_of s u ≡ wrap64 (stock_of s w +ℤ n)
  from_here w v u n h e = subst (λ x. stock_of s u ≡ wrap64 (x +ℤ n)) h e

  receive_line-Ends :
      (threshold : ℤ) (name operator i : String) (item : GrLineItem) (count : Count) (w : W)
      → Ends
          (λ _ u.
            stock_of s u
            ≡ wrap64 (stock_of s w +ℤ (if str_eq item.sku s then count.received else pos 0)))
          (receive_line D threshold name operator i item count)
          w
  unfolding receive_line
  receive_line-Ends threshold name operator i item count w =
      let amount : ℤ = if str_eq item.sku s then count.received else pos 0 in
      let Q : GrLineItem → W → Type 0 = λ _ u. stock_of s u ≡ wrap64 (stock_of s w +ℤ amount) in
      >>=-Ends Q _ _ w λ label _.
        let q₁ =
          label_of-Keeps D S (IsAt (stock_of s w)) (IsAt-Framed (stock_of s w)) threshold item
            item.aging_sensitive item.production_date w refl in
        >>=-Ends Q _ _ _ λ _ _.
          let q₂ = (S.line_keeps _ _).1 s ∙ q₁ in
          >>=-Ends Q _ _ _ λ stock got. >>=-Ends Q _ _ _ λ saved h.
            let q₃ = save_adds item.sku count.received _ stock got saved h in
            >>=-Ends Q _ _ _ λ _ _ last done.
              enter_received-Keeps D S (IsAt _) (IsAt-Framed _) name operator i item.sku
                count.received _ (from_here w _ _ amount q₂ q₃)

  abbrev Turned {ℓ} : {A : Type ℓ} → GrLineItem → ℤ → W → A → W → Type 0
  Turned item n w _ u =
      stock_of s u ≡ wrap64 (stock_of s w +ℤ (if str_eq item.sku s then n else pos 0))

  turn-Ends :
      (threshold : ℤ) (name operator i : String) (item : GrLineItem) (count : Option Count) (w : W)
      → Ends
          (λ _ u.
            stock_of s u
            ≡ wrap64 (stock_of s w +ℤ (if str_eq item.sku s then count_of count else pos 0)))
          (turn D threshold name operator i item count)
          w
  unfolding turn
  turn-Ends threshold name operator i item none w = λ c h. elim (Bool-cases (str_eq item.sku s)) [
    | inl same ↦ rw same (kept w w refl)
    | inr other ↦ rw other (kept w w refl)
  ]
  turn-Ends threshold name operator i item (some count) w =
      >>=-Ends (Turned item (count.received) w) _ _ w
        λ line h last done. receive_line-Ends threshold name operator i item count w line h

  -- Two turns of a running total.
  add_on : (a b c n m : ℤ) → b ≡ wrap64 (a +ℤ n) → c ≡ wrap64 (b +ℤ m) → c ≡ wrap64 (a +ℤ (n +ℤ m))
  add_on a b c n m h e =
      let regroup : a +ℤ n +ℤ m ≡ a +ℤ (n +ℤ m) = omega int_laws in
      rw (e, h, wrap64-+ℤ (a +ℤ n) m, regroup)

  receive_lines-Ends :
      (threshold : ℤ) (name operator i : String) (counts : String → Option Count)
      (items : List GrLineItem) (w : W)
      → Ends
          (λ _ u. stock_of s u ≡ wrap64 (stock_of s w +ℤ counted s counts items))
          (receive_lines D threshold name operator i counts items)
          w
  unfolding receive_lines
  receive_lines-Ends threshold name operator i counts [] w = λ c h. kept w w refl
  receive_lines-Ends threshold name operator i counts (item ∷ items) w =
      let Q : List GrLineItem × Bool → W → Type 0 =
        λ _ u. stock_of s u ≡ wrap64 (stock_of s w +ℤ counted s counts (item ∷ items)) in
      >>=-Ends Q _ _ w λ first h.
        let q₁ = turn-Ends threshold name operator i item (counts item.sku) w first h in
        >>=-Ends Q _ _ _ λ rest e last done.
          add_on _ _ _ _ _ q₁ (receive_lines-Ends threshold name operator i counts items _ rest e)

  is_expired-lines :
      (i : String) (e : Option ℤ) (w : W) → S.lines_of i (is_expired D e w).1 ≡ S.lines_of i w
  unfolding is_expired
  is_expired-lines i none w = refl
  is_expired-lines i (some e) w =
      Keeps-then (λ u. S.lines_of i u ≡ S.lines_of i w) D.now _ (λ u h. S.now_lines i u ∙ h)
        (λ t u h. h) w refl

  recount :
      (w u : W) (counts : String → Option Count) (l m : List GrLineItem)
      → l ≡ m
      → stock_of s u ≡ wrap64 (stock_of s w +ℤ counted s counts l)
      → stock_of s u ≡ wrap64 (stock_of s w +ℤ counted s counts m)
  recount w u counts l m e h = rw e at h

  -- A receipt that is processed without an error adds to the stock of each part what was counted
  -- of it, over the lines of the receipt.
  pub process_blind_receipt-stock :
      (threshold : ℤ) (name i operator : String) (counts : String → Option Count) (w : W)
      → (process_blind_receipt D threshold name i operator counts w).0 ≡ ok tt
      → stock_of s (process_blind_receipt D threshold name i operator counts w).1
        ≡ wrap64 (stock_of s w +ℤ counted s counts (S.lines_of i w))
  unfolding process_blind_receipt
  process_blind_receipt-stock threshold name i operator counts w =
      let Q : Done → W → Type 0 =
        λ _ u. stock_of s u ≡ wrap64 (stock_of s w +ℤ counted s counts (S.lines_of i w)) in
      (>>=-Ends Q _ _ w λ gr _.
          let q₁ : stock_of s _ ≡ stock_of s w = rw or_error-state ((S.get_gr_keeps i w).1 s) in
          let l₁ : S.lines_of i _ ≡ S.lines_of i w = rw or_error-state (S.get_gr_lines i i w) in
          ensure-Ends Q _ _ _ _ λ _. >>=-Ends Q _ _ _ λ expired _.
            let q₂ =
              is_expired-Keeps D S (IsAt (stock_of s w)) (IsAt-Framed (stock_of s w))
                gr.lock_expires_at _ q₁ in
            let l₂ = is_expired-lines i gr.lock_expires_at _ ∙ l₁ in
            ensure-Ends Q _ _ _ _ λ _. >>=-Ends Q _ _ _ λ items found.
              let q₃ = (S.lines_keeps i _).1 s ∙ q₂ in
              let l₃ = S.lines_read i _ items found ∙ l₂ in
              >>=-Ends Q _ _ _ λ loop h.
                let q₄ = recount w _ counts items _ l₃ (
                  from_here w _ _ _ q₃
                    (receive_lines-Ends threshold name operator gr.id counts items _ loop h)) in
                >>=-Ends Q _ _ _ λ po _ _ _.
                  let q₅ = (S.get_po_keeps gr.po_ref _).1 s ∙ q₄ in
                  close_receipt-Keeps D S (IsAt _) (IsAt-Framed _) name operator gr loop.0 loop.1 po
                    (λ gr' _ _ _ v h. S.update_stocks gr' s v ∙ h) _ q₅)
        tt
