-- ===== src/Scm/GoodsReceipt/Frame.antt =====
-- scm/internal/service/goods_receipt_service.go: the parts of a receipt that touch neither locks nor
-- quantities, and those that keep the locks.
use zeus_be.Prelude.{
  ℤ, String, Bool, true, false, Option, none, some, List, [], ◌∷◌, Done, ◌≡◌, refl, Keeps,
  Keeps-then, Keeps-attempt, Keeps-discard, Keeps-if,
}
use zeus_be.Scm.PurchaseOrder.{PurchaseOrder, PoLineItem}
use zeus_be.Scm.GoodsReceipt.{
  GrDeps, GrLineItem, GoodsReceipt, is_live, is_expired, record_entry, retry_entry, enter_received,
  label_of, update_po_lines, close_receipt,
}
use zeus_be.Scm.GoodsReceipt.Store.{GrStore, Same}

module _ {W R : Type 0} (D : GrDeps W R) (S : GrStore D) where
  open S use {lock_of, stock_of}

  -- Predicates that depend on locks and quantities only.
  abbrev pub Framed {π} : (W → Type π) → Type π
  Framed P = (w u : W) → Same lock_of stock_of w u → P w → P u

  module _ {π} (P : W → Type π) (framed : Framed P) where
    pub now-Keeps : Keeps P D.now
    now-Keeps w h = framed w _ (S.now_keeps w) h

    pub is_expired-Keeps : (e : Option ℤ) → Keeps P (is_expired D e)
    unfolding is_expired
    is_expired-Keeps none = λ w h. h
    is_expired-Keeps (some e) = Keeps-then P D.now _ now-Keeps (λ t w h. h)

    pub is_live-Keeps : (e : Option ℤ) → Keeps P (is_live D e)
    unfolding is_live
    is_live-Keeps none = λ w h. h
    is_live-Keeps (some e) = Keeps-then P D.now _ now-Keeps (λ t w h. h)

    record_entry-Keeps :
        (name sku : String) (qty : ℤ) (operator i : String)
        → Keeps P (record_entry D name sku qty operator i)
    unfolding record_entry
    record_entry-Keeps name sku qty operator i =
        Keeps-then P _ _ (λ w. framed w _ (S.balance_keeps sku w))
          λ previous.
            Keeps-then P _ _ (λ w. framed w _ (S.uuid_keeps w))
              λ id w. framed w _ (S.entry_keeps _ w)

    retry_entry-Keeps :
        (d : Option Done) (sku : String) (qty : ℤ) (operator i : String)
        → Keeps P (retry_entry D d sku qty operator i)
    unfolding retry_entry
    retry_entry-Keeps (some d) sku qty operator i = λ w h. h
    retry_entry-Keeps none sku qty operator i =
        Keeps-discard P _ (record_entry-Keeps "" sku qty operator i)

    pub enter_received-Keeps :
        (name operator i sku : String) (qty : ℤ)
        → Keeps P (enter_received D name operator i sku qty)
    unfolding enter_received
    enter_received-Keeps name operator i sku qty =
        Keeps-if P _ _ _
          (Keeps-then P _ _ (Keeps-attempt P _ (record_entry-Keeps name sku qty operator i))
            λ entry. retry_entry-Keeps entry sku qty operator i)
          (λ w h. h)

    pub label_of-Keeps :
        (threshold : ℤ) (item : GrLineItem) (b : Bool) (d : Option ℤ)
        → Keeps P (label_of D threshold item b d)
    unfolding label_of
    label_of-Keeps threshold item true (some date) = Keeps-then P D.now _ now-Keeps (λ t w h. h)
    label_of-Keeps threshold item true none = λ w h. h
    label_of-Keeps threshold item false d = λ w h. h

    pub update_po_lines-Keeps :
        (items : List GrLineItem) (lines : List (PoLineItem R))
        → Keeps P (update_po_lines D items lines)
    unfolding update_po_lines
    update_po_lines-Keeps items [] = λ w h. h
    update_po_lines-Keeps items (line ∷ lines) =
        Keeps-then P _ _
          (Keeps-if P _ _ _ (Keeps-discard P _ (λ w. framed w _ (S.po_line_keeps _ w))) (λ w h. h))
          λ _. Keeps-then P _ _ (update_po_lines-Keeps items lines) (λ rest w h. h)

    -- The end of a receipt, where the update of its row keeps the predicate.
    pub close_receipt-Keeps :
        (name operator : String) (gr : GoodsReceipt) (items : List GrLineItem) (b : Bool)
        (po : Option (PurchaseOrder R))
        → ((gr' : GoodsReceipt)
            → gr'.id ≡ gr.id
            → gr'.locked_by ≡ gr.locked_by
            → gr'.lock_expires_at ≡ gr.lock_expires_at
            → Keeps P (D.update_gr gr'))
        → Keeps P (close_receipt D name operator gr items b po)
    unfolding close_receipt
    close_receipt-Keeps name operator gr items b none update = λ w h. h
    close_receipt-Keeps name operator gr items b (some po) update =
        Keeps-then P _ _ (Keeps-attempt P _ (λ w. framed w _ (S.po_lines_keeps po.id w))) λ lines.
          Keeps-then P _ _ (update_po_lines-Keeps items _) λ updated.
            Keeps-then P _ _ (update _ (refl) (refl) (refl)) λ _.
              Keeps-then P _ _ (Keeps-attempt P _ (λ w. framed w _ (S.count_keeps po.id w)))
                λ n. Keeps-if P _ _ _ (λ w. framed w _ (S.po_keeps _ w)) (λ w h. h)
