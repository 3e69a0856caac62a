-- ===== src/Scm/Shipment/Receipt.antt =====
-- scm/internal/service/shipment_service.go, `MarkDelivered`: the receipt that a delivery creates.
use mathlib.Core.List.{append_assoc, append-nil}
use zeus_be.Prelude.{
  ℕ, ◌+◌, ℤ, String, concat, length, Option, none, some, List, [], ◌∷◌, ◌++◌, map, Done, ok,
  attempt-state, or_error, or_error-state, or_error-ok, ◌∙◌, sym, ap, ◌≡◌, ◌≢◌, All, refl, Ends,
  >>=-Ends, ensure-Ends,
}
use zeus_be.Scm.Errors.{not_found}
use zeus_be.Scm.PurchaseOrder.{PoLineItem}
use zeus_be.Scm.GoodsReceipt.{GrLineItem, GoodsReceipt}
use zeus_be.Scm.Shipment.{
  ShipmentDeps, Shipment, mark_delivered, create_receipt, add_receipt_lines, three_digits,
  found_grs,
}

-- The lines of the orders and of the receipts, as `MarkDelivered` relies on them.
pub record ReceiptStore {W R : Type 0} (D : ShipmentDeps W R) : Type 0 where
  pub po_lines_of : String → W → List (PoLineItem R)
  pub gr_lines_of : String → W → List GrLineItem
  pub po_lines_read :
      (ref : String) (w : W) (items : List (PoLineItem R))
      → (D.get_po_line_items ref w).0 ≡ ok items
      → items ≡ po_lines_of ref w
  pub po_lines_get :
      (i ref : String) (w : W) → po_lines_of ref (D.get_shipment_by_id i w).1 ≡ po_lines_of ref w
  pub po_lines_update :
      (x : Shipment) (ref : String) (w : W)
      → po_lines_of ref (D.update_shipment x w).1 ≡ po_lines_of ref w
  pub gr_get : (i g : String) (w : W) → gr_lines_of g (D.get_shipment_by_id i w).1 ≡ gr_lines_of g w
  pub gr_update :
      (x : Shipment) (g : String) (w : W)
      → gr_lines_of g (D.update_shipment x w).1 ≡ gr_lines_of g w
  pub gr_po_lines :
      (ref g : String) (w : W) → gr_lines_of g (D.get_po_line_items ref w).1 ≡ gr_lines_of g w
  pub gr_find :
      (ref g : String) (w : W) → gr_lines_of g (D.find_grs_by_po ref w).1 ≡ gr_lines_of g w
  pub gr_now : (g : String) (w : W) → gr_lines_of g (D.now w).1 ≡ gr_lines_of g w
  pub gr_uuid : (g : String) (w : W) → gr_lines_of g (D.new_uuid w).1 ≡ gr_lines_of g w
  pub gr_create :
      (gr : GoodsReceipt) (g : String) (w : W)
      → gr_lines_of g (D.create_gr gr w).1 ≡ gr_lines_of g w
  -- An id that is made is that of no stored line.
  pub uuid_fresh :
      (id : ℕ) (w : W)
      → (D.new_uuid w).0 ≡ ok id
      → (g : String) → All (λ (line : GrLineItem). line.id ≢ id) (gr_lines_of g (D.new_uuid w).1)
  -- A line is added where no line is stored under its id.
  pub gr_save :
      (item : GrLineItem) (w : W)
      → ((g : String) → All (λ (line : GrLineItem). line.id ≢ item.id) (gr_lines_of g w))
      → (D.save_gr_line_item item w).0 ≡ ok tt
      → gr_lines_of item.gr_id (D.save_gr_line_item item w).1
        ≡ gr_lines_of item.gr_id w ++ item ∷ []

-- What a line says of the order: the part, its name and how many of it were ordered; and what was
-- received of it.
abbrev pub stated : GrLineItem → String × String × ℤ × Option ℤ
stated item = (item.sku, item.name, item.ordered_qty, item.received_qty)

abbrev pub expected : {R : Type 0} → PoLineItem R → String × String × ℤ × Option ℤ
expected item = (item.sku, item.description, item.ordered_qty, none)

map-append : {A B : Type 0} (f : A → B) (xs ys : List A) → map f (xs ++ ys) ≡ map f xs ++ map f ys
map-append f [] ys = refl
map-append f (x ∷ xs) ys = ap (◌∷◌ (f x)) (map-append f xs ys)

module _ {W R : Type 0} (D : ShipmentDeps W R) (S : ReceiptStore D) where
  open S use {po_lines_of, gr_lines_of}

  abbrev stated_of : String → W → List (String × String × ℤ × Option ℤ)
  stated_of g w = map stated (gr_lines_of g w)

  lines-Ends :
      (g : String) (items : List (PoLineItem R)) (w : W)
      → Ends
          (λ _ u. stated_of g u ≡ stated_of g w ++ map expected items)
          (add_receipt_lines D g items)
          w
  unfolding add_receipt_lines
  lines-Ends g [] w = λ d h. sym (append-nil (stated_of g w))
  lines-Ends g (item ∷ items) w =
      let Q : Done → W → Type 0 =
        λ _ u. stated_of g u ≡ stated_of g w ++ map expected (item ∷ items) in
      >>=-Ends Q _ _ w λ id made. >>=-Ends Q _ _ _ λ saved done d h.
        let added = S.gr_save _ _ (S.uuid_fresh id w made) done in
        let q : stated_of g _ ≡ stated_of g w ++ expected item ∷ [] =
          ap (λ l. map stated l) added
          ∙ map-append stated _ _
          ∙ ap (λ l. map stated l ++ expected item ∷ []) (S.gr_uuid g w) in
        lines-Ends g items _ d h
        ∙ ap (λ l. l ++ map expected items) q
        ∙ append_assoc (stated_of g w) (expected item ∷ []) (map expected items)

  -- The number of a receipt.
  abbrev pub receipt_id : String → ℕ → String
  receipt_id po_ref n = concat (concat po_ref "-GR-") (three_digits n)

  abbrev pub IsReceived : String → W → W → Type 0
  IsReceived ref w u =
      (n : ℕ) × (stated_of (receipt_id ref n) u
        ≡ stated_of (receipt_id ref n) w ++ map expected (po_lines_of ref w))

  receipt-Ends :
      (name : String) (shipment : Shipment) (operator : String) (w : W)
      → Ends (λ _ u. IsReceived shipment.po_ref w u) (create_receipt D name shipment operator) w
  unfolding create_receipt
  receipt-Ends name shipment operator w =
      let ref = shipment.po_ref in
      let Q : Done → W → Type 0 = λ _ u. IsReceived ref w u in
      >>=-Ends Q _ _ w λ items got. >>=-Ends Q _ _ _ λ grs _. >>=-Ends Q _ _ _ λ t _.
        >>=-Ends Q _ _ _ λ made _ d h.
          let g = receipt_id ref (length (found_grs D grs) + 1) in
          let e : gr_lines_of g _ ≡ gr_lines_of g w =
            S.gr_create _ g _
            ∙ S.gr_now g _
            ∙ (rw attempt-state (S.gr_find ref g _))
            ∙ S.gr_po_lines ref g w in
          let q = lines-Ends g items _ d h in
          (
            length (found_grs D grs) + 1,
            q
                ∙ ap (λ l. map stated l ++ map expected items) e
                ∙ ap (λ l. stated_of g w ++ map expected l) (S.po_lines_read ref w items got),
          )

  from_then :
      (ref : String) (w v u : W)
      → ((g : String) → gr_lines_of g v ≡ gr_lines_of g w)
      → po_lines_of ref v ≡ po_lines_of ref w
      → IsReceived ref v u
      → IsReceived ref w u
  from_then ref w v u e e' (n, q) =
      let g = receipt_id ref n in
      (
        n,
        q
            ∙ ap (λ l. map stated l ++ map expected (po_lines_of ref v)) (e g)
            ∙ ap (λ l. stated_of g w ++ map expected l) e',
      )

  read_gr :
      (i g : String) (w : W)
      → gr_lines_of g (or_error (D.get_shipment_by_id i) not_found w).1 ≡ gr_lines_of g w
  read_gr i g w =
      ap (gr_lines_of g) (or_error-state (D.get_shipment_by_id i) not_found w) ∙ S.gr_get i g w

  read_po :
      (i ref : String) (w : W)
      → po_lines_of ref (or_error (D.get_shipment_by_id i) not_found w).1 ≡ po_lines_of ref w
  read_po i ref w =
      ap (po_lines_of ref) (or_error-state (D.get_shipment_by_id i) not_found w)
      ∙ S.po_lines_get i ref w

  -- Where the id that is made for a line is that of no stored line: a delivery that is marked without
  -- an error has read a shipment and adds to one receipt of its order, in order, one line for each
  -- line of that order: the part, its name and how many of it were ordered, with nothing received
  -- yet.
  pub mark_delivered-receipt :
      (name i operator : String) (w : W)
      → (mark_delivered D name i operator w).0 ≡ ok tt
      → (shipment : Shipment) × ((D.get_shipment_by_id i w).0 ≡ ok (some shipment))
        × IsReceived shipment.po_ref w (mark_delivered D name i operator w).1
  unfolding mark_delivered
  mark_delivered-receipt name i operator w =
      let Q : Done → W → Type 0 = λ _ u.
        (shipment : Shipment) × ((D.get_shipment_by_id i w).0 ≡ ok (some shipment))
        × IsReceived shipment.po_ref w u in
      (>>=-Ends Q _ _ w λ shipment got. ensure-Ends Q _ _ _ _ λ _. >>=-Ends Q _ _ _ λ _ _ d h. (
        shipment,
        or_error-ok (D.get_shipment_by_id i) not_found w shipment got,
        from_then shipment.po_ref w _ _ (λ g. S.gr_update _ g _ ∙ read_gr i g w)
            (S.po_lines_update _ shipment.po_ref _ ∙ read_po i shipment.po_ref w)
            (receipt-Ends name shipment operator _ d h),
      ))
        tt
