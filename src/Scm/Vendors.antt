-- ===== src/Scm/Vendors.antt =====
-- scm/internal/service/vendor_service.go: the suppliers and what they sell, over the repository
-- (vendorServiceRepo), as the server builds it.
pub mod Optimal
mod Tests
use zeus_be.Prelude.{
  ℕ, ◌+◌, ◌==◌, ℤ, pos, ltb_ℤ, eqb_ℤ, add64, String, str_eq, Bool, true, false, Option, none, some,
  List, [], ◌∷◌, if◌then◌else◌, Action, Done, pure, raise, attempt, ensure, or_error, not, ◌>>=◌,
  ◌>>◌, Floats,
}
use zeus_be.Scm.Errors.{ScmError, no_optimal_supplier}
use zeus_be.Scm.GoodsReceipt.{
  GoodsReceipt, GrLineItem, GrStatus, pending, inspected, complete, discrepancy,
}
use zeus_be.Scm.Inventory.{Params, Meta}

-- `models.Supplier` and `models.SkuMapping`, less the times. `tier` is a `SupplierTier`.
pub record SupplierRow (R : Type 0) : Type 0 where
  pub id : ℕ
  pub name : String
  pub contact : String
  pub tier : String
  pub lead_time_days : ℤ
  pub quality_score : R
  pub on_time_rate : R

pub record MappingRow (R : Type 0) : Type 0 where
  pub id : ℕ
  pub supplier_id : ℕ
  pub sku : String
  pub name : String
  pub unit_price : R
  pub lead_time_days : ℤ
  pub min_order_qty : ℤ

-- The columns of `UpdateSupplier`; `updated_at` is set to NULL or left alone.
pub record SupplierUpdate (R : Type 0) : Type 0 where
  pub on_time_rate : R
  pub quality_score : R
  pub clears_updated_at : Bool

pub record DeficitMessage : Type 0 where
  pub sku : String
  pub qty : ℤ
  pub order_id : String

pub record ShortageSummary : Type 0 where
  pub stt : ℤ
  pub sku : String
  pub req_qty : ℤ
  pub best_supplier : String

-- `repository.IVendorRepository`, the pool of deficits, and what of `float64` and `math` is used
-- beyond `Floats`. `peek_pool` dials, peeks and closes.
pub record VendorDeps (W R : Type 0) : Type 0 where
  pub get_supplier_by_id : ℕ → Action W ScmError (SupplierRow R)
  pub find_sku_mappings_by_sku : String → Action W ScmError (List (MappingRow R))
  pub update_supplier : ℕ → SupplierUpdate R → Action W ScmError Done
  pub find_goods_receipts_by_vendor : ℕ → Action W ScmError (List GoodsReceipt)
  pub count_goods_receipts_by_vendor : ℕ → Action W ScmError ℤ
  pub find_gr_line_items : String → Action W ScmError (List GrLineItem)
  pub list_supplier_rows :
      String → Params → String → Action W ScmError (List (SupplierRow R) × Meta)
  pub create_supplier_row : SupplierRow R → Action W ScmError Done
  pub create_mapping_row : MappingRow R → Action W ScmError Done
  pub count_suppliers : Action W ScmError ℤ
  pub average_on_time_rate : Action W ScmError R
  pub all_suppliers_with_mappings : Action W ScmError (List (SupplierRow R))
  pub peek_pool : Action W ScmError (List DeficitMessage)
  pub sub_f : R → R → R
  pub gt_f : R → R → Bool
  pub max_f : R → R → R
  pub round_f : R → R

module _ {W : Type 0} (F : Floats) (D : VendorDeps W F.Float) where
  open F use {Float, add_f, mul_f, div_f, of_int}
  open D use {
    get_supplier_by_id, find_sku_mappings_by_sku, update_supplier, find_goods_receipts_by_vendor,
    count_goods_receipts_by_vendor, find_gr_line_items, list_supplier_rows, create_supplier_row,
    create_mapping_row, count_suppliers, average_on_time_rate, all_suppliers_with_mappings,
    peek_pool, sub_f, gt_f, max_f, round_f,
  }

  -- 0.6 and 0.4 are the nearest to the quotients.
  abbrev pub score : SupplierRow Float → MappingRow Float → Float
  score supplier mapping =
      sub_f
        (add_f (mul_f supplier.quality_score (div_f (of_int (pos 6)) (of_int (pos 10))))
          (mul_f supplier.on_time_rate (div_f (of_int (pos 4)) (of_int (pos 10)))))
        (div_f mapping.unit_price (of_int (pos 10000)))

  -- The best so far, and its score.
  abbrev pub Best : Type 0
  Best = Option (SupplierRow Float × MappingRow Float) × Float

  abbrev pub better : Best → MappingRow Float → Option (SupplierRow Float) → Best
  better best mapping none = best
  better best mapping (some supplier) =
      if gt_f (score supplier mapping) best.1
      then (some (supplier, mapping), score supplier mapping)
      else best

  unfoldable pub best_of : Best → List (MappingRow Float) → Action W ScmError Best
  best_of best [] = pure best
  best_of best (mapping ∷ mappings) = do
    supplier ← attempt (get_supplier_by_id mapping.supplier_id)
    best_of (better best mapping supplier) mappings

  abbrev pub chosen : Best → Action W ScmError (SupplierRow Float × MappingRow Float)
  chosen (none, best_score) = raise no_optimal_supplier
  chosen (some best, best_score) = pure best

  abbrev pub negative_one : Float
  negative_one = sub_f (of_int (pos 0)) (of_int (pos 1))

  abbrev nonempty : List (MappingRow Float) → Option (List (MappingRow Float))
  nonempty [] = none
  nonempty (m ∷ ms) = some (m ∷ ms)

  abbrev mappings_of : String → Action W ScmError (Option (List (MappingRow Float)))
  mappings_of sku = do mappings ← find_sku_mappings_by_sku sku; pure (nonempty mappings)

  unfoldable pub get_optimal_supplier :
      String → Action W ScmError (SupplierRow Float × MappingRow Float)
  unfolding best_of
  get_optimal_supplier sku = do
    mappings ← or_error (mappings_of sku) no_optimal_supplier
    best ← best_of (none, negative_one) mappings
    chosen best

  abbrev is_defective : Option ℤ → Bool
  is_defective none = false
  is_defective (some qty) = ltb_ℤ (pos 0) qty

  -- Each line counts, not each receipt.
  abbrev count_defective : ℤ → List GrLineItem → ℤ
  count_defective n [] = n
  count_defective n (item ∷ items) =
      count_defective (if is_defective item.defective_qty then add64 n (pos 1) else n) items

  abbrev or_no_items : Option (List GrLineItem) → List GrLineItem
  or_no_items none = []
  or_no_items (some items) = items

  abbrev is_complete : GrStatus → Bool
  is_complete complete = true
  is_complete pending = false
  is_complete inspected = false
  is_complete discrepancy = false

  count_receipts : ℤ × ℤ → List GoodsReceipt → Action W ScmError (ℤ × ℤ)
  count_receipts counts [] = pure counts
  count_receipts counts (gr ∷ grs) = do
    items ← attempt (find_gr_line_items gr.id)
    count_receipts
        (
          count_defective counts.0 (or_no_items items),
          if is_complete gr.status then add64 counts.1 (pos 1) else counts.1,
        )
        grs

  abbrev two_places : Float → Float
  two_places x = div_f (round_f (mul_f x (of_int (pos 100)))) (of_int (pos 100))

  abbrev share : ℤ → ℤ → Float
  share part total = div_f (of_int part) (max_f (of_int total) (of_int (pos 1)))

  abbrev recount : ℕ → ℤ → Bool → Action W ScmError Done
  recount supplier_id total true = update_supplier supplier_id (record {
    on_time_rate = of_int (pos 0);
    quality_score = of_int (pos 100);
    clears_updated_at = true;
  })
  recount supplier_id total false = do
    receipts ← find_goods_receipts_by_vendor supplier_id
    counts ← count_receipts (pos 0, pos 0) receipts
    update_supplier supplier_id (record {
      on_time_rate = two_places (mul_f (share counts.1 total) (of_int (pos 100)));
      quality_score =
          two_places (sub_f (of_int (pos 100)) (mul_f (share counts.0 total) (of_int (pos 100))));
      clears_updated_at = false;
    })

  pub update_supplier_metrics : ℕ → Action W ScmError Done
  unfolding count_receipts
  update_supplier_metrics supplier_id = do
    total ← count_goods_receipts_by_vendor supplier_id
    recount supplier_id total (eqb_ℤ total (pos 0))

  pub list_suppliers :
      String → Params → String → Action W ScmError (List (SupplierRow Float) × Meta)
  list_suppliers = list_supplier_rows

  pub create_supplier : SupplierRow Float → Action W ScmError Done
  create_supplier = create_supplier_row

  pub create_sku_mapping : MappingRow Float → Action W ScmError Done
  create_sku_mapping = create_mapping_row

  pub get_supplier_metrics : Action W ScmError (ℤ × Float)
  get_supplier_metrics = do
    count ← count_suppliers
    average ← average_on_time_rate
    pure (count, average)

  pub find_all_suppliers_with_mappings : Action W ScmError (List (SupplierRow Float))
  find_all_suppliers_with_mappings = all_suppliers_with_mappings

  -- The quantity of each SKU, in the order in which the SKUs are met first.
  abbrev add_to : String → ℤ → List (String × ℤ) → List (String × ℤ)
  add_to sku qty [] = (sku, qty) ∷ []
  add_to sku qty ((s, q) ∷ totals) =
      let rest = add_to sku qty totals in
      if str_eq s sku then (s, add64 q qty) ∷ totals else (s, q) ∷ rest

  abbrev pool_totals : List (String × ℤ) → List DeficitMessage → List (String × ℤ)
  pool_totals totals [] = totals
  pool_totals totals (message ∷ messages) =
      pool_totals (add_to message.sku message.qty totals) messages

  abbrev cheapest : MappingRow Float → List (MappingRow Float) → MappingRow Float
  cheapest m [] = m
  cheapest m (n ∷ ns) = cheapest (if gt_f m.unit_price n.unit_price then n else m) ns

  abbrev name_or : Option (SupplierRow Float) → String
  name_or none = "No Supplier Mapping"
  name_or (some supplier) = supplier.name

  abbrev best_name : Option (List (MappingRow Float)) → Action W ScmError String
  best_name none = pure "No Supplier Mapping"
  best_name (some []) = pure "No Supplier Mapping"
  best_name (some (m ∷ ms)) = do
    supplier ← attempt (get_supplier_by_id (cheapest m ms).supplier_id)
    pure (name_or supplier)

  summaries : ℤ → List (String × ℤ) → Action W ScmError (List ShortageSummary)
  summaries idx [] = pure []
  summaries idx ((sku, qty) ∷ totals) = do
    mappings ← attempt (find_sku_mappings_by_sku sku)
    best ← best_name mappings
    rest ← summaries (add64 idx (pos 1)) totals
    pure (record { stt = add64 idx (pos 1); sku = sku; req_qty = qty; best_supplier = best } ∷ rest)

  pub get_shortage_summary : Action W ScmError (List ShortageSummary)
  unfolding summaries
  get_shortage_summary = do messages ← peek_pool; summaries (pos 0) (pool_totals [] messages)
