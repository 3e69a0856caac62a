-- ===== src/Scm/Vendors/Tests.antt =====
-- Two suppliers of a part, and the theorem at them.
use zeus_be.Prelude.{
  ℕ, ◌+◌, ◌-◌, ◌*◌, ◌==◌, ltb, pos, pos_part, true, false, Option, none, some, List, [], ◌∷◌, All,
  if◌then◌else◌, Result, ok, err, attempt, or_error, ◌>>=◌, Floats, ◌≡◌, refl, arith,
}
use zeus_be.Scm.Errors.{ScmError, not_found}
use zeus_be.Scm.Vendors.{VendorDeps, SupplierRow, MappingRow, score, best_of, get_optimal_supplier}
use zeus_be.Scm.Vendors.Optimal.{Ordered, Table, Among, NotAbove, get_optimal_supplier-best}

-- Whole numbers, of which a quotient is the first.
abbrev whole : Floats
whole = record {
  Float = ℕ;
  zero_f = 0;
  add_f = ◌+◌;
  mul_f = ◌*◌;
  div_f = λ a b. a;
  of_int = pos_part;
}

abbrev supplier_row : ℕ → ℕ → SupplierRow ℕ
supplier_row id quality = record {
  id = id;
  name = "S";
  contact = "";
  tier = "Tier 1";
  lead_time_days = pos 1;
  quality_score = quality;
  on_time_rate = 1;
}

abbrev mapping_row : ℕ → ℕ → MappingRow ℕ
mapping_row supplier_id price = record {
  id = supplier_id;
  supplier_id = supplier_id;
  sku = "B-4";
  name = "bolt";
  unit_price = price;
  lead_time_days = pos 1;
  min_order_qty = pos 1;
}

abbrev reads_row : ℕ → Result ScmError (SupplierRow ℕ)
reads_row i =
    if i == 1
    then ok (supplier_row 1 50)
    else if i == 2
    then ok (supplier_row 2 90)
    else err not_found

abbrev row_or_none : ℕ → Option (SupplierRow ℕ)
row_or_none i =
    if i == 1 then some (supplier_row 1 50) else if i == 2 then some (supplier_row 2 90) else none

abbrev three_mappings : List (MappingRow ℕ)
three_mappings = mapping_row 1 5 ∷ mapping_row 2 7 ∷ mapping_row 3 1 ∷ []

abbrev market : VendorDeps Unit ℕ
market = record {
  get_supplier_by_id = λ i w. (reads_row i, w);
  find_sku_mappings_by_sku = λ sku w. (ok three_mappings, w);
  update_supplier = λ i update w. (ok tt, w);
  find_goods_receipts_by_vendor = λ i w. (ok [], w);
  count_goods_receipts_by_vendor = λ i w. (ok (pos 0), w);
  find_gr_line_items = λ i w. (ok [], w);
  list_supplier_rows = λ tier params q w. (err not_found, w);
  create_supplier_row = λ s w. (ok tt, w);
  create_mapping_row = λ m w. (ok tt, w);
  count_suppliers = λ w. (ok (pos 2), w);
  average_on_time_rate = λ w. (ok 1, w);
  all_suppliers_with_mappings = λ w. (ok [], w);
  peek_pool = λ w. (ok [], w);
  sub_f = ◌-◌;
  gt_f = λ a b. ltb b a;
  max_f = λ a b. a;
  round_f = λ a. a;
}

ltb-irreflexive : (x : ℕ) → ltb x x ≡ false
ltb-irreflexive x = ground arith

ltb-transitive : (x y z : ℕ) → ltb y x ≡ true → ltb z y ≡ true → ltb z x ≡ true
ltb-transitive x y z h k = ground (arith, h, k)

abbrev numbers : Ordered whole market
numbers = record {
  irreflexive = λ x. ltb-irreflexive x;
  transitive = λ x y z h k. ltb-transitive x y z h k;
}

row-reads : (i : ℕ) → (attempt (market.get_supplier_by_id i) tt).0 ≡ ok (row_or_none i)
unfolding attempt
row-reads i = ground arith

abbrev table : Table whole market
table = record { supplier_of = row_or_none; reads = λ i w. row-reads i }

get_optimal_supplier-best_example :
    (ms : List (MappingRow ℕ)) × ((market.find_sku_mappings_by_sku "B-4" tt).0 ≡ ok ms)
    × Among whole market (mapping_row 2 7) ms
    × (row_or_none 2 ≡ some (supplier_row 2 90))
    × All
        (NotAbove whole market numbers table
          (score whole market (supplier_row 2 90) (mapping_row 2 7)))
        ms
unfolding get_optimal_supplier best_of or_error attempt ◌>>=◌
get_optimal_supplier-best_example =
    get_optimal_supplier-best whole market numbers table "B-4" tt
      (supplier_row 2 90, mapping_row 2 7) refl
