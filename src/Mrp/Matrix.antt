-- ===== src/Mrp/Matrix.antt =====
-- mrp/internal/service/readiness_service.go, the pages and the metrics of the readiness matrix, and
-- mrp/internal/service/demand_service.go, the metrics of the demand and the quantity of an order that
-- is ready to build.
pub mod Pages
pub mod Ready
mod Tests
use zeus_be.Prelude.{
  ℕ, suc, ◌-◌, ◌/◌, leb, ℤ, pos, negsuc, add64, sub64, mul64, wrap64, ltb_ℤ, leb_ℤ, eqb_ℤ, Bool,
  true, false, not, any, ◌&&◌, ◌||◌, ◌==◌, Option, none, some, List, [], ◌∷◌, length, take, drop,
  filter, if◌then◌else◌, Floats,
}
use zeus_be.Mrp.Readiness.{
  ProductionOrderStatus, clear_to_build, shortage, partial, production_eq, BomExplosionResult,
  ReadinessMatrixRow,
}

-- `rows[start:end]`; `none` where Go panics.
slice_rows : List ReadinessMatrixRow → ℤ → ℤ → Option (List ReadinessMatrixRow)
slice_rows rows (pos a) (pos b) =
    if leb a b && leb b (length rows) then some (take (b - a) (drop a rows)) else none
slice_rows rows (pos a) (negsuc b) = none
slice_rows rows (negsuc a) b = none

page_from : List ReadinessMatrixRow → ℤ → ℤ → Option (List ReadinessMatrixRow)
unfolding slice_rows
page_from rows start per_page =
    let len : ℤ = pos (length rows) in
    let end : ℤ = add64 start per_page in
    if leb_ℤ len start then some [] else slice_rows rows start (if ltb_ℤ len end then len else end)

pub paginate_readiness_rows : List ReadinessMatrixRow → ℤ → ℤ → Option (List ReadinessMatrixRow)
unfolding page_from
paginate_readiness_rows [] page per_page = some []
paginate_readiness_rows (row ∷ rows) page per_page =
    page_from (row ∷ rows) (mul64 (sub64 page (pos 1)) per_page) per_page

-- `shortageParts`, a set: each part once.
add_shortage : List ℕ → BomExplosionResult → List ℕ
add_shortage parts result =
    if result.is_shortage && not (any (λ p. p == result.part_id) parts)
    then result.part_id ∷ parts
    else parts

add_shortages : List ℕ → List BomExplosionResult → List ℕ
unfolding add_shortage
add_shortages parts [] = parts
add_shortages parts (result ∷ results) = add_shortages (add_shortage parts result) results

pub shortage_parts : List ℕ → List ReadinessMatrixRow → List ℕ
unfolding add_shortages
shortage_parts parts [] = parts
shortage_parts parts (row ∷ rows) = shortage_parts (add_shortages parts row.deficit_breakdown) rows

pub record ReadinessMetrics (R : Type 0) : Type 0 where
  pub total_open_orders : ℤ
  pub components_in_shortage : ℤ
  pub blocked_orders : ℤ
  pub supply_readiness_rate : R

-- The numbers that a `len` or a count of rows gives fit an `int`.
pub build_readiness_metrics : (F : Floats) → List ReadinessMatrixRow → ReadinessMetrics F.Float
unfolding shortage_parts
build_readiness_metrics F rows =
    let total : ℤ = pos (length rows) in
    let blocked : ℤ =
      pos (length (filter (λ row. not (production_eq row.status clear_to_build)) rows)) in
    record {
      total_open_orders = total;
      components_in_shortage = pos (length (shortage_parts [] rows));
      blocked_orders = blocked;
      supply_readiness_rate =
          if ltb_ℤ (pos 0) total
          then F.mul_f (F.div_f (F.of_int (sub64 total blocked)) (F.of_int total))
              (F.of_int (pos 100))
          else F.zero_f;
    }

-- Go's `/`, which drops the fraction; the divisor is not zero.
pub div64 : ℤ → ℤ → ℤ
div64 (pos a) (pos b) = pos (a / b)
div64 (pos a) (negsuc b) = wrap64 (mul64 (negsuc 0) (pos (a / suc b)))
div64 (negsuc a) (pos b) = wrap64 (mul64 (negsuc 0) (pos (suc a / b)))
div64 (negsuc a) (negsuc b) = wrap64 (pos (suc a / suc b))

-- The loop over the results: the smallest number of units that a part allows.
pub min_build : ℤ → ℤ → List BomExplosionResult → ℤ
unfolding div64
min_build quantity least [] = least
min_build quantity least (result ∷ results) =
    let can : ℤ = div64 (mul64 result.available_qty quantity) result.total_required_qty in
    min_build quantity
      (if eqb_ℤ result.total_required_qty (pos 0)
        then least
        else (if ltb_ℤ can least then can else least))
      results

-- `qtyReady` of `GetDemandSummary`.
pub qty_ready : ReadinessMatrixRow → ℤ
unfolding min_build
qty_ready row =
    let least : ℤ = min_build row.quantity row.quantity row.deficit_breakdown in
    if leb 1 (length row.deficit_breakdown)
    then (if ltb_ℤ least (pos 0) then pos 0 else least)
    else row.quantity

pub record DemandMetrics : Type 0 where
  pub total_demand_orders : ℤ
  pub ready_to_build : ℤ
  pub shortage_or_partial : ℤ
  pub total_units_required : ℤ

pub sum_quantities : ℤ → List ReadinessMatrixRow → ℤ
sum_quantities sum [] = sum
sum_quantities sum (row ∷ rows) = sum_quantities (add64 sum row.quantity) rows

-- `GetDemandMetrics`, of the rows that were loaded.
pub demand_metrics : List ReadinessMatrixRow → DemandMetrics
unfolding sum_quantities
demand_metrics rows = record {
  total_demand_orders = pos (length rows);
  ready_to_build = pos (length (filter (λ row. production_eq row.status clear_to_build) rows));
  shortage_or_partial = pos (
      length (
        filter (λ row. production_eq row.status shortage || production_eq row.status partial)
          rows));
  total_units_required = sum_quantities (pos 0) rows;
}
