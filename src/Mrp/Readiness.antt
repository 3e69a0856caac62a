-- ===== src/Mrp/Readiness.antt =====
-- mrp/internal/service/readiness_service.go: the explosion of a bill of materials, the row of the
-- readiness matrix and the shortage logs that it keeps, over the repository, the SCM client, the
-- cache and the publisher.
mod Model
pub mod Store
pub mod Sync
pub mod Supply
pub mod Explosion
mod Tests
pub use Model.*
use Prim.Native.String.{slice}
use zeus_be.Prelude.{
  ℕ, ℤ, pos, add64, sub64, mul64, ltb_ℤ, leb_ℤ, eqb_ℤ, String, str_eq, concat, decimal, is_blank,
  Bool, true, false, not, ◌||◌, ◌==◌, Option, none, some, List, [], ◌∷◌, length, if◌then◌else◌,
  Action, Done, pure, raise, discard, attempt, or_error, ensure, ◌>>=◌, ◌>>◌,
}
use zeus_be.Mrp.Errors.{MrpError, message}
use Model.{
  ProductionOrderStatus, clear_to_build, shortage, production_eq, ProductionOrder, BomEntry, Part,
  SupplyStatus, draft, approved, in_transit, received, partially, void, unknown, SupplyLine,
  SupplyOrder, BomExplosionResult, ShortageLog, ReadinessMatrixRow,
}

-- `scmClient`.
pub record ScmClient (W : Type 0) : Type 0 where
  pub list_pos : String → Action W MrpError (List SupplyOrder)
  pub get_part_catalog_by_id : ℕ → Action W MrpError (Option Part)

-- The fields of `ProductionService`, whose cache and publisher are not nil; `ctx.Err()`, `uuid.New`
-- and the text of a uuid. `get_bom` is `GetBOMByModelCode` of the cache.
pub record MrpDeps (W : Type 0) : Type 0 where
  pub ctx_err : Action W MrpError Done
  pub get_production_order : ℕ → Action W MrpError (Option ProductionOrder)
  pub update_production_order_status : ℕ → ProductionOrderStatus → Action W MrpError Done
  pub get_bom : String → Action W MrpError (List BomEntry)
  pub get_shortages : ℕ → Action W MrpError (List ShortageLog)
  pub create_shortage_log : ShortageLog → Action W MrpError Done
  pub update_shortage_log : ShortageLog → Action W MrpError Done
  pub delete_shortage_log : ℕ → ℕ → Action W MrpError Done
  pub scm_client : Option (ScmClient W)
  pub cached_inventory : ℕ → Action W MrpError ℤ
  pub cache_inventory : ℕ → ℤ → Action W MrpError Done
  pub cache_sku : ℕ → String → Action W MrpError Done
  -- `DeficitPoolQueue`, with the SKU, the quantity and the order
  pub publish_deficit : String → ℤ → ℕ → Action W MrpError Done
  pub new_uuid : Action W MrpError ℕ
  pub uuid_string : ℕ → String

-- What an order adds to the quantity of a part that is on its way.
allocated_line : SupplyStatus → String → ℤ → SupplyLine → ℤ
allocated_line partially sku sum line =
    let remaining = sub64 line.ordered_qty line.received_qty in
    if str_eq line.sku sku
    then (if ltb_ℤ (pos 0) remaining then add64 sum remaining else sum)
    else sum
allocated_line status sku sum line = if str_eq line.sku sku then add64 sum line.ordered_qty else sum

allocated_lines : SupplyStatus → String → ℤ → List SupplyLine → ℤ
unfolding allocated_line
allocated_lines status sku sum [] = sum
allocated_lines status sku sum (line ∷ lines) =
    allocated_lines status sku (allocated_line status sku sum line) lines

abbrev is_active : SupplyStatus → Bool
is_active draft = true
is_active approved = true
is_active in_transit = true
is_active partially = true
is_active received = false
is_active void = false
is_active (unknown s) = false

unfoldable pub allocated_qty_of : String → ℤ → List SupplyOrder → ℤ
unfolding allocated_lines
allocated_qty_of sku sum [] = sum
allocated_qty_of sku sum (po ∷ orders) =
    allocated_qty_of sku
      (if is_active po.status then allocated_lines po.status sku sum po.line_items else sum) orders

-- `existingMap` at one part: the last log of it.
unfoldable pub existing_log : ℕ → Option ShortageLog → List ShortageLog → Option ShortageLog
existing_log part found [] = found
existing_log part found (log ∷ logs) =
    existing_log part (if log.part_id == part then some log else found) logs

-- What a result leaves to be bought.
abbrev pub shortage_qty_of : BomExplosionResult → ℤ
shortage_qty_of result =
    sub64 result.total_required_qty (add64 result.available_qty result.allocated_qty)

unfoldable pub derive_readiness_status : List BomExplosionResult → ProductionOrderStatus
derive_readiness_status [] = clear_to_build
derive_readiness_status (result ∷ results) =
    if result.is_shortage then shortage else derive_readiness_status results

module _ {W : Type 0} (D : MrpDeps W) where
  open D use {
    ctx_err, get_production_order, update_production_order_status, get_bom, get_shortages,
    create_shortage_log, update_shortage_log, delete_shortage_log, scm_client, cached_inventory,
    cache_inventory, cache_sku, publish_deficit, new_uuid, uuid_string,
  }

  abbrev list_or_none : {A : Type 0} → Option (List A) → List A
  list_or_none none = []
  list_or_none (some xs) = xs

  unfoldable pub active_pos : Option (ScmClient W) → String → Action W MrpError (List SupplyOrder)
  active_pos none code = pure []
  active_pos (some scm) code = do orders ← attempt (scm.list_pos code); pure (list_or_none orders)

  -- The part with its SKU, where there is one that is not blank.
  abbrev usable : Option Part → Option Part
  usable none = none
  usable (some part) = if is_blank part.sku then none else some part

  abbrev must : {A : Type 0} → Option A → MrpError → Action W MrpError A
  must none e = raise e
  must (some a) e = pure a

  -- `getPartInventory` where there is no SCM client: what is cached, or zero, which is then cached.
  part_inventory : ℕ → Option ℤ → Action W MrpError ℤ
  part_inventory part_id (some qty) = pure qty
  part_inventory part_id none = do discard (cache_inventory part_id (pos 0)); pure (pos 0)

  -- The quantity at hand of a component, and its SKU.
  unfoldable pub supply_of : Option (ScmClient W) → ℕ → Action W MrpError (ℤ × String)
  unfolding part_inventory
  supply_of (some scm) part_id = do
    found ← scm.get_part_catalog_by_id part_id
    part ←
        must (usable found)
          (message (concat (concat "component part " (uuid_string part_id)) " not found"))
    discard (cache_inventory part_id part.stock_qty)
    discard (cache_sku part_id part.sku)
    pure (part.stock_qty, part.sku)
  supply_of none part_id = do
    ensure (not (part_id == 0)) (message "partID must not be nil")
    cached ← attempt (cached_inventory part_id)
    qty ← part_inventory part_id cached
    pure (qty, uuid_string part_id)

  -- One turn of the loop over the bill of materials.
  unfoldable pub explode_entry :
      ProductionOrder → List SupplyOrder → BomEntry → Action W MrpError BomExplosionResult
  unfolding supply_of allocated_qty_of
  explode_entry order orders entry = do
    let required : ℤ = mul64 entry.required_quantity_per_unit order.target_quantity
    ensure (ltb_ℤ (pos 0) required)
        (message (concat (concat "bom entry " (decimal entry.id)) " has invalid required quantity"))
    supply ← supply_of scm_client entry.component_part_id
    let allocated : ℤ = allocated_qty_of supply.1 (pos 0) orders
    pure (record {
      part_id = entry.component_part_id;
      component_sku = supply.1;
      total_required_qty = required;
      available_qty = supply.0;
      allocated_qty = allocated;
      is_shortage = ltb_ℤ (add64 supply.0 allocated) required;
    })

  unfoldable pub explode_entries :
      ProductionOrder
      → List SupplyOrder
      → List BomEntry
      → Action W MrpError (List BomExplosionResult)
  unfolding explode_entry
  explode_entries order orders [] = pure []
  explode_entries order orders (entry ∷ entries) = do
    result ← explode_entry order orders entry
    results ← explode_entries order orders entries
    pure (result ∷ results)

  -- The orders are read only where the bill has entries.
  unfoldable pub explode_bom :
      ProductionOrder → List BomEntry → Action W MrpError (List BomExplosionResult)
  unfolding explode_entries active_pos
  explode_bom order [] = pure []
  explode_bom order (entry ∷ entries) = do
    orders ← active_pos scm_client order.product_model_code
    explode_entries order orders (entry ∷ entries)

  unfoldable pub explode_order :
      Option ProductionOrder → Action W MrpError (List BomExplosionResult)
  unfolding explode_bom
  explode_order none = pure []
  explode_order (some order) = do
    entries ← get_bom order.product_model_code
    explode_bom order entries

  unfoldable pub run_bom_explosion : ℕ → Action W MrpError (List BomExplosionResult)
  unfolding explode_order
  run_bom_explosion order_id = do
    ctx_err
    ensure (not (order_id == 0)) (message "orderID must not be nil")
    order ← get_production_order order_id
    explode_order order

  unfoldable pub drop_log : ℕ → ℕ → Option ShortageLog → Action W MrpError Done
  drop_log order_id part none = pure tt
  drop_log order_id part (some log) = delete_shortage_log order_id part

  abbrev sku_or_part : BomExplosionResult → String
  sku_or_part result =
      if str_eq result.component_sku ""
      then concat "PART-" (slice (uuid_string result.part_id) 0 8)
      else result.component_sku

  -- A shortage of `qty`, which is positive.
  unfoldable pub write_log :
      ℕ → BomExplosionResult → ℤ → Option ShortageLog → Action W MrpError Done
  write_log order_id result qty (some log) =
      if eqb_ℤ log.shortage_qty qty
      then pure tt
      else update_shortage_log (record log { shortage_qty = qty; resolution_status = "shortage" })
  write_log order_id result qty none = do
    id ← new_uuid
    create_shortage_log (record {
      id = id;
      production_order_id = order_id;
      part_id = result.part_id;
      shortage_qty = qty;
      resolution_status = "shortage";
    })
    discard (publish_deficit (sku_or_part result) qty order_id)

  unfoldable pub sync_result : ℕ → List ShortageLog → BomExplosionResult → Action W MrpError Done
  unfolding existing_log drop_log write_log
  sync_result order_id logs result =
      if result.is_shortage
      then (if leb_ℤ (shortage_qty_of result) (pos 0)
          then drop_log order_id result.part_id (existing_log result.part_id none logs)
          else write_log order_id result (shortage_qty_of result)
              (existing_log result.part_id none logs))
      else drop_log order_id result.part_id (existing_log result.part_id none logs)

  unfoldable pub sync_results :
      ℕ → List ShortageLog → List BomExplosionResult → Action W MrpError Done
  unfolding sync_result
  sync_results order_id logs [] = pure tt
  sync_results order_id logs (result ∷ results) = do
    sync_result order_id logs result
    sync_results order_id logs results

  unfoldable pub sync_shortages_in_db : ℕ → List BomExplosionResult → Action W MrpError Done
  unfolding sync_results
  sync_shortages_in_db order_id results = do
    logs ← get_shortages order_id
    sync_results order_id logs results

  pub build_row : Option ProductionOrder → ℕ → Action W MrpError (Option ReadinessMatrixRow)
  unfolding run_bom_explosion sync_shortages_in_db derive_readiness_status
  build_row none order_id = pure none
  build_row (some order) order_id = do
    results ← run_bom_explosion order_id
    let status : ProductionOrderStatus = derive_readiness_status results
    if production_eq status order.status
        then pure tt
        else update_production_order_status order.id status
    sync_shortages_in_db order.id results
    pure (
        some (record {
          order_id = order.id;
          target_build = order.product_model_code;
          quantity = order.target_quantity;
          status = status;
          deficit_breakdown = results;
        }))

  pub build_readiness_row : ℕ → Action W MrpError (Option ReadinessMatrixRow)
  unfolding build_row
  build_readiness_row order_id = do order ← get_production_order order_id; build_row order order_id
