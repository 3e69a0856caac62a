-- ===== src/Mrp/Planning/Tests.antt =====
-- One order of one computer that is built of one part, and the theorems at it.
use zeus_be.Prelude.{
  Runs, ℕ, ℤ, pos, mul64, add64, sub64, wrap64, ◌-ℤ◌, ◌+ℤ◌, ◌*ℤ◌, str_eq, false, Option, none, some,
  List, [], ◌∷◌, ok, err, is_blank, attempt, discard, or_error, ensure, ◌>>=◌, ◌≡◌, refl,
}
use zeus_be.Mrp.Errors.{failed}
use zeus_be.Mrp.Readiness.{
  MrpDeps, ScmClient, ProductionOrder, shortage, run_bom_explosion, explode_order, explode_bom,
  explode_entries, explode_entry, active_pos, supply_of, allocated_qty_of, sync_shortages_in_db,
  sync_results, sync_result, drop_log, write_log, existing_log, derive_readiness_status,
}
use zeus_be.Mrp.Planning.{
  PlanDeps, CreateProductionOrderRequest, ProductionOrderResponse, valid_code, all_code_chars,
  invalidate_readiness_cache, update_if_short, check_created, plan_production, OrderCreatedPayload,
  process_items, on_message, acked,
}
use zeus_be.Mrp.Planning.Plan.{IsValid, IsChecked, new_order, plan_production-creates}
use zeus_be.Mrp.Planning.Creation.{Planned, on_message-Planned}

-- The orders, as they are stored.
abbrev Db : Type 0
Db = List ProductionOrder

abbrev first : Db → Option ProductionOrder
first [] = none
first (order ∷ orders) = some order

abbrev scm : ScmClient Db
scm = record {
  list_pos = λ code w. (ok [], w);
  get_part_catalog_by_id = λ i w. (ok (some (record { sku = "CPU"; stock_qty = pos 1 })), w);
}

abbrev readiness : MrpDeps Db
readiness = record {
  ctx_err = λ w. (ok tt, w);
  get_production_order = λ i w. (ok (first w), w);
  update_production_order_status = λ i s w. (ok tt, w);
  get_bom = λ code w. (
    ok (record { id = pos 1; component_part_id = 1; required_quantity_per_unit = pos 1 } ∷ []),
    w,
  );
  get_shortages = λ o w. (ok [], w);
  create_shortage_log = λ log w. (ok tt, w);
  update_shortage_log = λ log w. (ok tt, w);
  delete_shortage_log = λ o p w. (ok tt, w);
  scm_client = some scm;
  cached_inventory = λ i w. (err (failed 2), w);
  cache_inventory = λ i q w. (ok tt, w);
  cache_sku = λ i s w. (ok tt, w);
  publish_deficit = λ s q o w. (ok tt, w);
  new_uuid = λ w. (ok 7, w);
  uuid_string = λ i. "7";
}

abbrev memory : PlanDeps Db
memory = record {
  readiness = readiness;
  now = λ w. (ok (pos 5), w);
  create_production_order = λ order scheduled created w. (ok tt, order ∷ w);
  del_readiness = λ w. (ok tt, w);
  del_readiness_order = λ i w. (ok tt, w);
  publish_audit = λ order w. (ok tt, w);
}

abbrev request : CreateProductionOrderRequest
request = record { product_model_code = "PC-1"; target_quantity = pos 2; scheduled_at = pos 9 }

abbrev payload : OrderCreatedPayload
payload = record {
  order_id = "o";
  required_date = pos 9;
  items =
      record { sku = ""; requested_qty = pos 1; qty = pos 1 }
      ∷ record { sku = "PC-1"; requested_qty = pos 2; qty = pos 0 }
      ∷ [];
}

abbrev planned : ProductionOrderResponse
planned = record {
  id = 7;
  product_model_code = "PC-1";
  target_quantity = pos 2;
  status = shortage;
  shortages = [];
}

run_plan : (plan_production memory request []).0 ≡ ok planned
unfolding plan_production check_created update_if_short invalidate_readiness_cache valid_code
    all_code_chars run_bom_explosion explode_order explode_bom explode_entries explode_entry
    active_pos supply_of allocated_qty_of drop_log write_log existing_log mul64 add64 sub64 wrap64
    ◌+ℤ◌ ◌*ℤ◌ ◌-ℤ◌ sync_shortages_in_db sync_results sync_result derive_readiness_status is_blank
    ◌>>=◌ ensure discard attempt or_error
run_plan = refl

run_message : (on_message memory [] (some payload)).0 ≡ acked
unfolding on_message process_items plan_production check_created update_if_short
    invalidate_readiness_cache valid_code all_code_chars run_bom_explosion explode_order explode_bom
    explode_entries explode_entry active_pos supply_of allocated_qty_of drop_log write_log
    existing_log mul64 add64 sub64 wrap64 ◌+ℤ◌ ◌*ℤ◌ ◌-ℤ◌ sync_shortages_in_db sync_results
    sync_result derive_readiness_status is_blank ◌>>=◌ ensure discard attempt or_error
run_message = refl

plan_production-creates_example :
    IsValid request
    × ((id : ℕ) × (t : ℤ) × (w₁ w₂ w₃ w₄ : Db) × Runs readiness.ctx_err [] tt w₁
        × Runs readiness.new_uuid w₁ id w₂
        × Runs memory.now w₂ t w₃
        × Runs
            (memory.create_production_order (new_order memory request id) request.scheduled_at t)
            w₃
            tt
            w₄
        × IsChecked memory
            (new_order memory request id)
            w₄
            planned
            (plan_production memory request []).1)
plan_production-creates_example = plan_production-creates memory request [] planned run_plan

on_message-Planned_example :
    (str_eq payload.order_id "" ≡ false)
    × Planned memory payload.required_date payload.items [] (on_message memory [] (some payload)).1
on_message-Planned_example = on_message-Planned memory payload [] run_message
