-- ===== src/Mrp/Readiness/Tests.antt =====
-- One production order of one computer, built of two parts of which the first alone can be short in
-- this store, and the theorems at it.
use zeus_be.Prelude.{
  ℕ, ℤ, pos, ◌+ℤ◌, mul64, add64, sub64, wrap64, ◌-ℤ◌, ◌*ℤ◌, true, ◌==◌, ◌&&◌, Option, none, some,
  List, [], ◌∷◌, if◌then◌else◌, Action, Done, ok, err, ok-injective, is_blank, attempt, discard,
  ensure, ◌>>=◌, ◌≡◌, ◌≢◌, refl, subst, arith,
}
use zeus_be.Mrp.Errors.{MrpError, failed}
use zeus_be.Mrp.Readiness.{
  MrpDeps, ScmClient, ProductionOrder, shortage, planned, BomExplosionResult, ShortageLog,
  ReadinessMatrixRow, draft, existing_log, run_bom_explosion, explode_order, explode_bom,
  explode_entries, explode_entry, active_pos, supply_of, allocated_qty_of, sync_shortages_in_db,
  sync_results, sync_result, drop_log, write_log, build_readiness_row, build_row,
  derive_readiness_status,
}
use zeus_be.Mrp.Readiness.Store.{MrpStore, Matches}
use zeus_be.Mrp.Readiness.Explosion.{
  Explained, run_bom_explosion-Explained, IsRowOf, build_readiness_row-IsRowOf,
}

-- The shortage of part 1 for order 7.
abbrev Db : Type 0
Db = Option ℤ

abbrev at_one : ℕ → ℕ → Db → Option ℤ
at_one o p w = if o == 7 && p == 1 then w else none

abbrev write : ℕ → ℕ → Option ℤ → Action Db MrpError Done
write o p v w = if o == 7 && p == 1 then (ok tt, v) else (err (failed 1), w)

abbrev log_of : Option ℤ → List ShortageLog
log_of none = []
log_of (some q) =
    record {
      id = 1;
      production_order_id = 7;
      part_id = 1;
      shortage_qty = q;
      resolution_status = "shortage";
    }
    ∷ []

abbrev logs : ℕ → Db → List ShortageLog
logs o w = if o == 7 then log_of w else []

abbrev order : ProductionOrder
order = record { id = 7; product_model_code = "PC"; target_quantity = pos 4; status = planned }

abbrev scm : ScmClient Db
scm = record {
  list_pos = λ code w. (
    ok (
        record {
          status = draft;
          line_items = record { sku = "CPU"; ordered_qty = pos 2; received_qty = pos 0 } ∷ [];
        }
        ∷ []),
    w,
  );
  get_part_catalog_by_id = λ i w. (ok (some (record { sku = "CPU"; stock_qty = pos 1 })), w);
}

abbrev memory : MrpDeps Db
memory = record {
  ctx_err = λ w. (ok tt, w);
  get_production_order = λ i w. (ok (some order), w);
  update_production_order_status = λ i s w. (ok tt, w);
  get_bom = λ code w. (
    ok (record { id = pos 1; component_part_id = 1; required_quantity_per_unit = pos 1 } ∷ []),
    w,
  );
  get_shortages = λ o w. (ok (logs o w), w);
  create_shortage_log =
      λ log w. write log.production_order_id log.part_id (some log.shortage_qty) w;
  update_shortage_log =
      λ log w. write log.production_order_id log.part_id (some log.shortage_qty) w;
  delete_shortage_log = λ o p w. write o p none w;
  scm_client = some scm;
  cached_inventory = λ i w. (err (failed 2), w);
  cache_inventory = λ i n w. (ok tt, w);
  cache_sku = λ i s w. (ok tt, w);
  publish_deficit = λ s n o w. (ok tt, w);
  new_uuid = λ w. (ok 5, w);
  uuid_string = λ i. "00000000-0000-0000-0000-000000000000";
}

logs_match : (o p : ℕ) (w : Db) → Matches o p (at_one o p w) (existing_log p none (logs o w))
unfolding existing_log
logs_match o p none = ground arith
logs_match o p (some q) = ground arith

write_sets :
    (o p : ℕ) (v : Option ℤ) (w : Db) → (write o p v w).0 ≡ ok tt → at_one o p (write o p v w).1 ≡ v
write_sets o p v w h = ground arith

write_others :
    (order part : ℕ) (v : Option ℤ) (o p : ℕ) (w : Db)
    → part ≢ p
    → at_one o p (write order part v w).1 ≡ at_one o p w
write_others order part v o p w h = ground arith

abbrev memory_store : MrpStore memory
memory_store = record {
  shortage_of = at_one;
  logs_read = λ o p w ls h.
      subst (λ l. Matches o p (at_one o p w) (existing_log p none l)) (ok-injective h)
        (logs_match o p w);
  logs_keep = λ i o p w. refl;
  uuid_keeps = λ o p w. refl;
  publish_keeps = λ s n i o p w. refl;
  create_sets = λ log w. write_sets log.production_order_id log.part_id (some log.shortage_qty) w;
  create_others =
      λ log o p w. write_others log.production_order_id log.part_id (some log.shortage_qty) o p w;
  update_sets =
      λ log old w _. write_sets log.production_order_id log.part_id (some log.shortage_qty) w;
  update_others =
      λ log o p w. write_others log.production_order_id log.part_id (some log.shortage_qty) o p w;
  delete_sets = λ o p w. write_sets o p none w;
  delete_others = λ i part o p w. write_others i part none o p w;
}

abbrev result : BomExplosionResult
result = record {
  part_id = 1;
  component_sku = "CPU";
  total_required_qty = pos 4;
  available_qty = pos 1;
  allocated_qty = pos 2;
  is_shortage = true;
}

run_bom_explosion-Explained_example :
    (o : Option ProductionOrder) × ((memory.get_production_order 7 none).0 ≡ ok o)
    × Explained memory o (memory.get_production_order 7 none).1 (result ∷ [])
unfolding run_bom_explosion explode_order explode_bom explode_entries explode_entry active_pos
    supply_of allocated_qty_of ◌>>=◌ ensure attempt discard is_blank mul64 add64 wrap64 ◌+ℤ◌ ◌*ℤ◌
run_bom_explosion-Explained_example = run_bom_explosion-Explained memory 7 none (result ∷ []) refl

abbrev row : ReadinessMatrixRow
row = record {
  order_id = 7;
  target_build = "PC";
  quantity = pos 4;
  status = shortage;
  deficit_breakdown = result ∷ [];
}

build_readiness_row-IsRowOf_example :
    (o : ProductionOrder) × ((memory.get_production_order 7 none).0 ≡ ok (some o))
    × IsRowOf memory o row
unfolding build_readiness_row build_row run_bom_explosion explode_order explode_bom explode_entries
    explode_entry active_pos supply_of allocated_qty_of sync_shortages_in_db sync_results
    sync_result existing_log write_log drop_log derive_readiness_status ◌>>=◌ ensure attempt discard
    is_blank mul64 add64 sub64 wrap64 ◌+ℤ◌ ◌*ℤ◌ ◌-ℤ◌
build_readiness_row-IsRowOf_example = build_readiness_row-IsRowOf memory 7 none row refl
