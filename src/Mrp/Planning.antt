-- ===== src/Mrp/Planning.antt =====
-- mrp/internal/service/production_service.go, PlanProduction, and mrp/internal/consumer/
-- order_consumer.go: sales orders become production orders. The text that `fmt.Errorf` puts before
-- a returned error is left out.
pub mod Plan
pub mod Creation
mod Tests
use Prim.Native.Char.{code}
use Prim.Native.String.{len, ◌∷◌ as char_then, [] as empty}
use zeus_be.Prelude.{
  ℕ, ℤ, pos, ltb_ℤ, leb_ℤ, ltb, leb, String, str_eq, Bool, true, false, not, ◌&&◌, ◌||◌, ◌==◌, List,
  [], ◌∷◌, if◌then◌else◌, Action, Done, Result, ok, err, pure, discard, Option, none, some, ensure,
  ◌>>=◌, ◌>>◌,
}
use zeus_be.Mrp.Errors.{MrpError, message}
use zeus_be.Mrp.Readiness.{
  MrpDeps, ProductionOrder, ProductionOrderStatus, clear_to_build, production_eq, ShortageLog,
  run_bom_explosion, sync_shortages_in_db, derive_readiness_status,
}

-- What `PlanProduction` calls, beside the calls of the readiness check. `create_production_order`
-- takes the order with its times `ScheduledAt` and `CreatedAt`; `del_readiness` is `cache.Del` on
-- the keys of the matrix and of its metrics, `del_readiness_order` on the key of an order.
pub record PlanDeps (W : Type 0) : Type 0 where
  pub readiness : MrpDeps W
  pub now : Action W MrpError ℤ
  pub create_production_order : ProductionOrder → ℤ → ℤ → Action W MrpError Done
  pub del_readiness : Action W MrpError Done
  pub del_readiness_order : ℕ → Action W MrpError Done
  pub publish_audit : ProductionOrder → Action W MrpError Done

pub record CreateProductionOrderRequest : Type 0 where
  pub product_model_code : String
  pub target_quantity : ℤ
  pub scheduled_at : ℤ

pub record ProductionOrderResponse : Type 0 where
  pub id : ℕ
  pub product_model_code : String
  pub target_quantity : ℤ
  pub status : ProductionOrderStatus
  pub shortages : List ShortageLog

-- `[A-Za-z0-9_\-]`
abbrev is_code_char : ℕ → Bool
is_code_char c =
    (leb 65 c && leb c 90)
    || (leb 97 c && leb c 122)
    || (leb 48 c && leb c 57)
    || c == 95
    || c == 45

all_code_chars : String → Bool
all_code_chars empty = true
all_code_chars (char_then c s) = is_code_char (code c) && all_code_chars s

-- `MatchString` of `^[A-Za-z0-9_\-]+$`.
pub valid_code : String → Bool
unfolding all_code_chars
valid_code s = not (str_eq s "") && all_code_chars s

abbrev pub reasonable_length : String → Bool
reasonable_length s = not (len s == 0) && leb (len s) 128

abbrev pub valid_quantity : ℤ → Bool
valid_quantity n = ltb_ℤ (pos 0) n && leb_ℤ n (pos 1000000)

module _ {W : Type 0} (D : PlanDeps W) where
  open D use {
    readiness, now, create_production_order, del_readiness, del_readiness_order, publish_audit,
  }

  pub invalidate_readiness_cache : ℕ → Action W MrpError Done
  invalidate_readiness_cache order_id = do
    discard del_readiness
    if order_id == 0 then pure tt else discard (del_readiness_order order_id)

  pub update_if_short : ℕ → ProductionOrderStatus → Action W MrpError Done
  update_if_short id status =
      if production_eq status clear_to_build
      then pure tt
      else readiness.update_production_order_status id status

  -- The order past its creation: its readiness, its shortages and its status.
  pub check_created : ProductionOrder → Action W MrpError ProductionOrderResponse
  unfolding invalidate_readiness_cache update_if_short
  check_created order = do
    results ← run_bom_explosion readiness order.id
    sync_shortages_in_db readiness order.id results
    update_if_short order.id (derive_readiness_status results)
    invalidate_readiness_cache order.id
    shortages ← readiness.get_shortages order.id
    discard (publish_audit order)
    pure (record {
      id = order.id;
      product_model_code = order.product_model_code;
      target_quantity = order.target_quantity;
      status = derive_readiness_status results;
      shortages = shortages;
    })

  pub plan_production : CreateProductionOrderRequest → Action W MrpError ProductionOrderResponse
  unfolding check_created
  plan_production req = do
    readiness.ctx_err
    ensure (reasonable_length req.product_model_code)
        (message "product_model_code is required and must be reasonable length")
    ensure (valid_code req.product_model_code)
        (message "product_model_code contains invalid characters")
    ensure (valid_quantity req.target_quantity)
        (message "target_quantity must be >0 and <= 1000000")
    id ← readiness.new_uuid
    t ← now
    create_production_order
        (record {
          id = id;
          product_model_code = req.product_model_code;
          target_quantity = req.target_quantity;
          status = clear_to_build;
        })
        req.scheduled_at t
    check_created (record {
      id = id;
      product_model_code = req.product_model_code;
      target_quantity = req.target_quantity;
      status = clear_to_build;
    })

pub record OrderPayloadItem : Type 0 where
  pub sku : String
  pub requested_qty : ℤ
  pub qty : ℤ

-- What the consumer reads of the payload.
pub record OrderCreatedPayload : Type 0 where
  pub order_id : String
  pub required_date : ℤ
  pub items : List OrderPayloadItem

abbrev pub requested_quantity : OrderPayloadItem → ℤ
requested_quantity item = if ltb_ℤ (pos 0) item.requested_qty then item.requested_qty else item.qty

abbrev pub skipped : OrderPayloadItem → Bool
skipped item = str_eq item.sku "" || leb_ℤ (requested_quantity item) (pos 0)

-- How a message is settled: `Ack(false)`, `Nack(false, false)`, `Nack(false, true)`.
pub data Settlement : Type 0 where
  acked discarded requeued : Settlement

module _ {W : Type 0} (D : PlanDeps W) where
  pub process_items : ℤ → List OrderPayloadItem → Action W MrpError Done
  unfolding plan_production
  process_items required_date [] = pure tt
  process_items required_date (item ∷ items) =
      let rest = process_items required_date items in
      if skipped item
      then rest
      else (plan_production D (record {
        product_model_code = item.sku;
        target_quantity = requested_quantity item;
        scheduled_at = required_date;
      })
          >> rest)

  abbrev pub process_order_payload : OrderCreatedPayload → Action W MrpError Done
  process_order_payload payload = process_items payload.required_date payload.items

  abbrev settled : Result MrpError Done × W → Settlement × W
  settled (ok done, w) = (acked, w)
  settled (err e, w) = (requeued, w)

  -- One message of `loop`; none where its body is no JSON of a payload.
  pub on_message : W → (payload : Option OrderCreatedPayload) → Settlement × W
  unfolding process_items
  on_message w none = (discarded, w)
  on_message w (some payload) =
      if str_eq payload.order_id ""
      then (discarded, w)
      else settled (process_order_payload payload w)
