-- ===== src/Mrp/Readiness/Model.antt =====
-- mrp/internal/models: production orders, their bills of materials and what the readiness check
-- finds. `other` is a text that is none of the constants.
use zeus_be.Prelude.{ℕ, ℤ, String, str_eq, Bool, List, ◌==◌}

pub data ProductionOrderStatus : Type 0 where
  planned clear_to_build partial shortage : ProductionOrderStatus
  other : String → ProductionOrderStatus

abbrev production_code : ProductionOrderStatus → ℕ
production_code planned = 0
production_code clear_to_build = 1
production_code partial = 2
production_code shortage = 3
production_code (other s) = 4

abbrev pub production_eq : ProductionOrderStatus → ProductionOrderStatus → Bool
production_eq (other s) (other t) = str_eq s t
production_eq s t = production_code s == production_code t

pub record ProductionOrder : Type 0 where
  pub id : ℕ
  pub product_model_code : String
  pub target_quantity : ℤ
  pub status : ProductionOrderStatus

pub record BomEntry : Type 0 where
  pub id : ℤ
  pub component_part_id : ℕ
  pub required_quantity_per_unit : ℤ

-- What the check reads of a `models.Part`.
pub record Part : Type 0 where
  pub sku : String
  pub stock_qty : ℤ

pub data SupplyStatus : Type 0 where
  draft approved in_transit received partially void : SupplyStatus
  unknown : String → SupplyStatus

pub record SupplyLine : Type 0 where
  pub sku : String
  pub ordered_qty : ℤ
  pub received_qty : ℤ

-- `models.PurchaseOrder`, as the SCM client returns it.
pub record SupplyOrder : Type 0 where
  pub status : SupplyStatus
  pub line_items : List SupplyLine

pub record BomExplosionResult : Type 0 where
  pub part_id : ℕ
  pub component_sku : String
  pub total_required_qty : ℤ
  pub available_qty : ℤ
  pub allocated_qty : ℤ
  pub is_shortage : Bool

pub record ShortageLog : Type 0 where
  pub id : ℕ
  pub production_order_id : ℕ
  pub part_id : ℕ
  pub shortage_qty : ℤ
  pub resolution_status : String

pub record ReadinessMatrixRow : Type 0 where
  pub order_id : ℕ
  pub target_build : String
  pub quantity : ℤ
  pub status : ProductionOrderStatus
  pub deficit_breakdown : List BomExplosionResult
