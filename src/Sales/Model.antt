-- ===== src/Sales/Model.antt =====
-- sales/internal/models: orders and their statuses. A uuid is a number with 0 for `uuid.Nil`, a time
-- a number of nanoseconds, and `R` the type of prices.
use zeus_be.Prelude.{
  ℕ, ℤ, pos, negsuc, String, Option, Bool, str_eq, ◌||◌, false, none, some, if◌then◌else◌,
}

pub record SalesOrderStatus : Type 0 where
  pub id : ℕ
  pub code : String

pub record SalesOrder (R : Type 0) : Type 0 where
  pub id : ℕ
  pub client_id : ℕ
  pub client_name : String
  pub destination_address : String
  pub required_date : ℤ
  pub status_id : ℕ
  pub status : Option SalesOrderStatus
  pub total_value : R
  pub locked : Bool
  pub created_at : ℤ
  pub updated_at : ℤ

pub record SalesOrderItem (R : Type 0) : Type 0 where
  pub id : ℕ
  pub order_id : ℕ
  pub sku : String
  pub requested_qty : ℤ
  pub allocated_qty : ℤ
  pub unit_price : R
  pub created_at : ℤ
  pub updated_at : ℤ

-- `tier` is a `ClientTier`.
pub record Client : Type 0 where
  pub id : ℕ
  pub name : String
  pub tier : String
  pub default_destination_address : String
  pub total_lifetime_orders : ℤ
  pub api_key_prefix : String
  pub api_key_hash : String
  pub created_at : ℤ
  pub updated_at : ℤ

-- `&models.Client{}`, and the zero `time.Time`, the first of January of year 1.
abbrev pub zero_time : ℤ
zero_time = negsuc 62135596799999999999

abbrev pub zero_client : Client
zero_client = record {
  id = 0;
  name = "";
  tier = "";
  default_destination_address = "";
  total_lifetime_orders = pos 0;
  api_key_prefix = "";
  api_key_hash = "";
  created_at = zero_time;
  updated_at = zero_time;
}

-- `CanTransitionTo` on the codes; `none` is a nil status.
pub can_transition_to : Option SalesOrderStatus → Option SalesOrderStatus → Bool
can_transition_to none next = false
can_transition_to (some status) none = false
can_transition_to (some status) (some next) =
    if str_eq status.code "PENDING"
    then str_eq next.code "PROCESSING" || str_eq next.code "CANCELLED"
    else if str_eq status.code "PROCESSING"
    then str_eq next.code "DELIVERING" || str_eq next.code "CANCELLED"
    else if str_eq status.code "DELIVERING"
    then str_eq next.code "COMPLETED"
    else false
