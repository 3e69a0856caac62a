-- ===== src/System/Audit.antt =====
-- system/internal/service/audit_service.go and action_type_service.go, and
-- consumer/audit_consumer.go: the log of what users do. The two ids of a trace are in Trace.
pub mod Trace
mod Types
pub mod Ingestion
mod Tests
use zeus_be.Prelude.{
  ℕ, ◌==◌, ℤ, pos, ◌+ℤ◌, add64, ltb_ℤ, String, str_eq, Char, to_upper, Bool, true, false, not, ◌||◌,
  Option, none, some, List, [], ◌∷◌, if◌then◌else◌, Result, ok, err, Action, Done, pure, raise,
  attempt, ensure, ◌>>=◌, ◌>>◌,
}
use zeus_be.System.Errors.{SystemError, invalid_input}

pub record AuditLog : Type 0 where
  pub user_id : ℕ
  pub user_email : String
  pub action_type : String
  pub target_resource : String
  pub details : String
  pub ip_address : String
  pub is_security_event : Bool

pub record IngestAuditRequest : Type 0 where
  pub user_id : ℕ
  pub user_email : String
  pub action_type : String
  pub target_resource : String
  pub details : String
  pub ip_address : String
  pub is_security_event : Bool

pub record AuditFilter : Type 0 where
  pub action_type : Option String
  pub user_id : Option ℕ
  pub start_date : Option ℤ
  pub end_date : Option ℤ
  pub limit : ℤ
  pub offset : ℤ

pub record AuditMetrics : Type 0 where
  pub logins_today : ℤ
  pub security_events : ℤ
  pub modification_velocity : ℤ

pub record AuditPage : Type 0 where
  pub page : ℤ
  pub limit : ℤ
  pub total_rows : ℤ
  pub total_pages : ℤ

-- What the two services call. `today` is `time.Now().Truncate(24 * time.Hour)`, `total_pages` the
-- ceiling of a quotient of floats.
pub record AuditDeps (W : Type 0) : Type 0 where
  pub cached_type_valid : String → Action W SystemError Bool
  pub warm_types : List String → Action W SystemError Done
  pub type_exists : String → Action W SystemError Bool
  pub all_types : Action W SystemError (List String)
  pub insert_log : AuditLog → Action W SystemError Done
  pub query_logs : AuditFilter → ℤ → ℤ → Action W SystemError (List AuditLog × ℤ)
  pub count_by_action : String → ℤ → ℤ → Action W SystemError ℤ
  pub today : Action W SystemError ℤ
  pub total_pages : ℤ → ℤ → ℤ
  pub upper_rune : Char → Char

-- The world, with the map that the service of action types keeps.
pub record Local (W : Type 0) : Type 0 where
  pub types : List (String × Bool)
  pub world : W

abbrev pub type_in : String → List (String × Bool) → Option Bool
type_in name [] = none
type_in name ((k, b) ∷ ps) = if str_eq k name then some b else type_in name ps

abbrev pub all_true : List String → List (String × Bool)
all_true [] = []
all_true (name ∷ names) = (name, true) ∷ all_true names

module _ {W : Type 0} where
  abbrev around :
      {A : Type 0}
      → List (String × Bool)
      → Result SystemError A × W
      → Result SystemError A × Local W
  around types (r, w) = (r, record { types = types; world = w })

  -- A call that leaves the map alone.
  unfoldable pub lift : {A : Type 0} → Action W SystemError A → Action (Local W) SystemError A
  lift m l = around l.types (m l.world)

  abbrev pub remember : String → Action (Local W) SystemError Done
  remember name l = (ok tt, record l { types = (name, true) ∷ l.types })

  abbrev pub remember_all : List String → Action (Local W) SystemError Done
  remember_all names l = (ok tt, record l { types = all_true names })

module _ {W : Type 0} (D : AuditDeps W) where
  open D use {
    cached_type_valid, warm_types, type_exists, all_types, insert_log, query_logs, count_by_action,
    today, total_pages, upper_rune,
  }

  abbrev if_exists : String → Bool → Action (Local W) SystemError Bool
  if_exists name true = remember name >> pure true
  if_exists name false = pure false

  abbrev or_exists : String → Option Bool → Action (Local W) SystemError Bool
  or_exists name (some true) = remember name >> pure true
  or_exists name (some false) = lift (type_exists name) >>= if_exists name
  or_exists name none = lift (type_exists name) >>= if_exists name

  abbrev or_asked : String → Option Bool → Action (Local W) SystemError Bool
  or_asked name (some valid) = pure valid
  or_asked name none = do cached ← attempt (lift (cached_type_valid name)); or_exists name cached

  unfoldable pub is_valid : String → Action (Local W) SystemError Bool
  is_valid name l = or_asked name (type_in name l.types) l

  unfoldable pub warm_cache : Action (Local W) SystemError Done
  warm_cache = do names ← lift all_types; remember_all names; lift (warm_types names)

  abbrev pub log_of : IngestAuditRequest → AuditLog
  log_of req = record {
    user_id = req.user_id;
    user_email = req.user_email;
    action_type = to_upper upper_rune req.action_type;
    target_resource = req.target_resource;
    details = req.details;
    ip_address = req.ip_address;
    is_security_event =
        req.is_security_event || str_eq (to_upper upper_rune req.action_type) "SECURITY";
  }

  unfoldable pub ingest : IngestAuditRequest → Action (Local W) SystemError Done
  unfolding is_valid
  ingest req = do
    ensure (not (str_eq req.action_type "")) invalid_input
    valid ← is_valid (to_upper upper_rune req.action_type)
    ensure valid invalid_input
    ensure (not (req.user_id == 0)) invalid_input
    ensure (not (str_eq req.user_email "")) invalid_input
    ensure (not (str_eq req.target_resource "")) invalid_input
    lift (insert_log (log_of req))

  pub query : AuditFilter → ℤ → ℤ → Action W SystemError (List AuditLog × AuditPage)
  query filter page limit = do
    found ← query_logs filter page limit
    let page' = if ltb_ℤ page (pos 1) then pos 1 else page
    let limit' = if ltb_ℤ limit (pos 1) || ltb_ℤ (pos 100) limit then pos 15 else limit
    pure (
      found.0,
      record {
        page = page';
        limit = limit';
        total_rows = found.1;
        total_pages = total_pages found.1 limit';
      },
    )

  pub get_audit_metrics : Action W SystemError AuditMetrics
  get_audit_metrics = do
    day ← today
    let next = day +ℤ pos 86400000000000
    logins ← count_by_action "LOGIN" day next
    security ← count_by_action "SECURITY" day next
    updates ← count_by_action "UPDATE" day next
    deletes ← count_by_action "DELETE" day next
    pure (record {
      logins_today = logins;
      security_events = security;
      modification_velocity = add64 updates deletes;
    })

-- How a message is answered: `Ack`, `Nack` without and with putting it back.
pub data Answer : Type 0 where
  acked dropped requeued : Answer

module _ {W : Type 0} (D : AuditDeps W) (decode : String → Option IngestAuditRequest) where
  abbrev answered : Option Done → Answer
  answered (some done) = acked
  answered none = requeued

  abbrev ingested : Option IngestAuditRequest → Action (Local W) SystemError Answer
  ingested none = pure dropped
  ingested (some req) = do done ← attempt (ingest D req); pure (answered done)

  -- The body of a message; `decode` is `json.Unmarshal`.
  unfoldable pub on_audit_message : String → Action (Local W) SystemError Answer
  on_audit_message body = ingested (decode body)
