-- ===== src/System/Audit/Tests.antt =====
-- Entries of the log in memory, and the theorems at them.
use zeus_be.Prelude.{
  pos, String, str_eq, to_upper, false, Option, none, some, List, [], ◌∷◌, if◌then◌else◌, ok,
  attempt, ensure, ◌>>=◌, ◌≡◌, refl,
}
use zeus_be.System.Audit.{
  AuditDeps, IngestAuditRequest, AuditLog, Local, lift, is_valid, ingest, on_audit_message,
  requeued,
}
use zeus_be.System.Audit.Ingestion.{
  IsWhole, IsStored, on_audit_message-IsStored, on_audit_message-requeued,
}
use zeus_be.System.Audit.Trace.{AllRead, inject_trace_headers, inject_trace_headers-read}

-- The entries, latest first; the table of action types has LOGIN.
abbrev logs : AuditDeps (List AuditLog)
logs = record {
  cached_type_valid = λ name w. (ok false, w);
  warm_types = λ names w. (ok tt, w);
  type_exists = λ name w. (ok (str_eq name "LOGIN"), w);
  all_types = λ w. (ok ("LOGIN" ∷ []), w);
  insert_log = λ log w. (ok tt, log ∷ w);
  query_logs = λ filter page limit w. (ok (w, pos 0), w);
  count_by_action = λ name from to w. (ok (pos 0), w);
  today = λ w. (ok (pos 0), w);
  total_pages = λ rows limit. pos 0;
  upper_rune = λ c. c;
}

abbrev ann_logs_in : IngestAuditRequest
ann_logs_in = record {
  user_id = 3;
  user_email = "ann@zeus";
  action_type = "login";
  target_resource = "system";
  details = "";
  ip_address = "";
  is_security_event = false;
}

abbrev nameless : IngestAuditRequest
nameless = record ann_logs_in { user_email = "" }

abbrev bodies : String → Option IngestAuditRequest
bodies body =
    if str_eq body "ann"
    then some ann_logs_in
    else if str_eq body "nameless"
    then some nameless
    else none

abbrev empty_log : Local (List AuditLog)
empty_log = record { types = []; world = [] }

on_audit_message-IsStored_example :
    (req : IngestAuditRequest) × (bodies "ann" ≡ some req)
    × IsWhole logs req
    × IsStored logs req empty_log
unfolding on_audit_message ingest is_valid lift attempt ensure ◌>>=◌ to_upper
on_audit_message-IsStored_example = on_audit_message-IsStored logs bodies "ann" empty_log refl

nameless-lacks : ¬ IsWhole logs nameless
nameless-lacks (a, b, email, d) = cc

on_audit_message-requeued_example :
    (on_audit_message logs bodies "nameless" empty_log).0 ≡ ok requeued
on_audit_message-requeued_example =
    on_audit_message-requeued logs bodies "nameless" nameless empty_log refl nameless-lacks

inject_trace_headers-read_example :
    AllRead "4bf92f3577b34da6a3ce929d0e0e4736" "00f067aa0ba902b7"
      (inject_trace_headers "" "4bf92f3577b34da6a3ce929d0e0e4736" "00f067aa0ba902b7")
inject_trace_headers-read_example =
    inject_trace_headers-read "" "4bf92f3577b34da6a3ce929d0e0e4736" "00f067aa0ba902b7" (refl, refl)
      (refl, refl)
