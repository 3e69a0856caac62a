-- ===== src/System/Audit/Trace.antt =====
-- The ids of a trace in the headers of a message: sales/internal/infrastructure/messaging/
-- rabbitmq_client.go (`Publish`) and scm/internal/infrastructure/messaging/rabbitmq.go
-- (`injectTraceHeaders`) write them, system/internal/consumer/audit_consumer.go and
-- infrastructure/observability/trace.go (`parseTraceparent`) read them.
use Prim.Native.String.{len, char_at, ◌∷◌ as char_then, [] as empty}
use text.Mathlib.TextLemmas.{nil-append, cons-append, append_assoc}
use zeus_be.Prelude.{
  ℕ, suc, eq_iff, ◌==◌, code, String, str_eq, concat, Bool, true, false, not, ◌||◌, Bool-cases, inl,
  inr, Option, none, some, List, [], ◌∷◌, if◌then◌else◌, ◌≡◌, refl, sym, ap, subst, ◌∙◌,
}

-- The headers that carry the ids, each an empty text where it is absent or no text.
pub record Headers : Type 0 where
  pub traceparent : String
  pub trace_id : String
  pub span_id : String

abbrev pub no_headers : Headers
no_headers = record { traceparent = ""; trace_id = ""; span_id = "" }

abbrev pub traceparent_of : String → String → String
traceparent_of trace_id span_id = concat "00-" (concat trace_id (concat "-" (concat span_id "-01")))

-- The headers for the ids of a context, an empty text where it has none; `fresh` is `NewSpanID()`.
pub inject_trace_headers : String → String → String → Headers
inject_trace_headers fresh trace_id span_id =
    if str_eq trace_id ""
    then no_headers
    else let span = if str_eq span_id "" then fresh else span_id in
      record { traceparent = traceparent_of trace_id span; trace_id = trace_id; span_id = span }

-- A character put before the first part.
abbrev before_first : (String → String) → List String → List String
before_first put [] = put "" ∷ []
before_first put (p ∷ ps) = put p ∷ ps

-- `strings.Split(s, "-")`
split_dash : String → List String
split_dash empty = "" ∷ []
split_dash (char_then c s) =
    let parts = split_dash s in
    if code c == 45 then "" ∷ parts else before_first (char_then c) parts

abbrev part_1 : List String → Option String
part_1 (a ∷ b ∷ c ∷ d ∷ []) = if len b == 32 then some b else none
part_1 [] = none
part_1 (a ∷ []) = none
part_1 (a ∷ b ∷ []) = none
part_1 (a ∷ b ∷ c ∷ []) = none
part_1 (a ∷ b ∷ c ∷ d ∷ e ∷ ps) = none

abbrev part_2 : List String → Option String
part_2 (a ∷ b ∷ c ∷ d ∷ []) = if len c == 16 then some c else none
part_2 [] = none
part_2 (a ∷ []) = none
part_2 (a ∷ b ∷ []) = none
part_2 (a ∷ b ∷ c ∷ []) = none
part_2 (a ∷ b ∷ c ∷ d ∷ e ∷ ps) = none

abbrev or_empty : Option String → String
or_empty none = ""
or_empty (some s) = s

pub parse_traceparent : String → String
unfolding split_dash
parse_traceparent header = or_empty (part_1 (split_dash header))

-- What the consumer adds to its context: `WithTraceID` and `WithSpanID`, none where it calls neither.
pub read_trace_id : Headers → Option String
unfolding split_dash
read_trace_id h =
    if not (str_eq h.trace_id "")
    then some h.trace_id
    else if not (str_eq h.traceparent "")
    then part_1 (split_dash h.traceparent)
    else none

pub read_span_id : Headers → Option String
unfolding split_dash
read_span_id h =
    if not (str_eq h.span_id "")
    then some h.span_id
    else if not (str_eq h.traceparent "")
    then part_2 (split_dash h.traceparent)
    else none

abbrev pub has_dash : String → Bool
has_dash empty = false
has_dash (char_then c s) = code c == 45 || has_dash s

split_dash-dash : (t : String) → split_dash (concat "-" t) ≡ "" ∷ split_dash t
unfolding split_dash
split_dash-dash t =
    ap split_dash (cons-append (char_at "-" 0) empty t) ∙ ap (λ x. "" ∷ split_dash x) (nil-append t)

split_dash-append :
    (s t : String) → has_dash s ≡ false → split_dash (concat s (concat "-" t)) ≡ s ∷ split_dash t
unfolding split_dash
split_dash-append empty t h = ap split_dash (nil-append (concat "-" t)) ∙ split_dash-dash t
split_dash-append (char_then c s) t h = elim (Bool-cases (code c == 45)) [
  | inl dash ↦ let clash : true ≡ false = rw dash at h in cc
  | inr other ↦
      let rest : has_dash s ≡ false = rw other at h in
      ap split_dash (cons-append c s (concat "-" t))
      ∙ (rw other (ap (before_first (char_then c)) (split_dash-append s t rest)))
]

-- Ids of the lengths of the standard, without a dash.
abbrev pub IsTraceId : String → Type 0
IsTraceId s = (has_dash s ≡ false) × (len s ≡ 32)

abbrev pub IsSpanId : String → Type 0
IsSpanId s = (has_dash s ≡ false) × (len s ≡ 16)

split-traceparent_of :
    (trace_id span_id : String)
    → has_dash trace_id ≡ false
    → has_dash span_id ≡ false
    → split_dash (traceparent_of trace_id span_id) ≡ "00" ∷ trace_id ∷ span_id ∷ "01" ∷ []
unfolding split_dash
split-traceparent_of trace_id span_id t s =
    let rest = concat trace_id (concat "-" (concat span_id "-01")) in
    ap split_dash (append_assoc "00" "-" rest)
    ∙ split_dash-append "00" rest refl
    ∙ ap (λ ps. "00" ∷ ps) (split_dash-append trace_id (concat span_id "-01") t)
    ∙ ap (λ ps. "00" ∷ trace_id ∷ ps) (split_dash-append span_id "01" s)

not-empty : (s : String) (n : ℕ) → len s ≡ suc n → str_eq s "" ≡ false
not-empty s n h = elim (Bool-cases (str_eq s "")) [
  | inl same ↦
      let short : len s ≡ 0 = ap len ((eq_iff s "").0 same) in
      let clash : 0 ≡ suc n = sym short ∙ h in cc
  | inr other ↦ other
]

traceparent_of-not_empty :
    (trace_id span_id : String)
    → has_dash trace_id ≡ false
    → has_dash span_id ≡ false
    → str_eq (traceparent_of trace_id span_id) "" ≡ false
unfolding split_dash
traceparent_of-not_empty trace_id span_id t s =
    elim (Bool-cases (str_eq (traceparent_of trace_id span_id) "")) [
      | inl same ↦
          let one : "00" ∷ trace_id ∷ span_id ∷ "01" ∷ [] ≡ "" ∷ [] =
            sym (split-traceparent_of trace_id span_id t s)
            ∙ ap split_dash ((eq_iff (traceparent_of trace_id span_id) "").0 same) in
          cc
      | inr other ↦ other
    ]

inject_trace_headers-ids :
    (fresh trace_id span_id : String)
    → str_eq trace_id "" ≡ false
    → str_eq span_id "" ≡ false
    → inject_trace_headers fresh trace_id span_id ≡ record {
      traceparent = traceparent_of trace_id span_id;
      trace_id = trace_id;
      span_id = span_id;
    }
unfolding inject_trace_headers
inject_trace_headers-ids fresh trace_id span_id t s = rw (t, s)

-- The headers with `traceparent` alone.
abbrev pub alone : Headers → Headers
alone h = record { traceparent = h.traceparent; trace_id = ""; span_id = "" }

abbrev pub AllRead : String → String → Headers → Type 0
AllRead trace_id span_id sent =
    (read_trace_id sent ≡ some trace_id)
    × (read_span_id sent ≡ some span_id)
    × (read_trace_id (alone sent) ≡ some trace_id)
    × (read_span_id (alone sent) ≡ some span_id)
    × (parse_traceparent sent.traceparent ≡ trace_id)

all_read :
    (trace_id span_id : String)
    → IsTraceId trace_id
    → IsSpanId span_id
    → AllRead trace_id span_id (record {
      traceparent = traceparent_of trace_id span_id;
      trace_id = trace_id;
      span_id = span_id;
    })
unfolding read_trace_id read_span_id parse_traceparent
all_read trace_id span_id (t, t_len) (s, s_len) =
    let parts = split-traceparent_of trace_id span_id t s in
    let full = traceparent_of-not_empty trace_id span_id t s in
    (
      rw (not-empty trace_id 31 t_len),
      rw (not-empty span_id 15 s_len),
      rw (full, parts, t_len),
      rw (full, parts, s_len),
      rw (parts, t_len),
    )

-- What the senders put into the headers of a message for a trace id of 32 bytes and a span id of 16,
-- both without a dash: the receivers read both again, from their own headers and also from
-- `traceparent` alone, as the middleware of HTTP reads the trace id from it.
pub inject_trace_headers-read :
    (fresh trace_id span_id : String)
    → IsTraceId trace_id
    → IsSpanId span_id
    → AllRead trace_id span_id (inject_trace_headers fresh trace_id span_id)
inject_trace_headers-read fresh trace_id span_id (t, t_len) (s, s_len) =
    subst (AllRead trace_id span_id)
      (sym (
        inject_trace_headers-ids fresh trace_id span_id (not-empty trace_id 31 t_len)
          (not-empty span_id 15 s_len)))
      (all_read trace_id span_id (t, t_len) (s, s_len))
