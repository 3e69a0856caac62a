-- ===== src/System/Audit/Ingestion.antt =====
-- system/internal/service/audit_service.go, `Ingest`, and consumer/audit_consumer.go: which messages
-- become entries.
use zeus_be.Prelude.{
  not-true, ◌==◌, String, str_eq, to_upper, true, false, not, inl, inr, Option, none, some, ok,
  Done, attempt, attempt-some, Bool, ◌↔◌, ◌||◌, arith, eq_iff, attempt_total, ensure-ok, >>=-ok,
  >>=-run, ok-injective, pure, ◌≡◌, ◌⊎◌, refl, ap, ◌∙◌, subst,
}
use zeus_be.System.Audit.Types.{IsType, is_valid-IsType, lift-ok}
use zeus_be.System.Audit.{
  AuditDeps, IngestAuditRequest, Local, is_valid, log_of, ingest, acked, dropped, requeued,
  answered, ingested, on_audit_message,
}

module _ {W : Type 0} (D : AuditDeps W) where
  -- The request names an action, a user, a mail address and what the action is on.
  abbrev pub IsWhole : IngestAuditRequest → Type 0
  IsWhole req =
      (str_eq req.action_type "" ≡ false)
      × ((req.user_id == 0) ≡ false)
      × (str_eq req.user_email "" ≡ false)
      × (str_eq req.target_resource "" ≡ false)

  -- The entry of a request is stored as one of security exactly where the request or its action says
  -- so.
  abbrev pub IsSecurity : IngestAuditRequest → Bool → Type 0
  IsSecurity req b =
      (b ≡ true)
      ↔ ((req.is_security_event ≡ true) ⊎ (to_upper D.upper_rune req.action_type ≡ "SECURITY"))

  -- The action, in capitals, is that of a type, and the entry was then stored without an error.
  abbrev pub IsStored : IngestAuditRequest → Local W → Type 0
  IsStored req l =
      (v : W) × (is_security : Bool) × IsType D (to_upper D.upper_rune req.action_type) l v
      × IsSecurity req is_security
      × ((D.insert_log
            (record {
              user_id = req.user_id;
              user_email = req.user_email;
              action_type = to_upper D.upper_rune req.action_type;
              target_resource = req.target_resource;
              details = req.details;
              ip_address = req.ip_address;
              is_security_event = is_security;
            })
            v).0
          ≡ ok tt)

  or-IsSecurity :
      (req : IngestAuditRequest)
      → IsSecurity req
          (req.is_security_event || str_eq (to_upper D.upper_rune req.action_type) "SECURITY")
  or-IsSecurity req = ground (arith, eq_iff (to_upper D.upper_rune req.action_type) "SECURITY")

  ingest-IsStored :
      (req : IngestAuditRequest) (l : Local W)
      → (ingest D req l).0 ≡ ok tt
      → IsWhole req × IsStored req l
  unfolding ingest
  ingest-IsStored req l h =
      let name = to_upper D.upper_rune req.action_type in
      let (action, h₁) = ensure-ok (not (str_eq req.action_type "")) _ _ l tt h in
      let (valid, told, h₂) = >>=-ok (is_valid D name) _ l tt h₁ in
      let (is_true, h₃) = ensure-ok valid _ _ _ tt h₂ in
      let (user, h₄) = ensure-ok (not (req.user_id == 0)) _ _ _ tt h₃ in
      let (email, h₅) = ensure-ok (not (str_eq req.user_email "")) _ _ _ tt h₄ in
      let (target, h₆) = ensure-ok (not (str_eq req.target_resource "")) _ _ _ tt h₅ in
      (
        (
          not-true (str_eq req.action_type "") action,
          not-true (req.user_id == 0) user,
          not-true (str_eq req.user_email "") email,
          not-true (str_eq req.target_resource "") target,
        ),
        (
          _,
          _,
          is_valid-IsType D name l (told ∙ ap ok is_true),
          or-IsSecurity req,
          lift-ok D (D.insert_log (log_of D req)) _ tt h₆,
        ),
      )

  module _ (decode : String → Option IngestAuditRequest) where
    answered-acked : (done : Option Done) → answered D decode done ≡ acked → done ≡ some tt
    answered-acked (some tt) h = refl
    answered-acked none h = cc

    -- A message that is decoded is acknowledged or put back.
    answered_cases :
        (done : Option Done)
        → (answered D decode done ≡ acked) ⊎ (answered D decode done ≡ requeued)
    answered_cases (some tt) = inl refl
    answered_cases none = inr refl

    ingested-acked :
        (o : Option IngestAuditRequest) (l : Local W)
        → (ingested D decode o l).0 ≡ ok acked
        → (req : IngestAuditRequest) × (o ≡ some req) × ((ingest D req l).0 ≡ ok tt)
    ingested-acked none l h = let clash : dropped ≡ acked = ok-injective h in cc
    ingested-acked (some req) l h =
        let (done, told, h₁) = >>=-ok (attempt (ingest D req)) _ l acked h in
        let stored = answered-acked done (ok-injective h₁) in
        (req, refl, attempt-some (ingest D req) l tt (told ∙ ap ok stored))

    -- A message is acknowledged only where its body is a request that names an action, a user, a
    -- mail address and what the action is on; where the action, in capitals, is a type of action by
    -- the map of the service, by the shared cache where the map is silent, or by the table where the
    -- cache does not say so; and where the entry of the request, with its action in capitals and
    -- marked as an event of security exactly where the request or the action says so, was stored
    -- then, without an error.
    pub on_audit_message-IsStored :
        (body : String) (l : Local W)
        → (on_audit_message D decode body l).0 ≡ ok acked
        → (req : IngestAuditRequest) × (decode body ≡ some req) × IsWhole req × IsStored req l
    unfolding on_audit_message
    on_audit_message-IsStored body l h =
        let (req, decoded, done) = ingested-acked (decode body) l h in
        let (whole, stored) = ingest-IsStored req l done in (req, decoded, whole, stored)

    ingested_cases :
        (o : Option IngestAuditRequest) (req : IngestAuditRequest) (l : Local W)
        → o ≡ some req
        → ((ingested D decode o l).0 ≡ ok acked) ⊎ ((ingested D decode o l).0 ≡ ok requeued)
    ingested_cases none req l h = cc
    ingested_cases (some other) req l h =
        let (done, told) = attempt_total (ingest D other) l in
        let run =
          ap (λ p. p.0)
            (>>=-run (attempt (ingest D other)) (λ d. pure (answered D decode d)) l done told) in
        elim (answered_cases done) [
          | inl same ↦ inl (run ∙ ap ok same)
          | inr same ↦ inr (run ∙ ap ok same)
        ]

    -- A message whose body is a request that lacks its action, its user, its mail address or what the
    -- action is on is put back at every delivery, whatever the state.
    pub on_audit_message-requeued :
        (body : String) (req : IngestAuditRequest) (l : Local W)
        → decode body ≡ some req
        → ¬ IsWhole req
        → (on_audit_message D decode body l).0 ≡ ok requeued
    unfolding on_audit_message
    on_audit_message-requeued body req l decoded lacking =
        elim (ingested_cases (decode body) req l decoded) [
          | inr put_back ↦ put_back
          | inl done ↦
              let (other, same, whole, _) = on_audit_message-IsStored body l done in
              let one : other ≡ req = cc in elim (lacking (subst IsWhole one whole)) [ ]
        ]
