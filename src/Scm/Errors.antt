-- ===== src/Scm/Errors.antt =====
-- scm/internal/exception/codes.go and scm/internal/service/errors.go: the errors that the services
-- return. Messages attached by `WithMessage` are left out: `errors.Is` compares codes only.
use zeus_be.Prelude.{ℕ, String}

pub data ScmError : Type 0 where
  not_found invalid_transition state_regression mono_vendor_violation : ScmError
  insufficient_deficit incomplete_grs already_locked lock_expired : ScmError
  shipment_already_dispatched shipment_lock_conflict shipment_not_locked : ScmError
  shipment_lock_expired no_optimal_supplier : ScmError
  -- `fmt.Errorf` with its text
  message : String → ScmError
  -- an error that a repository or the broker returned
  failed : ℕ → ScmError
