-- ===== src/System/Errors.antt =====
-- system/internal/service/errors.go.
use zeus_be.Prelude.{ℕ}

pub data SystemError : Type 0 where
  not_found : SystemError
  duplicate_email : SystemError
  inactive_account : SystemError
  unauthorized : SystemError
  forbidden : SystemError
  short_password : SystemError
  invalid_role : SystemError
  invalid_email : SystemError
  empty_email : SystemError
  empty_password : SystemError
  empty_name : SystemError
  nil_id : SystemError
  invalid_input : SystemError
  -- what a repository, a signature or a library returned
  failed : ℕ → SystemError
