-- ===== src/Mrp/Errors.antt =====
-- The errors of mrp/internal/service: a text of `fmt.Errorf`, or what a repository or a client
-- returned.
use zeus_be.Prelude.{ℕ, String}

pub data MrpError : Type 0 where
  message : String → MrpError
  failed : ℕ → MrpError
