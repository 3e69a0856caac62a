-- ===== src/Sales/Errors.antt =====
-- The errors of sales/internal/service, by what `errors.Is` tells apart.
use zeus_be.Prelude.{ℕ, String}

pub data SalesError : Type 0 where
  insufficient_inventory : SalesError
  -- `middlewares.ErrValidation` and `middlewares.ErrConflict`, with their texts
  validation conflict : String → SalesError
  -- another text of `fmt.Errorf`
  message : String → SalesError
  -- what a repository or a client returned
  failed : ℕ → SalesError
