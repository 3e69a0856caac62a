-- ===== src/Prelude/Float.antt =====
-- Go's `float64`, as a parameter: the programs calculate with prices and rates; what else they use is
-- an argument of theirs.
-- No law of the arithmetic is assumed.
use zeus_be.Prelude.Int.{ℤ}

pub record Floats : Type 1 where
  pub Float : Type 0
  pub zero_f : Float
  pub add_f : Float → Float → Float
  pub mul_f : Float → Float → Float
  pub div_f : Float → Float → Float
  -- `float64(n)`
  pub of_int : ℤ → Float
