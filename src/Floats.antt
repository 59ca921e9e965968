-- ===== src/Floats.antt =====
-- The machine's `float` and `double`, with the operations that the program uses. They are
-- parameters of the model: no rounding is assumed, and no law.
use client_server_db.Prelude.{Bool}
use client_server_db.Prelude.Int.{ℤ}

pub record Floats : Type 1 where
  pub Float : Type 0
  pub Double : Type 0
  pub float_of_int : ℤ → Float
  pub double_of_int : ℤ → Double
  pub float_of_double : Double → Float
  pub double_of_float : Float → Double
  -- `(int)x`
  pub int_of_float : Float → ℤ
  pub mul_double : Double → Double → Double
  pub div_double : Double → Double → Double
  pub sub_float : Float → Float → Float
  pub mul_float : Float → Float → Float
  pub div_float : Float → Float → Float
  -- `x < y`
  pub lt : Float → Float → Bool
  -- `x == 0`
  pub is_zero : Float → Bool
