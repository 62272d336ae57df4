-- ===== src/Number.antt =====
-- The floating-point numbers of prices and amounts. The program computes them with Python floats,
-- which are outside the repository: they are an interface, with the operations that the code uses.
use mintzy_plugin_kelly_opt.Base.{Bool}
use mintzy_plugin_kelly_opt.Base.Int.{ℤ}

pub record Number : Type 1 where
  pub Float : Type 0
  pub zero : Float
  pub one : Float
  -- `float(n)`, and an `int` that meets a float in an operation.
  pub of_int : ℤ → Float
  pub plus : Float → Float → Float
  pub minus : Float → Float → Float
  pub times : Float → Float → Float
  -- The divisor has been tested not to be zero.
  pub divide : Float → Float → Float
  -- `x > 0` and `x <= y`.
  pub is_pos : Float → Bool
  pub le : Float → Float → Bool
