-- ===== src/Base/Floats.antt =====
-- The float64 operations that the program uses, on a type of their values. They are a parameter:
-- nothing is assumed of rounding.
use Prim.Native.String.{String}
use Prim.Native.Nat.{ℕ}
use mathlib.Core.Bool.{Bool}

pub record Floats (R : Type 0) : Type 0 where
  pub of_uint64 : ℕ → R
  pub to_uint64 : R → ℕ
  pub duration_seconds : ℕ → R
  pub fadd : R → R → R
  pub fsub : R → R → R
  pub fmul : R → R → R
  pub fdiv : R → R → R
  pub fmin : R → R → R
  pub flt : R → R → Bool
  -- The text of a number with so many decimals.
  pub show : ℕ → R → String
