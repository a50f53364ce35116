-- ===== src/Base/Float.antt =====
-- What the program does with a float64. The type and its operations are a parameter.
use payment_infrastructure.Base.Int.{ℤ}
use Prim.Native.Nat.{ℕ}
use Prim.Native.String.{String}
use mathlib.Core.Bool.{Bool}

pub record Float64 (F : Type 0) : Type 0 where
  pub of_int : ℤ → F
  -- `decimal m k` is the literal m * 10 ^ -k.
  pub decimal : ℕ → ℕ → F
  pub to_int : F → ℤ
  pub nan : F
  pub is_nan : F → Bool
  pub is_inf : F → Bool
  pub max_float : F
  pub plus : F → F → F
  pub minus : F → F → F
  pub times : F → F → F
  pub over : F → F → F
  pub lt : F → F → Bool
  pub le : F → F → Bool
  pub eq : F → F → Bool
  -- `fmt.Sprintf("%.<k>f", x)`
  pub fixed : ℕ → F → String
