-- ===== src/Prelude/Float.antt =====
-- `f64` as the operations that the source uses. No law is assumed here: a theorem that needs one
-- names it. Instances are found, so that the code reads as it is written.
use Prim.Native.Nat.{ℕ}
use mathlib.Core.Bool.{Bool}

pub record FloatOps (F : Type 0) : Type 0 where
  pub zero_float : F
  pub add : F → F → F
  pub mul : F → F → F
  pub min_float : F → F → F
  pub max_float : F → F → F
  -- `a <= b`, false where either is not a number
  pub le : F → F → Bool
  pub is_finite : F → Bool
  -- `n as f64` and, saturating at `u64::MAX`, `x as u64`
  pub of_nat : ℕ → F
  pub to_nat : F → ℕ
  pub ceil : F → F
  -- the literal n / d
  pub literal : ℕ → ℕ → F
  -- `Duration::as_secs_f64`
  pub as_secs_f64 : ℕ → F
