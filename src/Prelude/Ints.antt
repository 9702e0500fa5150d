-- ===== src/Prelude/Ints.antt =====
-- Signed numbers over the native ones.
use Prim.Native.Nat.{ℕ}
use mathlib.Core.Bool.{Bool, false}
use patrizio_bot.Prelude.Tests.{◌==◌}

pub data ℤ : Type 0 where
  pos negsuc : ℕ → ℤ

abbrev pub int_eq : ℤ → ℤ → Bool
int_eq (pos m) (pos n) = m == n
int_eq (negsuc m) (negsuc n) = m == n
int_eq _ _ = false
