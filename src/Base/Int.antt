-- ===== src/Base/Int.antt =====
-- Integers over the native numbers: `negsuc n` is -(n + 1).
use Prim.Native.Nat.{ℕ, ◌<◌}

pub data ℤ : Type 0 where
  pos : ℕ → ℤ
  negsuc : ℕ → ℤ

-- The range of a two's complement integer, the bound being half the modulus.
abbrev pub FitsSigned : ℕ → ℤ → Type 0
FitsSigned half (pos n) = n < half
FitsSigned half (negsuc n) = n < half
