-- ===== src/Prelude/Integers.antt =====
-- The integers, over the native numbers and under the library's names.
use Prim.Native.Nat.{ℕ}

pub data ℤ : Type 0 where
  pos : ℕ → ℤ
  -- The number below zero: `negsuc n` is -(n + 1).
  negsuc : ℕ → ℤ
