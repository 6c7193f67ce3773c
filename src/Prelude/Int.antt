-- ===== src/Prelude/Int.antt =====
-- The integers, as a natural number or one more than a natural number below zero.
use Prim.Native.Nat.{ℕ}

-- `negsuc n` is -(n + 1).
pub data ℤ : Type 0 where
  pos : ℕ → ℤ
  negsuc : ℕ → ℤ
