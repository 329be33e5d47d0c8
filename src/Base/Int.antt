-- ===== src/Base/Int.antt =====
-- Integers, as Go's `int` and `int64` give them: `negsuc n` is -(n + 1).
use Prim.Native.Nat.{ℕ}

pub data ℤ : Type 0 where
  pos : ℕ → ℤ
  negsuc : ℕ → ℤ
