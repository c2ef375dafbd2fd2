-- ===== src/Prelude/Int.antt =====
-- Signed integers, for `int32` weights. The program stores them and never computes with them.
use Prim.Native.Nat.{ℕ}

-- `negsuc n` is -(n + 1).
pub data ℤ : Type 0 where
  pos : ℕ → ℤ
  negsuc : ℕ → ℤ
