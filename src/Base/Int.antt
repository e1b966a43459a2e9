-- ===== src/Base/Int.antt =====
-- Python's integers, as far as JSON numbers need them.
use Prim.Native.Nat.{ℕ}

-- `negsuc n` is -(n + 1).
pub data ℤ : Type 0 where
  pos : ℕ → ℤ
  negsuc : ℕ → ℤ
