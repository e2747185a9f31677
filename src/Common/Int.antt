-- ===== src/Common/Int.antt =====
-- The integers that the program's signed numbers take, and what a JavaScript number can be.
use Prim.Native.Nat.{ℕ}

-- `negsuc n` is -(n + 1).
pub data ℤ : Type 0 where
  pos : ℕ → ℤ
  negsuc : ℕ → ℤ

-- A JavaScript number: a safe integer, or anything else (a fraction, NaN, an infinity).
pub data Number : Type 0 where
  safe_integer : ℤ → Number
  other : Number
