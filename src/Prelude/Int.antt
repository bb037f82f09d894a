-- ===== src/Prelude/Int.antt =====
-- Python's signed integers over the native numbers, with `^` as on two's complement.
use Prim.Native.Nat.{ℕ, zero, suc, bit_xor}

-- `negsuc n` is -(n + 1).
pub data ℤ : Type 0 where
  pos : ℕ → ℤ
  negsuc : ℕ → ℤ

-- -n
abbrev pub neg_of : ℕ → ℤ
neg_of zero = pos 0
neg_of (suc n) = negsuc n

-- `a ^ b`; -(n + 1) is `~n`, and `a ^ ~b` is `~(a ^ b)`.
infixl 55 ◌^ℤ◌
abbrev pub ◌^ℤ◌ : ℤ → ℤ → ℤ
pos a ^ℤ pos b = pos (bit_xor a b)
pos a ^ℤ negsuc b = negsuc (bit_xor a b)
negsuc a ^ℤ pos b = negsuc (bit_xor a b)
negsuc a ^ℤ negsuc b = pos (bit_xor a b)
