-- ===== src/Varint/Zigzag.antt =====
-- src/willow/grovedb/varint.py: the zigzag reading of the signed decoders.
use willow_sdk_python.Prelude.{ℕ, ◌+◌, ◌*◌, ◌/◌, ◌%◌, ◌≡◌, ap, ◌∙◌, arith}
use willow_sdk_python.Prelude.Bits.{bit_and-one, bit_xor-zero}
use willow_sdk_python.Prelude.Int.{ℤ, pos, negsuc}
use willow_sdk_python.Varint.{zigzag}

-- 0, -1, 1, -2, … are coded by 0, 1, 2, 3, …
abbrev pub zigzag_code : ℤ → ℕ
zigzag_code (pos n) = 2 * n
zigzag_code (negsuc n) = 2 * n + 1

pub zigzag_even : (n : ℕ) → n % 2 ≡ 0 → zigzag n ≡ pos (n / 2)
unfolding zigzag
zigzag_even n h = rw (bit_and-one, h) (ap pos (bit_xor-zero (n / 2)))

pub zigzag_odd : (n : ℕ) → n % 2 ≡ 1 → zigzag n ≡ negsuc (n / 2)
unfolding zigzag
zigzag_odd n h = rw (bit_and-one, h) (ap negsuc (bit_xor-zero (n / 2)))

-- Every signed integer comes back from its zigzag code.
pub zigzag-zigzag_code : (z : ℤ) → zigzag (zigzag_code z) ≡ z
zigzag-zigzag_code (pos n) = zigzag_even (2 * n) (omega arith) ∙ ap pos (omega arith)
zigzag-zigzag_code (negsuc n) = zigzag_odd (2 * n + 1) (omega arith) ∙ ap negsuc (omega arith)
