-- ===== src/Varint.antt =====
-- src/willow/grovedb/varint.py: LEB128-style integers, seven bits to a byte, lowest group first.
pub mod Groups
pub mod RoundTrip
pub mod Bounds
pub mod Zigzag
use mathlib.Core.WellFounded.{Acc}
use willow_sdk_python.Prelude.{
  ℕ, zero, suc, ◌+◌, ◌*◌, ◌/◌, ◌^◌, ◌<◌, bit_and, bit_or, arith, List, [], ◌∷◌, Bytes, length, drop,
  ltb, ◌==◌, if◌then◌else◌, dite, dec_lt,
}
use willow_sdk_python.Prelude.Int.{ℤ, pos, negsuc, neg_of, ◌^ℤ◌}
use willow_sdk_python.Prelude.Order.{lt_wf}
use willow_sdk_python.Prelude.Result.{
  Result, ok, err, ◌>>=◌, negative_varint, varint_too_long, varint_end,
}

pub shift_shrinks : (v : ℕ) → 0x7f < v → v / 128 < v
shift_shrinks v h = omega arith

-- `while value > 0x7f`: one byte with the top bit set for each round, and the last group behind.
encode_loop : (v : ℕ) → Acc ◌<◌ v → Bytes
encode_loop v (Acc.intro _ smaller) =
    dite (dec_lt 0x7f v)
      (λ more.
        bit_or (bit_and v 0x7f) 0x80 ∷ encode_loop (v / 128) (smaller _ (shift_shrinks v more)))
      (λ _. v ∷ [])

-- `encode_varint` on a value that is not negative, which every length is.
unfoldable pub varint_bytes : ℕ → Bytes
unfolding encode_loop lt_wf dec_lt
varint_bytes v = encode_loop v (lt_wf.apply v)

unfoldable pub encode_varint : ℤ → Result Bytes
unfolding varint_bytes
encode_varint (pos v) = ok (varint_bytes v)
encode_varint (negsuc n) = err negative_varint

-- The loop of the four decoders, over the bytes from `offset + bytes_read` on. `limit` is the shift
-- past which a varint is too long.
unfoldable pub decode_loop : (limit : ℕ) → Bytes → (value shift bytes_read : ℕ) → Result (ℕ × ℕ)
decode_loop limit [] value shift bytes_read = err varint_end
decode_loop limit (byte ∷ later) value shift bytes_read =
    let value' = bit_or value (bit_and byte 0x7f * 2 ^ shift) in
    let more = decode_loop limit later value' (shift + 7) (bytes_read + 1) in
    if bit_and byte 0x80 == 0
    then ok (value', bytes_read + 1)
    else if ltb limit (shift + 7)
    then err varint_too_long
    else more

unfoldable pub decode_varint : Bytes → ℕ → Result (ℕ × ℕ)
unfolding decode_loop
decode_varint input offset = decode_loop 35 (drop offset input) 0 0 0

unfoldable pub decode_varint64 : Bytes → ℕ → Result (ℕ × ℕ)
unfolding decode_loop
decode_varint64 input offset = decode_loop 70 (drop offset input) 0 0 0

-- `(n >> 1) ^ -(n & 1)`
unfoldable pub zigzag : ℕ → ℤ
zigzag n = pos (n / 2) ^ℤ neg_of (bit_and n 1)

unfoldable pub decode_signed_varint : Bytes → ℕ → Result (ℤ × ℕ)
unfolding decode_varint zigzag
decode_signed_varint input offset = do
  (unsigned, bytes_read) ← decode_varint input offset
  ok (zigzag unsigned, bytes_read)

unfoldable pub decode_signed_varint64 : Bytes → ℕ → Result (ℤ × ℕ)
unfolding decode_loop zigzag
decode_signed_varint64 input offset = do
  (value, bytes_read) ← decode_loop 70 (drop offset input) 0 0 0
  ok (zigzag value, bytes_read)
