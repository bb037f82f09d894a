-- ===== src/Varint/Bounds.antt =====
-- src/willow/grovedb/varint.py: the decoders on any bytes.
use willow_sdk_python.Prelude.{
  ℕ, ◌+◌, ◌*◌, ◌%◌, ◌^◌, ◌≤◌, ◌<◌, ◌≡◌, arith, [], ◌∷◌, Bytes, length, drop, length-drop, bit_and,
  bit_or, ap,
}
use willow_sdk_python.Prelude.Bits.{low_seven, bit_or_shifted}
use willow_sdk_python.Prelude.Result.{ok}
use willow_sdk_python.Varint.{decode_loop, decode_varint, decode_varint64}
use willow_sdk_python.Varint.RoundTrip.{group_fits}

-- One byte widens the value by seven bits.
or_fits : (acc byte s : ℕ) → acc < 2 ^ s → bit_or acc (bit_and byte 0x7f * 2 ^ s) < 2 ^ (s + 7)
or_fits acc byte s h =
    rw (low_seven, bit_or_shifted s acc (byte % 128) h)
      (group_fits acc (byte % 128) s h (omega arith))

-- With the shift at 7 for each byte read, a success reads at least one byte, all of them there, and
-- seven bits from each.
decode_loop_takes :
    (limit : ℕ) (input : Bytes) (acc shift n v m : ℕ)
    → acc < 2 ^ shift
    → shift ≡ 7 * n
    → shift ≤ limit
    → decode_loop limit input acc shift n ≡ ok (v, m)
    → (v < 2 ^ (7 * m)) × (n < m) × (m ≤ n + length input) × (7 * m ≤ limit + 7)
unfolding decode_loop
decode_loop_takes limit [] acc shift n v m fits hs hl e = cc
decode_loop_takes limit (byte ∷ later) acc shift n v m fits hs hl e =
    let next : shift + 7 ≡ 7 * (n + 1) = omega arith in
    let acc' : ℕ = bit_or acc (bit_and byte 0x7f * 2 ^ shift) in
    ground (
      arith,
      or_fits acc byte shift fits,
      ap (λ (t : ℕ). 2 ^ t) next,
      decode_loop_takes limit later acc' (shift + 7) (n + 1) v m,
    )

-- A number that `decode_varint` accepts took 1 to 6 bytes, all of them inside the input, and has at
-- most seven bits for each.
pub decode_varint_takes :
    (input : Bytes) (offset v m : ℕ)
    → decode_varint input offset ≡ ok (v, m)
    → (v < 2 ^ (7 * m)) × (1 ≤ m) × (offset + m ≤ length input) × (m ≤ 6)
unfolding decode_varint
decode_varint_takes input offset v m e =
    let (fits, some_read, inside, few) =
      decode_loop_takes 35 (drop offset input) 0 0 0 v m (omega arith) (omega arith) (omega arith)
        e in
    let left = length-drop offset input in (fits, omega arith, omega arith, omega arith)

-- A number that `decode_varint64` accepts took 1 to 11 bytes, all of them inside the input, and has
-- at most seven bits for each.
pub decode_varint64_takes :
    (input : Bytes) (offset v m : ℕ)
    → decode_varint64 input offset ≡ ok (v, m)
    → (v < 2 ^ (7 * m)) × (1 ≤ m) × (offset + m ≤ length input) × (m ≤ 11)
unfolding decode_varint64
decode_varint64_takes input offset v m e =
    let (fits, some_read, inside, few) =
      decode_loop_takes 70 (drop offset input) 0 0 0 v m (omega arith) (omega arith) (omega arith)
        e in
    let left = length-drop offset input in (fits, omega arith, omega arith, omega arith)
