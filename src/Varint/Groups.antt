-- ===== src/Varint/Groups.antt =====
-- src/willow/grovedb/varint.py: what the encoder writes and how one round of a decoder reads a byte,
-- in plain arithmetic.
use mathlib.Core.WellFounded.{Acc}
use willow_sdk_python.Prelude.{
  ℕ, zero, suc, ◌+◌, ◌-◌, ◌*◌, ◌/◌, ◌%◌, ◌^◌, ◌≤◌, ◌<◌, ◌≡◌, bit_and, bit_or, arith, [], ◌∷◌, Bytes,
  length, All, IsByte, ltb, if◌then◌else◌,
}
use native.Mathlib.Nat.{pow-suc}
use willow_sdk_python.Prelude.Order.{lt_wf}
use willow_sdk_python.Prelude.Bits.{low_seven, eighth_bit, bit_or_shifted}
use willow_sdk_python.Prelude.Result.{ok}
use willow_sdk_python.Varint.{encode_loop, varint_bytes, decode_loop}

-- The groups of `v`, for `v` below 128 ^ (k + 1).
unfoldable pub groups : ℕ → ℕ → Bytes
groups zero v = v ∷ []
groups (suc k) v =
    let later = groups k (v / 128) in if ltb v 128 then v ∷ [] else (v % 128 + 128) ∷ later

marked : (v : ℕ) → bit_or (bit_and v 0x7f) 0x80 ≡ v % 128 + 128
marked v = rw low_seven (bit_or_shifted 7 (v % 128) 1 (omega arith))

encode_loop-groups : (k v : ℕ) (w : Acc ◌<◌ v) → v < 128 ^ suc k → encode_loop v w ≡ groups k v
unfolding encode_loop groups
encode_loop-groups zero v (Acc.intro _ smaller) h = ground arith
encode_loop-groups (suc k) v (Acc.intro _ smaller) h =
    grind
      (arith, marked v, λ (w : Acc ◌<◌ (v / 128)). encode_loop-groups k (v / 128) w (omega arith))

pub varint_bytes-groups : (k v : ℕ) → v < 128 ^ suc k → varint_bytes v ≡ groups k v
unfolding varint_bytes
varint_bytes-groups k v h = encode_loop-groups k v (lt_wf.apply v) h

-- A byte with the top bit clear ends the number; its bits are disjoint from those read so far.
pub last_byte :
    (limit w acc shift n : ℕ) (rest : Bytes)
    → w < 128
    → acc < 2 ^ shift
    → decode_loop limit (w ∷ rest) acc shift n ≡ ok (acc + w * 2 ^ shift, n + 1)
unfolding decode_loop
last_byte limit w acc shift n rest hw fits =
    ground (arith, low_seven w, eighth_bit w, bit_or_shifted shift acc w)

pub inner_byte :
    (limit g acc shift n : ℕ) (rest : Bytes)
    → g < 128
    → acc < 2 ^ shift
    → shift + 7 ≤ limit
    → decode_loop limit ((g + 128) ∷ rest) acc shift n
      ≡ decode_loop limit rest (acc + g * 2 ^ shift) (shift + 7) (n + 1)
unfolding decode_loop
inner_byte limit g acc shift n rest hg fits hs =
    ground (arith, low_seven (g + 128), eighth_bit (g + 128), bit_or_shifted shift acc g)

pub groups-IsByte : (k v : ℕ) → v < 128 ^ suc k → All IsByte (groups k v)
unfolding groups
groups-IsByte zero v h = omega arith
groups-IsByte (suc k) v h = ground (arith, groups-IsByte k (v / 128) (omega arith))

pub length-groups : (k v : ℕ) → (1 ≤ length (groups k v)) × (length (groups k v) ≤ k + 1)
unfolding groups
length-groups zero v = omega arith
length-groups (suc k) v = ground (arith, length-groups k (v / 128))

-- A number below 128 takes one byte, any other at least two.
pub varint_bytes_small : (v : ℕ) → v < 128 → varint_bytes v ≡ v ∷ []
unfolding groups
varint_bytes_small v h = varint_bytes-groups 0 v (omega arith)

pub lt_pow : (n k : ℕ) → n ≤ k → n < 128 ^ suc k
lt_pow n zero h = omega arith
lt_pow n (suc k) h = grind (arith, pow-suc 128 (suc k), lt_pow (n - 1) k (omega arith))

pub one-le-length-varint_bytes : (v : ℕ) → 1 ≤ length (varint_bytes v)
one-le-length-varint_bytes v =
    rw (varint_bytes-groups v v (lt_pow v v (omega arith))) (length-groups v v).0
