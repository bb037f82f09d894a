-- ===== src/Varint/RoundTrip.antt =====
-- src/willow/grovedb/varint.py: the decoders on what the encoder wrote.
use native.Mathlib.Nat.{div-add-mod}
use native.Mathlib.Numerals.{towards_suc}
use willow_sdk_python.Prelude.{
  ℕ, zero, suc, ◌+◌, ◌*◌, ◌/◌, ◌%◌, ◌^◌, ◌≤◌, ◌<◌, ◌≡◌, ap, arith, ◌++◌, Bytes, length, drop,
  drop-append, append_cut, [],
}
use willow_sdk_python.Prelude.Result.{ok}
use willow_sdk_python.Varint.{varint_bytes, decode_loop, decode_varint, decode_varint64}
use willow_sdk_python.Varint.Groups.{groups, varint_bytes-groups, last_byte, inner_byte, lt_pow}

pow_seven : (s : ℕ) → 2 ^ (s + 7) ≡ 128 * 2 ^ s
pow_seven s = simp towards_suc (omega arith)

-- A number is its lowest group and the groups above, seven bits further up.
regroup : (w s : ℕ) → w * 2 ^ s ≡ w % 128 * 2 ^ s + w / 128 * 2 ^ (s + 7)
regroup w s = omega (
  arith,
  ap (λ (t : ℕ). t * 2 ^ s) (div-add-mod w 128),
  ap (λ (t : ℕ). w / 128 * t) (pow_seven s),
)

pub group_fits : (acc g s : ℕ) → acc < 2 ^ s → g < 128 → acc + g * 2 ^ s < 2 ^ (s + 7)
group_fits acc g s h k = grind (arith, pow_seven s)

-- `k` more groups may follow while the shift stays within the limit.
decode_loop-groups :
    (limit k w acc shift n : ℕ) (rest : Bytes)
    → w < 128 ^ suc k
    → acc < 2 ^ shift
    → shift + 7 * k ≤ limit
    → decode_loop limit (groups k w ++ rest) acc shift n
      ≡ ok (acc + w * 2 ^ shift, n + length (groups k w))
unfolding groups
decode_loop-groups limit zero w acc shift n rest hw fits hs =
    last_byte limit w acc shift n rest hw fits
decode_loop-groups limit (suc k) w acc shift n rest hw fits hs = ground (
  arith,
  last_byte limit w acc shift n rest,
  regroup w shift,
  group_fits acc (w % 128) shift fits (omega arith),
  inner_byte limit (w % 128) acc shift n (groups k (w / 128) ++ rest),
  decode_loop-groups limit k (w / 128) (acc + w % 128 * 2 ^ shift) (shift + 7) (n + 1) rest
      (omega arith),
)

decode_loop-varint_bytes :
    (limit k v : ℕ) (front rest : Bytes)
    → v < 128 ^ suc k
    → 7 * k ≤ limit
    → decode_loop limit (drop (length front) (front ++ (varint_bytes v ++ rest))) 0 0 0
      ≡ ok (v, length (varint_bytes v))
decode_loop-varint_bytes limit k v front rest hv hk =
    rw (drop-append, varint_bytes-groups k v hv)
      (ground (arith, decode_loop-groups limit k v 0 0 0 rest hv))

-- `decode_varint` reads back every number below 2 ^ 42 that `encode_varint` wrote, and says how many
-- bytes it took, wherever the bytes stand.
pub decode_varint-varint_bytes :
    (v : ℕ) (front rest : Bytes)
    → v < 2 ^ 42
    → decode_varint (front ++ (varint_bytes v ++ rest)) (length front)
      ≡ ok (v, length (varint_bytes v))
unfolding decode_varint
decode_varint-varint_bytes v front rest h =
    decode_loop-varint_bytes 35 5 v front rest (omega arith) (omega arith)

-- `decode_varint64` reads back every number below 2 ^ 77 that `encode_varint` wrote, the numbers
-- from 2 ^ 64 on included, and says how many bytes it took.
pub decode_varint64-varint_bytes :
    (v : ℕ) (front rest : Bytes)
    → v < 2 ^ 77
    → decode_varint64 (front ++ (varint_bytes v ++ rest)) (length front)
      ≡ ok (v, length (varint_bytes v))
unfolding decode_varint64
decode_varint64-varint_bytes v front rest h =
    decode_loop-varint_bytes 70 10 v front rest (omega arith) (omega arith)

read_back :
    (m k : ℕ) (rest : Bytes)
    → m ≤ k
    → decode_loop (7 * k) (varint_bytes m ++ rest) 0 0 0 ≡ ok (m, length (varint_bytes m))
read_back m k rest h = decode_loop-varint_bytes (7 * k) k m [] rest (lt_pow m k h) (omega arith)

-- No encoding is a proper prefix of another: a number and what follows it can be told apart.
pub varint_bytes_prefix :
    (m n : ℕ) (xs ys : Bytes) → varint_bytes m ++ xs ≡ varint_bytes n ++ ys → (m ≡ n) × (xs ≡ ys)
varint_bytes_prefix m n xs ys e =
    let left = read_back m (m + n) xs (omega arith) in
    let right = read_back n (m + n) ys (omega arith) in
    let same : m ≡ n = cc in (same, (append_cut (varint_bytes m) xs (varint_bytes n) ys (cc) e).1)
