-- ===== src/Bincode.antt =====
-- src/willow/grovedb/bincode.py: the reader of bincode's standard configuration, big-endian, and the
-- decoder of the proof envelope.
pub mod Encode
pub mod Integers
pub mod RoundTrip
use willow_sdk_python.Prelude.{
  ℕ, zero, suc, ◌+◌, ◌*◌, ◌/◌, ◌%◌, ◌^◌, Bool, true, false, not, ◌||◌, Option, none, some, [], ◌∷◌,
  Bytes, length, bit_or, bit_and, bytes_eq, ltb, leb, ◌==◌, if◌then◌else◌,
}
use willow_sdk_python.Prelude.Int.{ℤ, pos, negsuc}
use willow_sdk_python.Prelude.Words.{from_big}
use willow_sdk_python.Prelude.Result.{
  Error, Result, ok, err, end_of_data, bad_bool, bad_option_tag, bad_varint, length_limit, too_deep,
  bad_version, trailing_bytes,
}
use willow_sdk_python.Hash.{bytes_to_hex}
use willow_sdk_python.Cursor.{
  Cursor, Read, ◌>>=◌, ◌>>◌, pure, raise, refuse_if, advance, start, has_more, at, read_u8,
  read_raw_bytes,
}

unfoldable pub read_u32 : Read ℕ
read_u32 r =
    if ltb (length r.input) (r.offset + 4)
    then err end_of_data
    else ok (
      bit_and
          (bit_or (bit_or (bit_or (at r 0 * 2 ^ 24) (at r 1 * 2 ^ 16)) (at r 2 * 2 ^ 8)) (at r 3))
          0xffff_ffff,
      advance 4 r,
    )

-- `value = (value << 8) | self.data[self.offset + i]`, for `i` below 8.
shift_in : Cursor → (count i value : ℕ) → ℕ
shift_in r zero i value = value
shift_in r (suc count) i value = shift_in r count (i + 1) (bit_or (value * 2 ^ 8) (at r i))

unfoldable pub read_u64 : Read ℕ
unfolding shift_in
read_u64 r =
    if ltb (length r.input) (r.offset + 8)
    then err end_of_data
    else ok (shift_in r 8 0 0, advance 8 r)

unfoldable pub read_bool : Read Bool
read_bool = do
  value ← read_u8
  refuse_if (not (value == 0 || value == 1)) bad_bool
  pure (value == 1)

unfoldable pub read_option_tag : Read Bool
read_option_tag = do
  tag ← read_u8
  refuse_if (not (tag == 0 || tag == 1)) bad_option_tag
  pure (tag == 1)

-- `{251: 2, 252: 4, 253: 8, 254: 16}.get(first)`
abbrev pub width_of_mark : ℕ → Option ℕ
width_of_mark first =
    if first == 251
    then some 2
    else if first == 252
    then some 4
    else if first == 253
    then some 8
    else if first == 254
    then some 16
    else none

unfoldable pub read_wide : (max_bytes : ℕ) → Option ℕ → Read ℕ
read_wide max_bytes none = raise bad_varint
read_wide max_bytes (some width) = do
  refuse_if (ltb max_bytes width) bad_varint
  bytes ← read_raw_bytes width
  pure (from_big bytes)

unfoldable pub read_varint : (max_bytes : ℕ) → Read ℕ
unfolding read_wide
read_varint max_bytes = do
  first ← read_u8
  if ltb first 251 then pure first else read_wide max_bytes (width_of_mark first)

-- A zigzag integer: `n >> 1` if `n` is even, else `-((n >> 1) + 1)`.
unfoldable pub unzigzag : ℕ → ℤ
unzigzag n = if n % 2 == 0 then pos (n / 2) else negsuc (n / 2)

unfoldable pub read_signed_varint : (max_bytes : ℕ) → Read ℤ
unfolding unzigzag
read_signed_varint max_bytes = do n ← read_varint max_bytes; pure (unzigzag n)

unfoldable pub read_bytes : Read Bytes
read_bytes = do
  size ← read_varint 8
  refuse_if (ltb 1_000_000_000 size) length_limit
  read_raw_bytes size

-- A layer's merk proof and the layers below it, by the hex text of their keys.
mutual
  pub data LayerProof : Type 0 where
    layer : (merk_proof : Bytes) → (lower_layers : Layers) → LayerProof

  pub data Layers : Type 0 where
    no_layers : Layers
    below : (key_hex : Bytes) → LayerProof → Layers → Layers

-- `lower_layers[key_hex] = layer_proof`
unfoldable pub put_layer : Bytes → LayerProof → Layers → Layers
put_layer key l no_layers = below key l no_layers
put_layer key l (below other m ls) =
    if bytes_eq other key then below other l ls else below other m (put_layer key l ls)

-- The loop `for _ in range(map_length)`.
unfoldable pub decode_layers : Read LayerProof → (count : ℕ) → Layers → Read Layers
decode_layers decode_lower zero lower_layers = pure lower_layers
decode_layers decode_lower (suc count) lower_layers = do
  key ← read_bytes
  layer_proof ← decode_lower
  decode_layers decode_lower count (put_layer (bytes_to_hex key) layer_proof lower_layers)

abbrev pub max_layer_depth : ℕ
max_layer_depth = 64

-- `levels` is `MAX_LAYER_DEPTH + 1 - depth`: none is left where the depth is past the limit.
unfoldable pub decode_layer_proof : (levels : ℕ) → Read LayerProof
unfolding decode_layers
decode_layer_proof zero = raise too_deep
decode_layer_proof (suc levels) = do
  merk_proof ← read_bytes
  map_length ← read_varint 8
  lower_layers ← decode_layers (decode_layer_proof levels) map_length no_layers
  pure (layer merk_proof lower_layers)

pub record ProveOptions : Type 0 where
  pub decrease_limit_on_empty_sub_query_result : Bool

unfoldable pub decode_prove_options : Read ProveOptions
decode_prove_options = do
  flag ← read_bool
  pure (record { decrease_limit_on_empty_sub_query_result = flag })

pub record GroveDbProofV0 : Type 0 where
  pub root_layer : LayerProof
  pub prove_options : ProveOptions

unfoldable pub decode_grovedb_proof_v0 : Read GroveDbProofV0
decode_grovedb_proof_v0 = do
  root_layer ← decode_layer_proof (max_layer_depth + 1)
  prove_options ← decode_prove_options
  pure (record { root_layer = root_layer; prove_options = prove_options })

pub record GroveDbProof : Type 0 where
  pub version : ℕ
  pub proof : GroveDbProofV0

-- What a caller makes of the reader at the end: bytes that are left are refused.
unfoldable pub at_end {ℓ} : {A : Type ℓ} → Result (A × Cursor) → Result A
at_end (ok (a, r)) = if has_more r then err trailing_bytes else ok a
at_end (err e) = err e

unfoldable pub decode_grovedb_proof : Bytes → Result GroveDbProof
unfolding at_end
decode_grovedb_proof input = at_end (
    (do
      variant ← read_varint 4
      refuse_if (not (variant == 0)) bad_version
      proof ← decode_grovedb_proof_v0
      pure (record { version = 0; proof = proof }))
      (start input))
