-- ===== src/Merk/Decoder.antt =====
-- src/willow/grovedb/merk_decoder.py: the operations of a merk proof, read from its bytes.
--
-- `MerkDecoder` keeps bytes and an offset: it is a `Cursor`, and its `_read_u8`, `_read_u16` and
-- `_read_bytes` are that cursor's reads.
pub mod Total
pub mod Sized
use willow_sdk_python.Prelude.{
  ℕ, zero, suc, ◌+◌, ◌-◌, ◌*◌, ◌^◌, Bool, true, false, not, Option, none, some, List, [], ◌∷◌,
  Bytes, length, ltb, ◌==◌, if◌then◌else◌,
}
use willow_sdk_python.Prelude.Int.{ℤ, pos, negsuc}
use willow_sdk_python.Prelude.Words.{from_big}
use willow_sdk_python.Prelude.Result.{
  Result, ok, err, bad_op, bad_feature, value_too_short, value_too_long, out_of_fuel,
}
use willow_sdk_python.Varint.{decode_varint64, decode_signed_varint64}
use willow_sdk_python.Cursor.{
  Cursor, Read, ◌>>=◌, ◌>>◌, pure, raise, refuse_if, advance, start, has_more, read_u8, read_u16,
  read_raw_bytes,
}
use willow_sdk_python.Merk.Nodes.{
  TreeFeatureType, basic_merk_node, summed_merk_node, big_summed_merk_node, counted_merk_node,
  counted_summed_merk_node, MerkNode, hash_node, kv_hash_node, kv_node, kv_value_hash_node,
  kv_digest_node, kv_ref_value_hash_node, kv_value_hash_feature_type_node, MerkOp, push,
  push_inverted, parent, child, parent_inverted, child_inverted,
}

abbrev pub large_value_threshold : ℕ
large_value_threshold = 65536

-- 64 MiB
abbrev pub max_value_len : ℕ
max_value_len = 64 * 1024 * 1024

unfoldable pub read_value_length : (large : Bool) → Read ℕ
read_value_length false = read_u16
read_value_length true = do
  length_bytes ← read_raw_bytes 4
  let value_len = from_big length_bytes
  refuse_if (ltb value_len large_value_threshold) value_too_short
  refuse_if (ltb max_value_len value_len) value_too_long
  pure value_len

-- A varint at the offset, which then moves past it.
abbrev pub moved {ℓ} : {A : Type ℓ} → Cursor → Result (A × ℕ) → Result (A × Cursor)
moved r (ok (a, bytes_read)) = ok (a, advance bytes_read r)
moved r (err e) = err e

unfoldable pub read_varint64 : Read ℕ
read_varint64 r = moved r (decode_varint64 r.input r.offset)

unfoldable pub read_signed_varint64 : Read ℤ
read_signed_varint64 r = moved r (decode_signed_varint64 r.input r.offset)

-- `int.from_bytes(b, "big", signed=True)` of 16 bytes.
unfoldable pub signed_128 : ℕ → ℤ
signed_128 n = if ltb n (2 ^ 127) then pos n else negsuc (2 ^ 128 - n - 1)

unfoldable pub decode_feature : (feature_code : ℕ) → Read TreeFeatureType
unfolding signed_128
decode_feature feature_code =
    if feature_code == 0
    then pure basic_merk_node
    else if feature_code == 1
    then (do sum ← read_signed_varint64; pure (summed_merk_node sum))
    else if feature_code == 2
    then (do
      sum_bytes ← read_raw_bytes 16
      pure (big_summed_merk_node (signed_128 (from_big sum_bytes))))
    else if feature_code == 3
    then (do count ← read_varint64; pure (counted_merk_node count))
    else if feature_code == 4
    then (do
      count ← read_varint64
      sum ← read_signed_varint64
      pure (counted_summed_merk_node count sum))
    else raise bad_feature

unfoldable pub decode_feature_type : Read TreeFeatureType
unfolding decode_feature
decode_feature_type = do feature_code ← read_u8; decode_feature feature_code

-- A key behind its length of one byte.
unfoldable pub read_key : Read Bytes
read_key = do key_len ← read_u8; read_raw_bytes key_len

-- A value behind its length.
unfoldable pub read_value : (large : Bool) → Read Bytes
unfolding read_value_length
read_value large = do value_len ← read_value_length large; read_raw_bytes value_len

unfoldable pub decode_hash : Read MerkNode
decode_hash = do hash ← read_raw_bytes 32; pure (hash_node hash)

unfoldable pub decode_kv_hash : Read MerkNode
decode_kv_hash = do kv_hash ← read_raw_bytes 32; pure (kv_hash_node kv_hash)

unfoldable pub decode_kv : (large : Bool) → Read MerkNode
decode_kv large = do key ← read_key; value ← read_value large; pure (kv_node key value)

unfoldable pub decode_kv_value_hash : (large : Bool) → Read MerkNode
decode_kv_value_hash large = do
  key ← read_key
  value ← read_value large
  value_hash ← read_raw_bytes 32
  pure (kv_value_hash_node key value value_hash)

unfoldable pub decode_kv_digest : Read MerkNode
decode_kv_digest = do
  key ← read_key
  value_hash ← read_raw_bytes 32
  pure (kv_digest_node key value_hash)

unfoldable pub decode_kv_ref_value_hash : (large : Bool) → Read MerkNode
decode_kv_ref_value_hash large = do
  key ← read_key
  value ← read_value large
  value_hash ← read_raw_bytes 32
  pure (kv_ref_value_hash_node key value value_hash)

unfoldable pub decode_kv_value_hash_feature_type : (large : Bool) → Read MerkNode
decode_kv_value_hash_feature_type large = do
  key ← read_key
  value ← read_value large
  value_hash ← read_raw_bytes 32
  feature_type ← decode_feature_type
  pure (kv_value_hash_feature_type_node key value value_hash feature_type)

abbrev pub pushed : Read MerkNode → Read MerkOp
pushed m = do node ← m; pure (push node)

abbrev pub pushed_inverted : Read MerkNode → Read MerkOp
pushed_inverted m = do node ← m; pure (push_inverted node)

-- The chain of tests on the op code: the inverted pushes, the tree operations, and the rest.
unfoldable pub decode_inverted : (op_code : ℕ) → Read MerkOp
decode_inverted op_code =
    if op_code == 0x08
    then pushed_inverted decode_hash
    else if op_code == 0x09
    then pushed_inverted decode_kv_hash
    else if op_code == 0x0a
    then pushed_inverted (decode_kv false)
    else if op_code == 0x0b
    then pushed_inverted (decode_kv_value_hash false)
    else if op_code == 0x0c
    then pushed_inverted decode_kv_digest
    else if op_code == 0x0d
    then pushed_inverted (decode_kv_ref_value_hash false)
    else if op_code == 0x0e
    then pushed_inverted (decode_kv_value_hash_feature_type false)
    else if op_code == 0x28
    then pushed_inverted (decode_kv true)
    else if op_code == 0x29
    then pushed_inverted (decode_kv_value_hash true)
    else if op_code == 0x2a
    then pushed_inverted (decode_kv_ref_value_hash true)
    else if op_code == 0x2b
    then pushed_inverted (decode_kv_value_hash_feature_type true)
    else if op_code == 0x10
    then pure parent
    else if op_code == 0x11
    then pure child
    else if op_code == 0x12
    then pure parent_inverted
    else if op_code == 0x13
    then pure child_inverted
    else raise bad_op

unfoldable pub decode_op : (op_code : ℕ) → Read MerkOp
unfolding decode_inverted
decode_op op_code =
    if op_code == 0x01
    then pushed decode_hash
    else if op_code == 0x02
    then pushed decode_kv_hash
    else if op_code == 0x03
    then pushed (decode_kv false)
    else if op_code == 0x04
    then pushed (decode_kv_value_hash false)
    else if op_code == 0x05
    then pushed decode_kv_digest
    else if op_code == 0x06
    then pushed (decode_kv_ref_value_hash false)
    else if op_code == 0x07
    then pushed (decode_kv_value_hash_feature_type false)
    else if op_code == 0x20
    then pushed (decode_kv true)
    else if op_code == 0x21
    then pushed (decode_kv_value_hash true)
    else if op_code == 0x22
    then pushed (decode_kv_ref_value_hash true)
    else if op_code == 0x23
    then pushed (decode_kv_value_hash_feature_type true)
    else decode_inverted op_code

-- An op code and its operation.
unfoldable pub read_op : Read MerkOp
unfolding decode_op
read_op = do op_code ← read_u8; decode_op op_code

-- `next`, which answers `None` at the end.
unfoldable pub next : Read (Option MerkOp)
unfolding read_op
next r = if not (has_more r) then ok (none, r) else (do op ← read_op; pure (some op)) r

-- `list(decoder)`: `next` until it answers `None`.
unfoldable pub decode_all : (fuel : ℕ) → Read (List MerkOp)
unfolding next
decode_all zero = raise out_of_fuel
decode_all (suc fuel) = do
  op ← next
  elim op [ none ↦ pure [] | some o ↦ (do ops ← decode_all fuel; pure (o ∷ ops)) ]

-- An operation takes a byte at least, so one round more than there are bytes is enough.
abbrev pub result_of {ℓ} : {A : Type ℓ} → Result (A × Cursor) → Result A
result_of (ok (a, r)) = ok a
result_of (err e) = err e

unfoldable pub decode_merk_ops : Bytes → Result (List MerkOp)
unfolding decode_all
decode_merk_ops input = result_of (decode_all (length input + 1) (start input))
