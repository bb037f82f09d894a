-- ===== src/Tests/Hash.antt =====
-- src/willow/grovedb/hash.py on small inputs, with the identity in place of BLAKE3.
use willow_sdk_python.Prelude.{
  ◌≡◌, ◌⊎◌, refl, arith, [], ◌∷◌, Bytes, length, replicate, take, drop, if◌then◌else◌, ◌==◌,
}
use willow_sdk_python.Prelude.Result.{ok, err, bad_hex_length}
use willow_sdk_python.Varint.{varint_bytes}
use willow_sdk_python.Hash.{value_hash, node_hash, combine_hash, hash_to_hex, hex_to_hash}
use willow_sdk_python.Hash.Binding.{Collision, kv_hash_binds}
use willow_sdk_python.Hash.Ambiguity.{
  value_hash-combine_hash, value_hash_of_63, value_hash-node_hash,
}
use willow_sdk_python.Hash.Hex.{hex_to_hash-hash_to_hex}

abbrev identity : Bytes → Bytes
identity b = b

abbrev key : Bytes
key = 1 ∷ 2 ∷ []

abbrev value_63 : Bytes
value_63 = replicate 63 7

abbrev value_95 : Bytes
value_95 = replicate 95 7

abbrev hash_7 : Bytes
hash_7 = replicate 32 7

value_hash-combine_hash_example : (length value_63 ≡ 63) ⊎ Collision identity
unfolding value_hash combine_hash varint_bytes
value_hash-combine_hash_example =
    value_hash-combine_hash identity value_63 (63 ∷ replicate 31 7) hash_7 refl refl refl

value_hash_of_63_example :
    value_hash identity value_63 ≡ combine_hash identity (63 ∷ take 31 value_63) (drop 31 value_63)
value_hash_of_63_example = value_hash_of_63 identity value_63 refl

value_hash-node_hash_example : (length value_95 ≡ 95) ⊎ Collision identity
unfolding value_hash node_hash varint_bytes
value_hash-node_hash_example =
    value_hash-node_hash identity value_95 (95 ∷ replicate 31 7) hash_7 hash_7 refl refl refl refl

kv_hash_binds_example : ((key ≡ 1 ∷ 2 ∷ []) × (value_63 ≡ value_63)) ⊎ Collision identity
kv_hash_binds_example = kv_hash_binds identity key (1 ∷ 2 ∷ []) value_63 value_63 refl

hex_to_hash-hash_to_hex_example :
    hex_to_hash (hash_to_hex (0 ∷ 0xfe ∷ []))
    ≡ (if 2 == 32 then ok (0 ∷ 0xfe ∷ []) else err bad_hex_length)
hex_to_hash-hash_to_hex_example =
    hex_to_hash-hash_to_hex (0 ∷ 0xfe ∷ []) (omega arith, (omega arith, tt))
