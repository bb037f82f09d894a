-- ===== src/Hash/Ambiguity.antt =====
-- src/willow/grovedb/hash.py: value hashes against the hashes of the other forms.
use willow_sdk_python.Prelude.{
  ℕ, suc, ◌<◌, ◌≡◌, ◌⊎◌, inl, inr, ap, arith, ◌++◌, ◌∷◌, Bytes, length, length-append, take, drop,
  take-append-drop, ltb, ltb→lt, Bool-cases, sym,
}
use willow_sdk_python.Varint.{varint_bytes}
use willow_sdk_python.Varint.Groups.{varint_bytes_small, one-le-length-varint_bytes}
use willow_sdk_python.Hash.{value_hash, combine_hash, node_hash}
use willow_sdk_python.Hash.Binding.{Collision, same_input}

-- The length prefix of a value shorter than 128 bytes is one byte, and a longer value is too long.
input_length :
    (n : ℕ) (v whole : Bytes)
    → n < 128
    → varint_bytes (length v) ++ v ≡ whole
    → length whole ≡ suc n
    → length v ≡ n
input_length n v whole small e h = elim (Bool-cases (ltb (length v) 128)) [
  | inl short ↦
      omega (arith, h, ap length (rw (varint_bytes_small (length v) (ltb→lt _ _ short)) at e))
  | inr long ↦ absurd (
      ground (
        arith,
        ap length e,
        length-append (varint_bytes (length v)) v,
        one-le-length-varint_bytes (length v),
      ))
]

module _ (blake3 : Bytes → Bytes) where
  -- A value hash equals the hash of two 32-byte hashes only for a value of 63 bytes, or BLAKE3 has a
  -- collision.
  pub value_hash-combine_hash :
      (v a b : Bytes)
      → length a ≡ 32
      → length b ≡ 32
      → value_hash blake3 v ≡ combine_hash blake3 a b
      → (length v ≡ 63) ⊎ Collision blake3
  unfolding value_hash combine_hash
  value_hash-combine_hash v a b ha hb e = elim (same_input blake3 _ _ e) [
    | inl p ↦ inl (input_length 63 v (a ++ b) (omega arith) p (omega (arith, length-append a b)))
    | inr c ↦ inr c
  ]

  -- Every value of 63 bytes has the value hash of two 32-byte strings combined.
  pub value_hash_of_63 :
      (v : Bytes)
      → length v ≡ 63
      → value_hash blake3 v ≡ combine_hash blake3 (63 ∷ take 31 v) (drop 31 v)
  unfolding value_hash combine_hash
  value_hash_of_63 v h =
      rw (h, varint_bytes_small 63 (omega arith))
        (ap (λ (t : Bytes). blake3 (63 ∷ t)) (sym (take-append-drop 31 v)))

  -- A value hash equals the hash of a node, over three 32-byte hashes, only for a value of 95 bytes,
  -- or BLAKE3 has a collision.
  pub value_hash-node_hash :
      (v k l r : Bytes)
      → length k ≡ 32
      → length l ≡ 32
      → length r ≡ 32
      → value_hash blake3 v ≡ node_hash blake3 k l r
      → (length v ≡ 95) ⊎ Collision blake3
  unfolding value_hash node_hash
  value_hash-node_hash v k l r hk hl hr e = elim (same_input blake3 _ _ e) [
    | inl p ↦ inl (
        input_length 95 v (k ++ (l ++ r)) (omega arith) p
          (omega (arith, length-append k (l ++ r), length-append l r)))
    | inr c ↦ inr c
  ]
