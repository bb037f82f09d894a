-- ===== src/Hash/Binding.antt =====
-- src/willow/grovedb/hash.py: two inputs of a hash function that give one hash.
use willow_sdk_python.Prelude.{
  ◌≡◌, ◌≢◌, ◌⊎◌, inl, inr, sym, ◌∙◌, ◌++◌, Bytes, length, bytes_eq, bytes_eq_iff, Bool-cases,
  append_cut, refl,
}
use willow_sdk_python.Varint.RoundTrip.{varint_bytes_prefix}
use willow_sdk_python.Hash.{value_hash, kv_hash, kv_digest_to_kv_hash, node_hash, combine_hash}

-- Two different inputs with one hash.
abbrev pub Collision : (Bytes → Bytes) → Type 0
Collision hash = (x : Bytes) × (y : Bytes) × (x ≢ y) × (hash x ≡ hash y)

-- Equal hashes come from equal inputs or are a collision.
pub same_input : (hash : Bytes → Bytes) (x y : Bytes) → hash x ≡ hash y → (x ≡ y) ⊎ Collision hash
same_input hash x y e = elim (Bool-cases (bytes_eq x y)) [
  | inl same ↦ inl ((bytes_eq_iff x y).0 same)
  | inr differ ↦ inr (x, y, (λ p. cc ((bytes_eq_iff x y).1 p)), e)
]

module _ (blake3 : Bytes → Bytes) where
  -- Two values with one value hash are equal, or BLAKE3 has a collision.
  pub value_hash_binds :
      (a b : Bytes) → value_hash blake3 a ≡ value_hash blake3 b → (a ≡ b) ⊎ Collision blake3
  unfolding value_hash
  value_hash_binds a b e = elim (same_input blake3 _ _ e) [
    | inl p ↦ inl (varint_bytes_prefix (length a) (length b) a b p).1
    | inr c ↦ inr c
  ]

  -- Two pairs of a key and a value hash with one `kv_digest_to_kv_hash` are equal, or BLAKE3 has a
  -- collision.
  pub kv_digest_binds :
      (k j u v : Bytes)
      → kv_digest_to_kv_hash blake3 k u ≡ kv_digest_to_kv_hash blake3 j v
      → ((k ≡ j) × (u ≡ v)) ⊎ Collision blake3
  unfolding kv_digest_to_kv_hash
  kv_digest_binds k j u v e = elim (same_input blake3 _ _ e) [
    | inl p ↦
        let (same, tails) = varint_bytes_prefix (length k) (length j) (k ++ u) (j ++ v) p in
        inl (append_cut k u j v same tails)
    | inr c ↦ inr c
  ]

  -- A `KV` node's hash is that of its key with the hash of its value.
  pub kv_hash-kv_digest :
      (k v : Bytes) → kv_hash blake3 k v ≡ kv_digest_to_kv_hash blake3 k (value_hash blake3 v)
  unfolding kv_hash kv_digest_to_kv_hash
  kv_hash-kv_digest k v = refl

  -- Two pairs of a key and a value with one `kv_hash` are equal, or BLAKE3 has a collision.
  pub kv_hash_binds :
      (k j u v : Bytes)
      → kv_hash blake3 k u ≡ kv_hash blake3 j v
      → ((k ≡ j) × (u ≡ v)) ⊎ Collision blake3
  kv_hash_binds k j u v e =
      elim (kv_digest_binds k j _ _ (sym (kv_hash-kv_digest k u) ∙ e ∙ kv_hash-kv_digest j v)) [
        | inl (same, values) ↦ elim (value_hash_binds u v values) [
          | inl q ↦ inl (same, q)
          | inr c ↦ inr c
        ]
        | inr c ↦ inr c
      ]

  -- Two node hashes that are equal have the same three parts, if the first parts are of one length
  -- and the second parts are of one length; or BLAKE3 has a collision.
  pub node_hash_binds :
      (k l r k' l' r' : Bytes)
      → length k ≡ length k'
      → length l ≡ length l'
      → node_hash blake3 k l r ≡ node_hash blake3 k' l' r'
      → ((k ≡ k') × (l ≡ l') × (r ≡ r')) ⊎ Collision blake3
  unfolding node_hash
  node_hash_binds k l r k' l' r' hk hl e = elim (same_input blake3 _ _ e) [
    | inl p ↦
        let (first, later) = append_cut k (l ++ r) k' (l' ++ r') hk p in
        let (second, third) = append_cut l r l' r' hl later in inl (first, second, third)
    | inr c ↦ inr c
  ]

  -- Two combined hashes that are equal have the same two parts, if the first parts are of one
  -- length; or BLAKE3 has a collision.
  pub combine_hash_binds :
      (a b a' b' : Bytes)
      → length a ≡ length a'
      → combine_hash blake3 a b ≡ combine_hash blake3 a' b'
      → ((a ≡ a') × (b ≡ b')) ⊎ Collision blake3
  unfolding combine_hash
  combine_hash_binds a b a' b' h e = elim (same_input blake3 _ _ e) [
    | inl p ↦ inl (append_cut a b a' b' h p)
    | inr c ↦ inr c
  ]
