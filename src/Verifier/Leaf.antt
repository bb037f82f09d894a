-- ===== src/Verifier/Leaf.antt =====
-- src/willow/grovedb/verifier.py, `_bind_leaf_value`: the values that a layer's nodes bind.
use willow_sdk_python.Prelude.{
  ◌≡◌, sym, arith, true, false, Option, Bytes, length, Bool-cases, inl, inr, bytes_eq_iff,
}
use willow_sdk_python.Prelude.Result.{ok, ok-injective}
use willow_sdk_python.Hash.{value_hash, combine_hash, node_hash, hash_equals, null_hash}
use willow_sdk_python.Hash.Binding.{Collision}
use willow_sdk_python.Hash.Ambiguity.{value_hash-combine_hash, value_hash-node_hash}
use willow_sdk_python.Element.{Element}
use willow_sdk_python.Merk.Executor.{kv, kv_ref_value_hash}
use willow_sdk_python.Verifier.{is_ambiguous, is_tree, is_rooted, bind_value_hash, bind_leaf_value}

module _ (blake3 : Bytes → Bytes) (proof value : Bytes) (element : Option Element) where
  -- The value of a `KV` node that is taken as bound is not one whose value hash combines two 32-byte
  -- hashes, as that of a subtree does; or BLAKE3 has a collision.
  pub bound_kv_not_subtree :
      (a b : Bytes)
      → length a ≡ 32
      → length b ≡ 32
      → bind_leaf_value blake3 kv proof value element ≡ ok true
      → value_hash blake3 value ≡ combine_hash blake3 a b
      → Collision blake3
  unfolding bind_leaf_value is_ambiguous
  bound_kv_not_subtree a b ha hb bound e = elim (value_hash-combine_hash blake3 value a b ha hb e) [
    | inl size ↦ absurd (ground (arith, size, ok-injective bound))
    | inr c ↦ c
  ]

  -- The referenced value of a `KVRefValueHash` node that is taken as bound is not one whose value hash
  -- is that of a merk node over three 32-byte hashes, as the root of a subtree is; or BLAKE3 has a
  -- collision.
  pub bound_reference_not_root :
      (k l r : Bytes)
      → length k ≡ 32
      → length l ≡ 32
      → length r ≡ 32
      → bind_leaf_value blake3 kv_ref_value_hash proof value element ≡ ok true
      → value_hash blake3 value ≡ node_hash blake3 k l r
      → Collision blake3
  unfolding bind_leaf_value is_ambiguous
  bound_reference_not_root k l r hk hl hr bound e =
      elim (value_hash-node_hash blake3 value k l r hk hl hr e) [
        | inl size ↦ absurd (ground (arith, size, ok-injective bound))
        | inr c ↦ c
      ]

  -- The value of a value hash node that is taken as bound reads as a tree element with no root key, and
  -- the node's hash is that of the value and the null hash combined.
  pub bound_value_hash_is_empty_subtree :
      bind_value_hash blake3 proof value element ≡ ok true
      → (is_tree element ≡ true)
        × (is_rooted element ≡ false)
        × (proof ≡ combine_hash blake3 (value_hash blake3 value) null_hash)
  unfolding bind_value_hash hash_equals
  bound_value_hash_is_empty_subtree bound = elim (Bool-cases (is_rooted element)) [
    | inl rooted ↦ cc (ok-injective (rw rooted at bound))
    | inr rootless ↦ elim (Bool-cases (is_tree element)) [
      | inl tree ↦
          elim (Bool-cases
            (hash_equals (combine_hash blake3 (value_hash blake3 value) null_hash) proof)) [
              | inl same ↦ (tree, rootless, sym ((bytes_eq_iff _ proof).0 (ground arith)))
              | inr differ ↦ cc (rw (rootless, tree, differ) at bound)
            ]
      | inr leaf ↦ elim (Bool-cases (hash_equals (value_hash blake3 value) proof)) [
        | inl same ↦ cc (ok-injective (rw (rootless, leaf, same) at bound))
        | inr differ ↦ cc (rw (rootless, leaf, differ) at bound)
      ]
    ]
  ]
