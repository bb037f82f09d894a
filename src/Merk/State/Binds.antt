-- ===== src/Merk/State/Binds.antt =====
-- The shapes of src/willow/grovedb's merk proofs against a state: what one hash for both says of the
-- nodes that the proof shows.
use willow_sdk_python.Prelude.{◌≡◌, refl, ◌⊎◌, inl, inr, ap, sym, ◌∙◌, Bytes, length}
use willow_sdk_python.Prelude.Result.{ok, ok-injective}
use willow_sdk_python.Hash.{value_hash, kv_hash, combine_hash, node_hash, kv_digest_to_kv_hash}
use willow_sdk_python.Hash.Binding.{node_hash_binds}
use willow_sdk_python.Merk.Nodes.{
  MerkNode, hash_node, kv_hash_node, kv_node, kv_value_hash_node, kv_digest_node,
  kv_ref_value_hash_node, kv_value_hash_feature_type_node,
}
use willow_sdk_python.Merk.Tree.{compute_kv_hash}
use willow_sdk_python.Merk.Shape.{
  Shape, node, Shows, SizedNode, AllSized, HashesTo, nothing, opaque, inner,
}
use willow_sdk_python.Merk.State.{
  Grove, empty, entry, Stored, plain, reference, subtree, Holds, grove_hash, stored_hash, Broken,
}

module _ (blake3 : Bytes → Bytes) (digest_length : (x : Bytes) → length (blake3 x) ≡ 32) where
  pub length-stored_hash : (v : Stored) → length (stored_hash blake3 v) ≡ 32
  unfolding stored_hash value_hash combine_hash
  length-stored_hash (plain e) = digest_length _
  length-stored_hash (reference e v) = digest_length _
  length-stored_hash (subtree e g) = digest_length _

  pub length-grove_hash : (g : Grove) → length (grove_hash blake3 g) ≡ 32
  unfolding grove_hash node_hash
  length-grove_hash empty = refl
  length-grove_hash (entry k v l r) = digest_length _

  length-kv_digest : (k h : Bytes) → length (kv_digest_to_kv_hash blake3 k h) ≡ 32
  unfolding kv_digest_to_kv_hash
  length-kv_digest k h = digest_length _

  length-compute_kv_hash :
      (n : MerkNode) (h : Bytes) → SizedNode n → compute_kv_hash blake3 n ≡ ok h → length h ≡ 32
  unfolding compute_kv_hash kv_hash
  length-compute_kv_hash (hash_node j) h z e = cc
  length-compute_kv_hash (kv_hash_node j) h z e = ap length (sym (ok-injective e)) ∙ z
  length-compute_kv_hash (kv_node k v) h z e = ap length (sym (ok-injective e)) ∙ digest_length _
  length-compute_kv_hash (kv_value_hash_node k v j) h z e =
      ap length (sym (ok-injective e)) ∙ length-kv_digest k j
  length-compute_kv_hash (kv_digest_node k j) h z e =
      ap length (sym (ok-injective e)) ∙ length-kv_digest k j
  length-compute_kv_hash (kv_ref_value_hash_node k v j) h z e =
      ap length (sym (ok-injective e)) ∙ length-kv_digest k _
  length-compute_kv_hash (kv_value_hash_feature_type_node k v j f) h z e =
      ap length (sym (ok-injective e)) ∙ length-kv_digest k j

  pub length-HashesTo : (s : Shape) (h : Bytes) → HashesTo blake3 s h → AllSized s → length h ≡ 32
  unfolding node_hash
  length-HashesTo s h nothing z = refl
  length-HashesTo s h (opaque j) z = z.0
  length-HashesTo s h (inner n l r kvh hl hr e pl pr) z = digest_length _

  -- A node stands in the state: it shows a hash alone, or it has the hash of an entry that is there.
  abbrev pub Found : MerkNode → Grove → Type 0
  Found n g =
      ((h : Bytes) × (n ≡ hash_node h))
      ⊎ ((k : Bytes) × (v : Stored) × Holds k v g
          × (compute_kv_hash blake3 n ≡ ok (kv_digest_to_kv_hash blake3 k (stored_hash blake3 v))))

  Found-left :
      (n : MerkNode) (k : Bytes) (v : Stored) (l r : Grove) → Found n l → Found n (entry k v l r)
  Found-left n k v l r (inl h) = inl h
  Found-left n k v l r (inr (j, w, held, e)) = inr (j, w, inr (inl held), e)

  Found-right :
      (n : MerkNode) (k : Bytes) (v : Stored) (l r : Grove) → Found n r → Found n (entry k v l r)
  Found-right n k v l r (inl h) = inl h
  Found-right n k v l r (inr (j, w, held, e)) = inr (j, w, inr (inr held), e)

  abbrev AllFound : Shape → Grove → Type 0
  AllFound s g = (n : MerkNode) → Shows n s → Found n g

  AllFound-node :
      (n : MerkNode) (l r : Shape) (k : Bytes) (v : Stored) (gl gr : Grove)
      → compute_kv_hash blake3 n ≡ ok (kv_digest_to_kv_hash blake3 k (stored_hash blake3 v))
      → AllFound l gl
      → AllFound r gr
      → AllFound (node n l r) (entry k v gl gr)
  AllFound-node n l r k v gl gr e fl fr m (inl same) =
      inr (k, v, inl (refl, refl), ap (compute_kv_hash blake3) same ∙ e)
  AllFound-node n l r k v gl gr e fl fr m (inr (inl h)) = Found-left m k v gl gr (fl m h)
  AllFound-node n l r k v gl gr e fl fr m (inr (inr h)) = Found-right m k v gl gr (fr m h)

  -- A shape whose hashes are 32 bytes, with the hash of a state's merk tree: every node that it shows
  -- stands in that tree, or BLAKE3 is broken.
  pub shape_binds :
      (s : Shape) (g : Grove) (h : Bytes)
      → HashesTo blake3 s h
      → AllSized s
      → h ≡ grove_hash blake3 g
      → Broken blake3 ⊎ AllFound s g
  unfolding grove_hash node_hash
  shape_binds s g h nothing z e = inr (λ n x. absurd x)
  shape_binds s g h (opaque j) z e =
      inr (λ n x. elim x [
        | inl same ↦ inl (j, same)
        | inr (inl y) ↦ absurd y
        | inr (inr y) ↦ absurd y
      ])
  shape_binds s empty h (inner n l r kvh hl hr computed pl pr) z e = inl (inr (_, e))
  shape_binds s (entry k v gl gr) h (inner n l r kvh hl hr computed pl pr) (z, zl, zr) e =
      elim (node_hash_binds blake3 kvh hl hr _ _ _
        (length-compute_kv_hash n kvh z computed ∙ sym (length-kv_digest k _))
        (length-HashesTo l hl pl zl ∙ sym (length-grove_hash gl)) e) [
          | inr c ↦ inl (inl c)
          | inl (same, left, right) ↦ elim (shape_binds l gl hl pl zl left) [
            | inl b ↦ inl b
            | inr fl ↦ elim (shape_binds r gr hr pr zr right) [
              | inl b ↦ inl b
              | inr fr ↦ inr (AllFound-node n l r k v gl gr (computed ∙ ap ok same) fl fr)
            ]
          ]
        ]
