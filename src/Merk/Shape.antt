-- ===== src/Merk/Shape.antt =====
-- The trees that merk proofs stand for: a node with all that a proof shows below it. A tree of
-- src/willow/grovedb/tree.py keeps of a child that was collapsed its hash alone.
pub mod Attach
use willow_sdk_python.Prelude.{
  ℕ, ◌≡◌, refl, ◌⊎◌, inl, inr, ap, sym, ◌∙◌, List, [], ◌∷◌, Bytes, length, subst,
}
use willow_sdk_python.Prelude.Result.{◌>>=◌, Result, ok, err, ok-injective, >>=-eq-ok}
use willow_sdk_python.Hash.{node_hash, null_hash}
use willow_sdk_python.Merk.Nodes.{
  MerkNode, hash_node, kv_hash_node, kv_node, kv_value_hash_node, kv_digest_node,
  kv_ref_value_hash_node, kv_value_hash_feature_type_node,
}
use willow_sdk_python.Merk.Tree.{
  Tree, tree, Child, no_child, some_child, child_hash, compute_kv_hash, hash_of, tree_hash, leaf,
}

pub data Shape : Type 0 where
  absent : Shape
  node : (n : MerkNode) → (left right : Shape) → Shape

-- A node stands in a shape.
abbrev pub Shows : MerkNode → Shape → Type 0
Shows n absent = ⊥
Shows n (node m l r) = (n ≡ m) ⊎ (Shows n l ⊎ Shows n r)

-- The hashes that a node carries in place of what is below it have their length.
abbrev pub SizedNode : MerkNode → Type 0
SizedNode (hash_node h) = length h ≡ 32
SizedNode (kv_hash_node h) = length h ≡ 32
SizedNode (kv_ref_value_hash_node k v h) = length h ≡ 32
SizedNode n = Unit {0}

abbrev pub AllSized : Shape → Type 0
AllSized absent = Unit {0}
AllSized (node n l r) = SizedNode n × AllSized l × AllSized r

module _ (blake3 : Bytes → Bytes) where
  -- The hash of a shape: of a `Hash` node its own, of any other node that of its parts.
  pub data HashesTo : Shape → Bytes → Type 0 where
    nothing : HashesTo absent null_hash
    opaque : (h : Bytes) → HashesTo (node (hash_node h) absent absent) h
    inner :
        (n : MerkNode) (l r : Shape) (kvh hl hr : Bytes)
        → compute_kv_hash blake3 n ≡ ok kvh
        → HashesTo l hl
        → HashesTo r hr
        → HashesTo (node n l r) (node_hash blake3 kvh hl hr)

  -- A child has the hash of the shape that it stands for.
  abbrev pub RepChild : Child → Shape → Type 0
  RepChild no_child s = s ≡ absent
  RepChild (some_child t h) s = HashesTo s h

  pub data Rep : Tree → Shape → Type 0 where
    rep :
        (n : MerkNode) (l r : Child) (h hl hr : ℕ) (sl sr : Shape)
        → RepChild l sl
        → RepChild r sr
        → Rep (tree n l r h hl hr) (node n sl sr)

  pub Rep-leaf : (n : MerkNode) → Rep (leaf n) (node n absent absent)
  Rep-leaf n = rep n no_child no_child 1 0 0 absent absent refl refl

  child-HashesTo : (c : Child) (s : Shape) → RepChild c s → HashesTo s (child_hash c)
  unfolding child_hash
  child-HashesTo no_child s e = subst (λ (x : Shape). HashesTo x null_hash) (sym e) nothing
  child-HashesTo (some_child t h) s p = p

  -- The two ways that a tree hash comes about.
  abbrev Hashed : MerkNode → Child → Child → Bytes → Type 0
  Hashed n l r h =
      ((n ≡ hash_node h) × (l ≡ no_child) × (r ≡ no_child))
      ⊎ ((kvh : Bytes) × (compute_kv_hash blake3 n ≡ ok kvh)
          × (h ≡ node_hash blake3 kvh (child_hash l) (child_hash r)))

  by_parts :
      (n : MerkNode) (l r : Child) (h : Bytes) (x : Result Bytes)
      → compute_kv_hash blake3 n ≡ x
      → (x >>= λ kvh. ok (node_hash blake3 kvh (child_hash l) (child_hash r))) ≡ ok h
      → Hashed n l r h
  by_parts n l r h (ok kvh) e p = inr (kvh, e, sym (ok-injective p))
  by_parts n l r h (err x) e p = cc

  hash_of-Hashed :
      (n : MerkNode) (l r : Child) (h : Bytes) → hash_of blake3 n l r ≡ ok h → Hashed n l r h
  unfolding hash_of
  hash_of-Hashed (hash_node k) no_child no_child h e =
      inl (ap hash_node (ok-injective e), refl, refl)
  hash_of-Hashed (hash_node k) no_child (some_child t j) h e = cc
  hash_of-Hashed (hash_node k) (some_child t j) r h e = cc
  hash_of-Hashed (kv_hash_node k) l r h e = by_parts (kv_hash_node k) l r h _ refl e
  hash_of-Hashed (kv_node k v) l r h e = by_parts (kv_node k v) l r h _ refl e
  hash_of-Hashed (kv_value_hash_node k v j) l r h e =
      by_parts (kv_value_hash_node k v j) l r h _ refl e
  hash_of-Hashed (kv_digest_node k j) l r h e = by_parts (kv_digest_node k j) l r h _ refl e
  hash_of-Hashed (kv_ref_value_hash_node k v j) l r h e =
      by_parts (kv_ref_value_hash_node k v j) l r h _ refl e
  hash_of-Hashed (kv_value_hash_feature_type_node k v j f) l r h e =
      by_parts (kv_value_hash_feature_type_node k v j f) l r h _ refl e

  -- The hash that the code computes for a tree is that of the shape it stands for.
  pub Rep-HashesTo :
      {t : Tree} {s : Shape} (h : Bytes) → Rep t s → tree_hash blake3 t ≡ ok h → HashesTo s h
  unfolding tree_hash
  Rep-HashesTo h (rep n l r height hl hr sl sr pl pr) e = elim (hash_of-Hashed n l r h e) [
    | inl (same, no_left, no_right) ↦
        let left : sl ≡ absent = rw no_left at pl in
        let right : sr ≡ absent = rw no_right at pr in rw (same, left, right) (opaque h)
    | inr (kvh, computed, parts) ↦ rw parts (
        inner n sl sr kvh (child_hash l) (child_hash r) computed (child-HashesTo l sl pl)
          (child-HashesTo r sr pr))
  ]
