-- ===== src/Merk/Tree.antt =====
-- src/willow/grovedb/tree.py: the tree that a merk proof builds.
pub mod Order
use willow_sdk_python.Prelude.{
  ℕ, zero, suc, ◌+◌, max, Bool, true, false, not, ◌&&◌, Option, none, some, List, [], ◌∷◌, ◌++◌,
  Bytes, length, ltb, if◌then◌else◌,
}
use willow_sdk_python.Prelude.Int.{ℤ, pos, negsuc, neg_of}
use willow_sdk_python.Prelude.Result.{
  Result, ok, err, ◌>>=◌, ◌>>◌, hash_has_children, left_attached, right_attached,
}
use willow_sdk_python.Hash.{
  value_hash, kv_hash, kv_digest_to_kv_hash, node_hash, combine_hash, null_hash,
}
use willow_sdk_python.Merk.Nodes.{
  MerkNode, hash_node, kv_hash_node, kv_node, kv_value_hash_node, kv_digest_node,
  kv_ref_value_hash_node, kv_value_hash_feature_type_node,
}

-- `Tree`, with its `child_heights` as two fields, and `Optional[Child]`, whose hash is cached.
mutual
  pub data Tree : Type 0 where
    tree : (node : MerkNode) → (left right : Child) → (height left_height right_height : ℕ) → Tree

  pub data Child : Type 0 where
    no_child : Child
    some_child : Tree → (hash : Bytes) → Child

-- `Tree(node)`
abbrev pub leaf : MerkNode → Tree
leaf node = tree node no_child no_child 1 0 0

abbrev pub is_child : Child → Bool
is_child no_child = false
is_child (some_child t h) = true

-- `child_hash`
unfoldable pub child_hash : Child → Bytes
child_hash no_child = null_hash
child_hash (some_child t h) = h

abbrev pub height_of : Tree → ℕ
height_of (tree n l r h hl hr) = h

-- `get_value`
unfoldable pub get_value : MerkNode → Option Bytes
get_value (kv_node k v) = some v
get_value (kv_value_hash_node k v h) = some v
get_value (kv_ref_value_hash_node k v h) = some v
get_value (kv_value_hash_feature_type_node k v h f) = some v
get_value (hash_node h) = none
get_value (kv_hash_node h) = none
get_value (kv_digest_node k h) = none

unfoldable pub has_kv : MerkNode → Bool
has_kv (hash_node h) = false
has_kv (kv_hash_node h) = false
has_kv n = true

-- `in_order`
unfoldable mutual
  pub in_order : Tree → List MerkNode
  in_order (tree node left right h hl hr) = in_order_child left ++ (node ∷ in_order_child right)

  pub in_order_child : Child → List MerkNode
  in_order_child no_child = []
  in_order_child (some_child t h) = in_order t

module _ (blake3 : Bytes → Bytes) where
  -- `get_value_hash`
  unfoldable pub get_value_hash : MerkNode → Option Bytes
  get_value_hash (kv_value_hash_node k v h) = some h
  get_value_hash (kv_digest_node k h) = some h
  get_value_hash (kv_ref_value_hash_node k v h) = some h
  get_value_hash (kv_value_hash_feature_type_node k v h f) = some h
  get_value_hash (kv_node k v) = some (value_hash blake3 v)
  get_value_hash (hash_node h) = none
  get_value_hash (kv_hash_node h) = none

  -- `_compute_kv_hash`; a Hash node has none.
  unfoldable pub compute_kv_hash : MerkNode → Result Bytes
  compute_kv_hash (hash_node h) = err hash_has_children
  compute_kv_hash (kv_hash_node h) = ok h
  compute_kv_hash (kv_node k v) = ok (kv_hash blake3 k v)
  compute_kv_hash (kv_value_hash_node k v h) = ok (kv_digest_to_kv_hash blake3 k h)
  compute_kv_hash (kv_value_hash_feature_type_node k v h f) = ok (kv_digest_to_kv_hash blake3 k h)
  compute_kv_hash (kv_digest_node k h) = ok (kv_digest_to_kv_hash blake3 k h)
  compute_kv_hash (kv_ref_value_hash_node k v h) =
      ok (kv_digest_to_kv_hash blake3 k (combine_hash blake3 h (value_hash blake3 v)))

  -- `Tree.hash`, from a node and the hashes of its children.
  unfoldable pub hash_of : MerkNode → Child → Child → Result Bytes
  unfolding compute_kv_hash child_hash
  hash_of (hash_node h) no_child no_child = ok h
  hash_of (hash_node h) no_child (some_child t k) = err hash_has_children
  hash_of (hash_node h) (some_child t k) r = err hash_has_children
  hash_of n l r = do
    kvh ← compute_kv_hash n
    ok (node_hash blake3 kvh (child_hash l) (child_hash r))

  unfoldable pub tree_hash : Tree → Result Bytes
  unfolding hash_of
  tree_hash (tree node left right h hl hr) = hash_of node left right

  -- `into_hash`
  unfoldable pub into_hash : Tree → Result Tree
  unfolding tree_hash
  into_hash t = do h ← tree_hash t; ok (leaf (hash_node h))

  abbrev pub is_hash_node : MerkNode → Bool
  is_hash_node (hash_node h) = true
  is_hash_node n = false

  -- `attach_with_height`
  unfoldable pub attach_with_height :
      (left : Bool) → Tree → (child : Tree) → (original_height : ℕ) → Result Tree
  unfolding tree_hash
  attach_with_height true (tree n l r h hl hr) child original_height =
      if is_hash_node n then err hash_has_children else if is_child l then err left_attached else do
        child_hash ← tree_hash child
        ok (tree n (some_child child child_hash) r (max h (original_height + 1)) original_height hr)
  attach_with_height false (tree n l r h hl hr) child original_height =
      if is_hash_node n
      then err hash_has_children
      else if is_child r
      then err right_attached
      else do
        child_hash ← tree_hash child
        ok (tree n l (some_child child child_hash) (max h (original_height + 1)) hl original_height)

  -- `attach`
  unfoldable pub attach : (left : Bool) → Tree → (child : Tree) → Result Tree
  unfolding attach_with_height
  attach left t child = attach_with_height left t child (height_of child)

-- The sign of `len(a) - len(b)`, and the first difference before it.
unfoldable pub compare_bytes : Bytes → Bytes → ℤ
compare_bytes [] [] = pos 0
compare_bytes [] (b ∷ bs) = negsuc (length bs)
compare_bytes (a ∷ more) [] = pos (suc (length more))
compare_bytes (a ∷ more) (b ∷ bs) =
    let later = compare_bytes more bs in
    if ltb a b then negsuc 0 else if ltb b a then pos 1 else later
