-- ===== src/Merk/Executor.antt =====
-- src/willow/grovedb/executor.py: the stack machine that runs the operations of a merk proof.
--
-- The stack is a list with its top in front. The operations are decoded before they run, where the
-- code decodes each when it is due: a proof that fails raises the same exception class either way.
pub mod Ordering
pub mod Shown
use willow_sdk_python.Prelude.{
  ℕ, zero, suc, ◌+◌, ◌-◌, max, min, Bool, true, false, not, ◌&&◌, ◌||◌, Option, none, some, List,
  [], ◌∷◌, ◌++◌, Bytes, length, ltb, leb, ◌==◌, if◌then◌else◌,
}
use willow_sdk_python.Prelude.Int.{ℤ, pos, negsuc}
use willow_sdk_python.Prelude.Result.{
  Result, ok, err, ◌>>=◌, ◌>>◌, stack_underflow, key_order, key_order_inverted, not_one_item,
  not_balanced,
}
use willow_sdk_python.Hash.{value_hash}
use willow_sdk_python.Merk.Nodes.{
  MerkNode, hash_node, kv_hash_node, kv_node, kv_value_hash_node, kv_digest_node,
  kv_ref_value_hash_node, kv_value_hash_feature_type_node, MerkOp, push, push_inverted, key_of,
}
use willow_sdk_python.Merk.Decoder.{decode_merk_ops}
use willow_sdk_python.Merk.Tree.{
  Tree, tree, Child, leaf, height_of, tree_hash, into_hash, attach_with_height, compare_bytes,
}

-- The merk nodes that a proof's results come from, by their names in `node_type`.
pub data NodeType : Type 0 where
  kv kv_value_hash kv_value_hash_feature_type kv_ref_value_hash kv_digest : NodeType

pub record ProvedKeyValue : Type 0 where
  pub key : Bytes
  pub value : Option Bytes
  pub proof : Bytes
  pub node_type : NodeType

pub record MerkExecutionResult : Type 0 where
  pub root_hash : Bytes
  pub result_set : List ProvedKeyValue
  pub limit : Option ℤ

-- The local variables of `execute_ops`, and the nodes that it has shown to `visit_node`, first to
-- last.
pub record Machine : Type 0 where
  pub stack : List Tree
  pub last_key : Option Bytes
  pub visited : List MerkNode

abbrev pub initial : Machine
initial = record { stack = []; last_key = none; visited = [] }

-- `compare_bytes(key, last_key) <= 0`, and `>= 0`
abbrev pub le_zero : ℤ → Bool
le_zero (pos n) = n == 0
le_zero (negsuc n) = true

abbrev pub ge_zero : ℤ → Bool
ge_zero (pos n) = true
ge_zero (negsuc n) = false

-- Whether a key breaks the order against the last key pushed.
abbrev pub breaks_order : (inverted : Bool) → Option Bytes → Option Bytes → Bool
breaks_order inverted none last = false
breaks_order inverted (some key) none = false
breaks_order false (some key) (some last) = le_zero (compare_bytes key last)
breaks_order true (some key) (some last) = ge_zero (compare_bytes key last)

abbrev pub or_last : Option Bytes → Option Bytes → Option Bytes
or_last none last = last
or_last (some key) last = some key

module _ (blake3 : Bytes → Bytes) where
  -- A push, either way.
  unfoldable pub push_node : (inverted : Bool) → MerkNode → Machine → Result Machine
  push_node inverted node m =
      if breaks_order inverted (key_of node) m.last_key
      then err (if inverted then key_order_inverted else key_order)
      else ok (record {
        stack = leaf node ∷ m.stack;
        last_key = or_last (key_of node) m.last_key;
        visited = m.visited ++ (node ∷ []);
      })

  -- `child.into_hash() if collapse else child`
  unfoldable pub collapsed : (collapse : Bool) → Tree → Result Tree
  unfolding into_hash
  collapsed true child = into_hash blake3 child
  collapsed false child = ok child

  -- Attaches a child and pushes the parent back.
  unfoldable pub join :
      (collapse left : Bool) → (parent child : Tree) → List Tree → Machine → Result Machine
  unfolding collapsed attach_with_height
  join collapse left parent child later m = do
    child_to_attach ← collapsed collapse child
    joined ← attach_with_height blake3 left parent child_to_attach (height_of child_to_attach)
    ok (record m { stack = joined ∷ later })

  -- The operations that pop the parent first, and those that pop the child first.
  unfoldable pub join_parent : (collapse left : Bool) → List Tree → Machine → Result Machine
  unfolding join
  join_parent collapse left (parent ∷ child ∷ later) m = join collapse left parent child later m
  join_parent collapse left (parent ∷ []) m = err stack_underflow
  join_parent collapse left [] m = err stack_underflow

  unfoldable pub join_child : (collapse left : Bool) → List Tree → Machine → Result Machine
  unfolding join
  join_child collapse left (child ∷ parent ∷ later) m = join collapse left parent child later m
  join_child collapse left (child ∷ []) m = err stack_underflow
  join_child collapse left [] m = err stack_underflow

  -- The body of the loop.
  unfoldable pub step : (collapse : Bool) → MerkOp → Machine → Result Machine
  unfolding push_node join_parent join_child
  step collapse (push node) m = push_node false node m
  step collapse (push_inverted node) m = push_node true node m
  step collapse MerkOp.parent m = join_parent collapse true m.stack m
  step collapse MerkOp.child m = join_child collapse false m.stack m
  step collapse MerkOp.parent_inverted m = join_parent collapse false m.stack m
  step collapse MerkOp.child_inverted m = join_child collapse true m.stack m

  unfoldable pub run : (collapse : Bool) → List MerkOp → Machine → Result Machine
  unfolding step
  run collapse [] m = ok m
  run collapse (op ∷ ops) m = do m' ← step collapse op m; run collapse ops m'

  -- `abs(child_heights[0] - child_heights[1]) > 1`
  abbrev pub is_unbalanced : Tree → Bool
  is_unbalanced (tree n l r h hl hr) = ltb 1 (max hl hr - min hl hr)

  -- The checks behind the loop.
  unfoldable pub finish : List Tree → Result Tree
  finish (t ∷ []) = if is_unbalanced t then err not_balanced else ok t
  finish [] = err not_one_item
  finish (t ∷ u ∷ ts) = err not_one_item

  -- The tree, and the nodes shown to `visit_node`.
  unfoldable pub execute_ops : (collapse : Bool) → List MerkOp → Result (Tree × List MerkNode)
  unfolding run finish
  execute_ops collapse ops = do m ← run collapse ops initial; t ← finish m.stack; ok (t, m.visited)

  unfoldable pub execute_merk_proof : (collapse : Bool) → Bytes → Result Tree
  unfolding execute_ops
  execute_merk_proof collapse proof_bytes = do
    ops ← decode_merk_ops proof_bytes
    (t, visited) ← execute_ops collapse ops
    ok t

  -- What a visited node adds to the results.
  unfoldable pub proved_of : MerkNode → Option ProvedKeyValue
  proved_of (kv_node k v) =
      some (record { key = k; value = some v; proof = value_hash blake3 v; node_type = kv })
  proved_of (kv_value_hash_node k v h) =
      some (record { key = k; value = some v; proof = h; node_type = kv_value_hash })
  proved_of (kv_value_hash_feature_type_node k v h f) =
      some (record { key = k; value = some v; proof = h; node_type = kv_value_hash_feature_type })
  proved_of (kv_ref_value_hash_node k v h) =
      some (record { key = k; value = some v; proof = h; node_type = kv_ref_value_hash })
  proved_of (kv_digest_node k h) =
      some (record { key = k; value = none; proof = h; node_type = kv_digest })
  proved_of (hash_node h) = none
  proved_of (kv_hash_node h) = none

  -- A digest, which has no value, does not count against the limit; the limit may be negative.
  abbrev pub counts : ProvedKeyValue → Bool
  counts p = elim p.node_type [ kv_digest ↦ false | _ ↦ true ]

  abbrev pub is_spent : Option ℤ → Bool
  is_spent none = false
  is_spent (some limit) = le_zero limit

  abbrev pub spend : Bool → Option ℤ → Option ℤ
  spend true (some (pos (suc n))) = some (pos n)
  spend true (some (pos zero)) = some (negsuc 0)
  spend true (some (negsuc n)) = some (negsuc (suc n))
  spend b limit = limit

  -- `visit_node`, over the nodes visited.
  unfoldable pub collect : (limit : Option ℤ) → List MerkNode → List ProvedKeyValue × Option ℤ
  unfolding proved_of
  collect limit [] = ([], limit)
  collect limit (node ∷ nodes) = elim (is_spent limit) [
    | true ↦ collect limit nodes
    | false ↦ elim (proved_of node) [
      | none ↦ collect limit nodes
      | some p ↦ (let (found, left) = collect (spend (counts p) limit) nodes in (p ∷ found, left))
    ]
  ]

  unfoldable pub execute_merk_proof_with_query :
      Bytes → (limit : Option ℤ) → Result MerkExecutionResult
  unfolding execute_ops collect tree_hash
  execute_merk_proof_with_query proof_bytes limit = do
    ops ← decode_merk_ops proof_bytes
    (t, visited) ← execute_ops true ops
    let (found, left) = collect limit visited
    root_hash ← tree_hash blake3 t
    ok (record { root_hash = root_hash; result_set = found; limit = left })
