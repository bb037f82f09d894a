-- ===== src/Verifier.antt =====
-- src/willow/grovedb/verifier.py: the checks over the layers of a proof.
--
-- The recursion over the layers hands the function that checks a layer a table of the functions that
-- check its lower layers. The messages of the exceptions are left out.
use willow_sdk_python.Prelude.{
  ℕ, zero, suc, ◌+◌, ◌≡◌, Bool, true, false, not, ◌&&◌, Option, none, some, List, [], ◌∷◌, ◌++◌,
  Bytes, length, ◌==◌, bytes_eq, if◌then◌else◌,
}
use willow_sdk_python.Prelude.Int.{ℤ, pos, negsuc}
use willow_sdk_python.Prelude.Result.{
  Result, ok, err, ◌>>=◌, ◌>>◌, bad_version, non_default_options, no_lower_layer, off_path,
  below_path, layer_mismatch, layer_of_non_tree, unproven_layer, value_unbound, no_path,
  root_mismatch,
}
use willow_sdk_python.Hash.{value_hash, combine_hash, hash_equals, null_hash, bytes_to_hex}
use willow_sdk_python.Bincode.{
  LayerProof, layer, Layers, no_layers, below, GroveDbProof, ProveOptions, decode_grovedb_proof,
}
use willow_sdk_python.Element.{Element, item, deserialize_element, is_tree_element, has_root_key}
use willow_sdk_python.Merk.Executor.{
  NodeType, kv, kv_value_hash, kv_value_hash_feature_type, kv_ref_value_hash, kv_digest,
  ProvedKeyValue, MerkExecutionResult, execute_merk_proof_with_query,
}
pub mod Envelope
pub mod Items
pub mod Leaf
pub mod Recursion
pub mod Quick

-- `lower_layers.get(key_hex)`
unfoldable pub get_layer : Bytes → Layers → Option LayerProof
get_layer key no_layers = none
get_layer key (below other l ls) = if bytes_eq other key then some l else get_layer key ls

abbrev pub count_layers : Layers → ℕ
count_layers no_layers = 0
count_layers (below key l ls) = suc (count_layers ls)

abbrev pub lower_of : LayerProof → Layers
lower_of (layer merk_proof lower_layers) = lower_layers

unfoldable pub check_prove_options : ProveOptions → Result (Unit {0})
check_prove_options o =
    if o.decrease_limit_on_empty_sub_query_result then ok tt else err non_default_options

-- The loop over the segments, and the check behind it.
unfoldable pub check_path : LayerProof → (path : List Bytes) → Result (Unit {0})
unfolding get_layer
check_path l [] = if count_layers (lower_of l) == 0 then ok tt else err below_path
check_path l (segment ∷ path) = elim (get_layer (bytes_to_hex segment) (lower_of l)) [
  | none ↦ err no_lower_layer
  | some below_it ↦ elim (count_layers (lower_of l) == 1) [
    | true ↦ check_path below_it path
    | false ↦ err off_path
  ]
]

unfoldable pub check_envelope : GroveDbProof → (expected_path : List Bytes) → Result (Unit {0})
unfolding check_path check_prove_options
check_envelope proof expected_path = if not (proof.version == 0) then err bad_version else do
  check_prove_options proof.proof.prove_options
  check_path proof.proof.root_layer expected_path

-- `_try_deserialize`
unfoldable pub try_deserialize : Bytes → Option Element
try_deserialize value = elim (deserialize_element value) [ ok e ↦ some e | err x ↦ none ]

-- A tree element, and one that has a root key.
abbrev pub is_tree : Option Element → Bool
is_tree none = false
is_tree (some e) = is_tree_element e

abbrev pub is_rooted : Option Element → Bool
is_rooted none = false
is_rooted (some e) = is_tree_element e && has_root_key e

-- `_is_ambiguous`, from the node type and the value.
unfoldable pub is_ambiguous : NodeType → Bytes → Bool
is_ambiguous kv value = length value == 63
is_ambiguous kv_ref_value_hash value = length value == 95
is_ambiguous kv_value_hash value = false
is_ambiguous kv_value_hash_feature_type value = false
is_ambiguous kv_digest value = false

-- What a caller finds of a leaf in the results.
pub record Entry : Type 0 where
  pub path : List Bytes
  pub key : Bytes
  pub value : Option Bytes
  pub element : Option Element
  pub tree : Bool
  pub node_type : NodeType
  pub ambiguous_value : Option Bytes

module _ (blake3 : Bytes → Bytes) where
  -- The part of `_bind_leaf_value` on the two value hash nodes.
  unfoldable pub bind_value_hash : (proof value : Bytes) → Option Element → Result Bool
  bind_value_hash proof value element =
      if is_rooted element
      then ok false
      else if hash_equals
          (if is_tree element
            then combine_hash blake3 (value_hash blake3 value) null_hash
            else value_hash blake3 value)
          proof
      then ok (is_tree element)
      else err value_unbound

  -- `_bind_leaf_value`
  unfoldable pub bind_leaf_value : NodeType → (proof value : Bytes) → Option Element → Result Bool
  unfolding is_ambiguous bind_value_hash
  bind_leaf_value kv proof value element = ok (not (is_ambiguous kv value))
  bind_leaf_value kv_ref_value_hash proof value element =
      ok (not (is_ambiguous kv_ref_value_hash value))
  bind_leaf_value kv_digest proof value element = ok true
  bind_leaf_value kv_value_hash proof value element = bind_value_hash proof value element
  bind_leaf_value kv_value_hash_feature_type proof value element =
      bind_value_hash proof value element
