-- ===== src/Merk/Nodes.antt =====
-- src/willow/grovedb/types.py: the nodes and operations of a merk proof.
use willow_sdk_python.Prelude.{ℕ, Option, none, some, Bytes}
use willow_sdk_python.Prelude.Int.{ℤ}

pub data TreeFeatureType : Type 0 where
  basic_merk_node : TreeFeatureType
  summed_merk_node : (sum : ℤ) → TreeFeatureType
  big_summed_merk_node : (sum : ℤ) → TreeFeatureType
  counted_merk_node : (count : ℕ) → TreeFeatureType
  counted_summed_merk_node : (count : ℕ) → (sum : ℤ) → TreeFeatureType

pub data MerkNode : Type 0 where
  hash_node : (hash : Bytes) → MerkNode
  kv_hash_node : (kv_hash : Bytes) → MerkNode
  kv_node : (key value : Bytes) → MerkNode
  kv_value_hash_node : (key value value_hash : Bytes) → MerkNode
  kv_digest_node : (key value_hash : Bytes) → MerkNode
  kv_ref_value_hash_node : (key value value_hash : Bytes) → MerkNode
  kv_value_hash_feature_type_node :
      (key value value_hash : Bytes) → (feature_type : TreeFeatureType) → MerkNode

pub data MerkOp : Type 0 where
  push : MerkNode → MerkOp
  push_inverted : MerkNode → MerkOp
  parent child parent_inverted child_inverted : MerkOp

-- `_get_node_key`, `Tree.get_key`
unfoldable pub key_of : MerkNode → Option Bytes
key_of (hash_node h) = none
key_of (kv_hash_node h) = none
key_of (kv_node k v) = some k
key_of (kv_value_hash_node k v h) = some k
key_of (kv_digest_node k h) = some k
key_of (kv_ref_value_hash_node k v h) = some k
key_of (kv_value_hash_feature_type_node k v h f) = some k
