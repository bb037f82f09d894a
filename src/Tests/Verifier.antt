-- ===== src/Tests/Verifier.antt =====
-- src/willow/grovedb/verifier.py on small proofs, with the identity or a constant in place of BLAKE3.
use willow_sdk_python.Prelude.{
  subst, inl, inr, ◌⊎◌, arith, ℕ, ◌≡◌, refl, true, false, none, some, List, [], ◌∷◌, ◌++◌, Bytes,
  All, replicate,
}
use willow_sdk_python.Prelude.Result.{ok}
use willow_sdk_python.Varint.{varint_bytes}
use willow_sdk_python.Hash.{
  hash_equals, kv_hash, value_hash, combine_hash, node_hash, null_hash, bytes_to_hex,
}
use willow_sdk_python.Hash.Binding.{Collision}
use willow_sdk_python.Cursor.{◌>>=◌, pure, refuse_if, has_more, read_u8, read_u16, read_raw_bytes}
use willow_sdk_python.Bincode.{
  put_layer, read_varint, read_bytes, read_bool, read_option_tag, at_end, decode_layer_proof,
  decode_prove_options, decode_grovedb_proof_v0, decode_grovedb_proof, LayerProof, layer, no_layers,
  below, GroveDbProof,
}
use willow_sdk_python.Element.{
  deserialize_element, read_element, read_item, read_tree, read_option_bytes, is_tree_element,
  has_root_key, item,
}
use willow_sdk_python.Merk.Nodes.{key_of}
use willow_sdk_python.Merk.Decoder.{
  decode_merk_ops, decode_kv, decode_kv_value_hash, read_key, read_value,
}
use willow_sdk_python.Merk.State.Layer.{Backed, execute_merk_proof_with_query_binds}
use willow_sdk_python.Merk.Executor.{MerkExecutionResult, kv, execute_merk_proof_with_query}
use willow_sdk_python.Verifier.{Entry, check_envelope, bind_leaf_value}
use willow_sdk_python.Verifier.Envelope.{Descends, check_envelope-Descends}
use willow_sdk_python.Verifier.Leaf.{bound_kv_not_subtree, bound_reference_not_root}
use willow_sdk_python.Verifier.Recursion.{check_layer, verify_grovedb_proof}
use willow_sdk_python.Verifier.Items.{ProvenItem, verify_items_at_path, verify_item_at_path}
use willow_sdk_python.Verifier.Items.Sound.{
  IsStored, ItemsOnly, verify_items_at_path-IsStored, verify_item_at_path-StoredAt,
}
use willow_sdk_python.Verifier.Recursion.Stored.{ClearTo, StoredAt}
use willow_sdk_python.Merk.State.{
  Grove, empty, entry, Stored, plain, subtree, Holds, Reaches, top, into, grove_hash, Broken,
}
use willow_sdk_python.Verifier.Items.Proven.{IsProven, verify_items_at_path-IsProven}
use willow_sdk_python.Verifier.Recursion.Bound.{AllBound, verify_grovedb_proof-AllBound}

abbrev identity : Bytes → Bytes
identity b = b

abbrev pub constant : Bytes → Bytes
constant b = replicate 32 0

abbrev one_layer : LayerProof
one_layer = layer (1 ∷ []) (below (bytes_to_hex (0xab ∷ [])) (layer (2 ∷ []) no_layers) no_layers)

abbrev envelope : GroveDbProof
envelope = record {
  version = 0;
  proof = record {
    root_layer = one_layer;
    prove_options = record { decrease_limit_on_empty_sub_query_result = true };
  };
}

envelope_passes : check_envelope envelope ((0xab ∷ []) ∷ []) ≡ ok tt
unfolding check_envelope bytes_to_hex
envelope_passes = refl

abbrev version_of : ℕ
version_of = 0

check_envelope-Descends_example :
    (version_of ≡ 0) × (true ≡ true) × Descends one_layer ((0xab ∷ []) ∷ [])
check_envelope-Descends_example =
    check_envelope-Descends envelope ((0xab ∷ []) ∷ []) envelope_passes

abbrev short : Bytes
short = 5 ∷ 6 ∷ []

abbrev hash : Bytes
hash = replicate 32 9

bound_kv_not_subtree_example : Collision constant
unfolding bind_leaf_value value_hash combine_hash
bound_kv_not_subtree_example =
    bound_kv_not_subtree constant hash short none hash hash refl refl refl refl

bound_reference_not_root_example : Collision constant
unfolding bind_leaf_value value_hash node_hash
bound_reference_not_root_example =
    bound_reference_not_root constant hash short none hash hash hash refl refl refl refl refl

-- A layer whose merk proof pushes one KV node: the key 7, with an item of one byte.
abbrev small_proof : Bytes
small_proof = 0 ∷ 9 ∷ 3 ∷ 1 ∷ 7 ∷ 0 ∷ 4 ∷ 0 ∷ 1 ∷ 5 ∷ 0 ∷ 0 ∷ 1 ∷ []

abbrev small_results : List Entry
small_results =
    record {
      path = [];
      key = 7 ∷ [];
      value = some (0 ∷ 1 ∷ 5 ∷ 0 ∷ []);
      element = some (item (5 ∷ []) none);
      tree = false;
      node_type = kv;
      ambiguous_value = none;
    }
    ∷ []

abbrev small_root : Bytes
small_root = (1 ∷ 7 ∷ 4 ∷ 0 ∷ 1 ∷ 5 ∷ 0 ∷ []) ++ (null_hash ++ null_hash)

small_proof_verifies :
    verify_grovedb_proof identity true small_proof none none ≡ ok (small_root, small_results)
unfolding verify_grovedb_proof decode_grovedb_proof ◌>>=◌ read_varint read_u8 pure refuse_if
    decode_grovedb_proof_v0 decode_layer_proof read_bytes read_raw_bytes decode_prove_options
    read_bool has_more check_layer execute_merk_proof_with_query decode_merk_ops decode_kv read_key
    read_value read_u16 key_of kv_hash value_hash node_hash varint_bytes deserialize_element at_end
    read_element read_item read_option_bytes read_option_tag bytes_to_hex is_tree_element
small_proof_verifies = refl

verify_grovedb_proof-AllBound_example :
    (proof : GroveDbProof) × (decode_grovedb_proof small_proof ≡ ok proof)
    × AllBound identity proof.proof.root_layer small_results
verify_grovedb_proof-AllBound_example =
    verify_grovedb_proof-AllBound identity true small_proof none none small_root small_results
      small_proof_verifies

-- The same layer below the key 0xab of a root layer, whose value hash node holds a tree element; every
-- hash is 32 zero bytes.
abbrev pub nested_proof : Bytes
nested_proof =
    0 ∷ 42 ∷ 4 ∷ 1 ∷ 0xab ∷ 0 ∷ 5 ∷ 2 ∷ 1 ∷ 1 ∷ 7 ∷ 0 ∷ null_hash
    ++ (1 ∷ 1 ∷ 0xab ∷ 9 ∷ 3 ∷ 1 ∷ 7 ∷ 0 ∷ 4 ∷ 0 ∷ 1 ∷ 5 ∷ 0 ∷ 0 ∷ 1 ∷ [])

abbrev nested_items : List ProvenItem
nested_items =
    record {
      path = (0xab ∷ []) ∷ [];
      key = 7 ∷ [];
      value = 5 ∷ [];
      element = 0 ∷ 1 ∷ 5 ∷ 0 ∷ [];
      flags = none;
    }
    ∷ []

nested_proof_verifies :
    verify_items_at_path constant nested_proof ((0xab ∷ []) ∷ []) (some null_hash)
    ≡ ok (null_hash, nested_items)
unfolding verify_items_at_path decode_grovedb_proof ◌>>=◌ read_varint read_u8 pure refuse_if
    decode_grovedb_proof_v0 decode_layer_proof read_bytes read_raw_bytes decode_prove_options
    read_bool has_more check_layer execute_merk_proof_with_query decode_merk_ops decode_kv read_key
    read_value read_u16 key_of kv_hash value_hash node_hash varint_bytes deserialize_element at_end
    read_element read_item read_option_bytes read_option_tag bytes_to_hex is_tree_element
    verify_grovedb_proof decode_kv_value_hash has_root_key combine_hash hash_equals put_layer
    read_tree
nested_proof_verifies = refl

verify_items_at_path-IsProven_example :
    (null_hash ≡ null_hash)
    × (results : List Entry) × (verify_grovedb_proof constant true nested_proof none
          (some ((0xab ∷ []) ∷ []))
        ≡ ok (null_hash, results))
    × All (IsProven results ((0xab ∷ []) ∷ [])) nested_items
verify_items_at_path-IsProven_example =
    verify_items_at_path-IsProven constant nested_proof ((0xab ∷ []) ∷ []) null_hash null_hash
      nested_items nested_proof_verifies

-- The state that the nested proof is of, and its lower merk tree.
abbrev leaf_state : Grove
leaf_state = entry (7 ∷ []) (plain (0 ∷ 1 ∷ 5 ∷ 0 ∷ [])) empty empty

abbrev pub nested_state : Grove
nested_state =
    entry (0xab ∷ [])
      (subtree (2 ∷ 1 ∷ 1 ∷ 7 ∷ 0 ∷ []) (entry (7 ∷ []) (plain (0 ∷ 1 ∷ 5 ∷ 0 ∷ [])) empty empty))
      empty empty

pub nested_state_clear : ClearTo 1 nested_state
unfolding ClearTo
nested_state_clear = (((λ p. ground (arith, p)), tt), tt, tt)

nested_proof_of_state :
    verify_items_at_path constant nested_proof
      ((0xab ∷ []) ∷ [])
      (some (grove_hash constant nested_state))
    ≡ ok (null_hash, nested_items)
unfolding grove_hash node_hash
nested_proof_of_state = nested_proof_verifies

verify_items_at_path-IsStored_example :
    Broken constant ⊎ All (IsStored nested_state ((0xab ∷ []) ∷ [])) nested_items
verify_items_at_path-IsStored_example =
    verify_items_at_path-IsStored constant nested_state (λ x. refl) nested_proof ((0xab ∷ []) ∷ [])
      null_hash nested_items nested_state_clear nested_proof_of_state

abbrev nested_item : ProvenItem
nested_item = record {
  path = (0xab ∷ []) ∷ [];
  key = 7 ∷ [];
  value = 5 ∷ [];
  element = 0 ∷ 1 ∷ 5 ∷ 0 ∷ [];
  flags = none;
}

nested_item_verifies :
    verify_item_at_path constant nested_proof
      ((0xab ∷ []) ∷ [])
      (7 ∷ [])
      (some (grove_hash constant nested_state))
      true
    ≡ ok (null_hash, nested_item)
unfolding verify_item_at_path decode_grovedb_proof ◌>>=◌ read_varint read_u8 pure refuse_if
    decode_grovedb_proof_v0 decode_layer_proof read_bytes read_raw_bytes decode_prove_options
    read_bool has_more check_layer execute_merk_proof_with_query decode_merk_ops decode_kv read_key
    read_value read_u16 key_of kv_hash value_hash node_hash varint_bytes deserialize_element at_end
    read_element read_item read_option_bytes read_option_tag bytes_to_hex is_tree_element
    verify_grovedb_proof decode_kv_value_hash has_root_key combine_hash hash_equals put_layer
    read_tree grove_hash
nested_item_verifies = refl

-- Below the key 0xab, the state has elements alone.
at_top :
    (path : List Bytes) (g : Grove) → path ≡ [] → Reaches nested_state path g → g ≡ nested_state
at_top path g e top = refl
at_top path g e (into [] key element at g' reached held) = cc
at_top path g e (into (x ∷ above) key element at g' reached held) = cc

in_leaf : (k : Bytes) (s : Stored) → Holds k s leaf_state → (e : Bytes) × (s ≡ plain e)
in_leaf k s (inl (key, is)) = (0 ∷ 1 ∷ 5 ∷ 0 ∷ [], is)
in_leaf k s (inr (inl h)) = absurd h
in_leaf k s (inr (inr h)) = absurd h

below_top :
    (key element : Bytes) (g : Grove) → Holds key (subtree element g) nested_state → g ≡ leaf_state
below_top key element g (inl (k, is)) = cc
below_top key element g (inr (inl h)) = absurd h
below_top key element g (inr (inr h)) = absurd h

at_leaf :
    (path : List Bytes) (g : Grove)
    → path ≡ (0xab ∷ []) ∷ []
    → Reaches nested_state path g
    → g ≡ leaf_state
at_leaf path g e top = cc
at_leaf path g e (into [] key element at g' reached held) =
    below_top key element g'
      (subst (Holds key (subtree element g')) (at_top [] at refl reached) held)
at_leaf path g e (into (x ∷ []) key element at g' reached held) = cc
at_leaf path g e (into (x ∷ y ∷ above) key element at g' reached held) = cc

nested_state_items : ItemsOnly true nested_state ((0xab ∷ []) ∷ [])
nested_state_items g k s reached held =
    in_leaf k s (subst (Holds k s) (at_leaf _ g refl reached) held)

verify_item_at_path-StoredAt_example :
    Broken constant ⊎ StoredAt nested_state ((0xab ∷ []) ∷ []) (7 ∷ []) nested_item.element
verify_item_at_path-StoredAt_example =
    verify_item_at_path-StoredAt constant nested_state (λ x. refl) true nested_proof
      ((0xab ∷ []) ∷ []) (7 ∷ []) null_hash nested_item nested_state_clear nested_state_items
      nested_item_verifies

-- The merk proof of the lower layer, and what it proves.
abbrev leaf_proof : Bytes
leaf_proof = 3 ∷ 1 ∷ 7 ∷ 0 ∷ 4 ∷ 0 ∷ 1 ∷ 5 ∷ 0 ∷ []

abbrev leaf_result : MerkExecutionResult
leaf_result = record {
  root_hash = null_hash;
  result_set =
      record { key = 7 ∷ []; value = some (0 ∷ 1 ∷ 5 ∷ 0 ∷ []); proof = null_hash; node_type = kv }
      ∷ [];
  limit = none;
}

leaf_proof_executes : execute_merk_proof_with_query constant leaf_proof none ≡ ok leaf_result
unfolding execute_merk_proof_with_query ◌>>=◌ read_u8 pure refuse_if read_raw_bytes has_more
    decode_merk_ops decode_kv read_key read_value read_u16 key_of kv_hash value_hash node_hash
    varint_bytes
leaf_proof_executes = refl

leaf_state_hash : null_hash ≡ grove_hash constant leaf_state
unfolding grove_hash node_hash
leaf_state_hash = refl

execute_merk_proof_with_query_binds_example :
    Broken constant ⊎ All (Backed constant (λ x. refl) leaf_state) leaf_result.result_set
execute_merk_proof_with_query_binds_example =
    execute_merk_proof_with_query_binds constant (λ x. refl) leaf_proof none leaf_result leaf_state
      leaf_proof_executes leaf_state_hash
