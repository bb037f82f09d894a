-- ===== src/Tests/LightClient.antt =====
-- src/willow/light_client/verifier.py on the nested proof of the verifier's tests and on small headers.
use willow_sdk_python.Prelude.{
  ◌≡◌, refl, ◌⊎◌, ◌↔◌, arith, true, false, Option, none, some, List, [], ◌∷◌, Bytes,
}
use willow_sdk_python.Prelude.Int.{pos}
use willow_sdk_python.Prelude.Result.{ok}
use willow_sdk_python.Varint.{varint_bytes}
use willow_sdk_python.Hash.{hash_equals, kv_hash, value_hash, combine_hash, node_hash, bytes_to_hex}
use willow_sdk_python.Cursor.{◌>>=◌, pure, refuse_if, has_more, read_u8, read_u16, read_raw_bytes}
use willow_sdk_python.Bincode.{
  GroveDbProof, put_layer, read_varint, read_bytes, read_bool, read_option_tag, at_end,
  decode_layer_proof, decode_prove_options, decode_grovedb_proof_v0, decode_grovedb_proof,
}
use willow_sdk_python.Element.{
  deserialize_element, read_element, read_item, read_tree, read_option_bytes, is_tree_element,
  has_root_key, item,
}
use willow_sdk_python.Merk.Nodes.{key_of}
use willow_sdk_python.Merk.Decoder.{
  decode_merk_ops, decode_kv, decode_kv_value_hash, read_key, read_value,
}
use willow_sdk_python.Merk.Executor.{execute_merk_proof_with_query}
use willow_sdk_python.Merk.State.{grove_hash, Broken}
use willow_sdk_python.Verifier.{try_deserialize}
use willow_sdk_python.Verifier.Recursion.{check_layer, verify_grovedb_proof}
use willow_sdk_python.Verifier.Recursion.Stored.{StoredAt}
use willow_sdk_python.Verifier.Items.{verify_items_at_path, verify_item_at_path}
use willow_sdk_python.Verifier.Quick.Sound.{ClearAll, IsOf, quick_verify-IsOf}
use willow_sdk_python.Verifier.Quick.{find_proved, quick_verify_lower, quick_verify}
use willow_sdk_python.LightClient.{
  QueryProof, bytes, payloads_of, verify_query_proof, verify_inclusion_proof, query_path,
  header_not_verified,
}
use willow_sdk_python.LightClient.Sound.{
  Backs, verify_query_proof-Backs, verify_inclusion_proof-StoredAt,
}
use willow_sdk_python.LightClient.Headers.{Header, verify_header}
use willow_sdk_python.LightClient.Headers.Checks.{IsBasic, FollowsAny, verify_header-refuses}
use willow_sdk_python.Tests.Verifier.{constant, nested_proof, nested_state, nested_state_clear}

-- The path of the nested proof's item.
abbrev item_path : List Bytes
item_path = (0xab ∷ []) ∷ []

abbrev query : QueryProof
query = record {
  proof = nested_proof;
  path_query = some (bytes (0xab ∷ []) ∷ []);
  height = pos 1;
  query_result = (5 ∷ []) ∷ [];
}

query_has_path : query_path query.path_query ≡ ok (some item_path)
unfolding query_path
query_has_path = refl

query_succeeds :
    (verify_query_proof constant query (grove_hash constant nested_state) none).success ≡ true
unfolding verify_query_proof verify_items_at_path verify_grovedb_proof decode_grovedb_proof ◌>>=◌
    read_varint read_u8 pure refuse_if decode_grovedb_proof_v0 decode_layer_proof read_bytes
    read_raw_bytes decode_prove_options read_bool has_more check_layer execute_merk_proof_with_query
    decode_merk_ops decode_kv read_key read_value read_u16 key_of kv_hash value_hash node_hash
    varint_bytes deserialize_element at_end read_element read_item read_option_bytes read_option_tag
    bytes_to_hex is_tree_element decode_kv_value_hash has_root_key combine_hash hash_equals
    put_layer read_tree grove_hash
query_succeeds = refl

verify_query_proof-Backs_example :
    Broken constant ⊎ Backs constant nested_state nested_proof item_path (payloads_of query none)
verify_query_proof-Backs_example =
    verify_query_proof-Backs constant nested_state (λ x. refl) query none item_path query_has_path
      nested_state_clear query_succeeds

inclusion_holds :
    verify_inclusion_proof constant
      (7 ∷ [])
      (5 ∷ [])
      nested_proof
      (grove_hash constant nested_state)
      item_path
    ≡ true
unfolding verify_inclusion_proof verify_item_at_path verify_grovedb_proof decode_grovedb_proof ◌>>=◌
    read_varint read_u8 pure refuse_if decode_grovedb_proof_v0 decode_layer_proof read_bytes
    read_raw_bytes decode_prove_options read_bool has_more check_layer execute_merk_proof_with_query
    decode_merk_ops decode_kv read_key read_value read_u16 key_of kv_hash value_hash node_hash
    varint_bytes deserialize_element at_end read_element read_item read_option_bytes read_option_tag
    bytes_to_hex is_tree_element decode_kv_value_hash has_root_key combine_hash hash_equals
    put_layer read_tree grove_hash
inclusion_holds = refl

verify_inclusion_proof-StoredAt_example :
    Broken constant
    ⊎ ((element : Bytes) × (flags : Option Bytes) × StoredAt nested_state item_path (7 ∷ []) element
        × (try_deserialize element ≡ some (item (5 ∷ []) flags)))
verify_inclusion_proof-StoredAt_example =
    verify_inclusion_proof-StoredAt constant nested_state (λ x. refl) (7 ∷ []) (5 ∷ []) nested_proof
      item_path nested_state_clear inclusion_holds

nested_state-ClearAll : ClearAll nested_state
unfolding ClearAll
nested_state-ClearAll = (((λ e. ground (arith, e)), ((λ e. ground (arith, e)), tt, tt)), tt, tt)

quick_root : quick_verify constant nested_proof ≡ ok (grove_hash constant nested_state)
unfolding quick_verify quick_verify_lower find_proved decode_grovedb_proof ◌>>=◌ read_varint read_u8
    pure refuse_if decode_grovedb_proof_v0 decode_layer_proof read_bytes read_raw_bytes
    decode_prove_options read_bool has_more check_layer execute_merk_proof_with_query
    decode_merk_ops decode_kv read_key read_value read_u16 key_of kv_hash value_hash node_hash
    varint_bytes deserialize_element at_end read_element read_item read_option_bytes read_option_tag
    bytes_to_hex is_tree_element decode_kv_value_hash has_root_key combine_hash hash_equals
    put_layer read_tree grove_hash
quick_root = refl

quick_verify-IsOf_example :
    Broken constant
    ⊎ ((proof : GroveDbProof) × (decode_grovedb_proof nested_proof ≡ ok proof)
        × IsOf constant proof.proof.root_layer nested_state)
quick_verify-IsOf_example =
    quick_verify-IsOf constant (λ x. refl) nested_proof nested_state nested_state-ClearAll
      quick_root

abbrev first_header : Header
first_header = record {
  chain_id = 119 ∷ [];
  height = pos 4;
  time = 1000;
  validators_hash = 1 ∷ [];
  next_validators_hash = 2 ∷ [];
}

abbrev second_header : Header
second_header = record {
  chain_id = 119 ∷ [];
  height = pos 5;
  time = 2000;
  validators_hash = 2 ∷ [];
  next_validators_hash = 2 ∷ [];
}

second_header_checked :
    (verify_header (119 ∷ []) 3000 second_header (some first_header) 10).error
    ≡ some header_not_verified
unfolding verify_header
second_header_checked = refl

verify_header-refuses_example :
    ((verify_header (119 ∷ []) 3000 second_header (some first_header) 10).success ≡ false)
    × (((verify_header (119 ∷ []) 3000 second_header (some first_header) 10).error
          ≡ some header_not_verified)
        ↔ (IsBasic (119 ∷ []) 3000 10 second_header × FollowsAny second_header (some first_header)))
verify_header-refuses_example =
    verify_header-refuses (119 ∷ []) 3000 second_header (some first_header) 10
