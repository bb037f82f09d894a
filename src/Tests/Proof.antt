-- ===== src/Tests/Proof.antt =====
-- The decoders and the executor of src/willow/grovedb on small inputs, with the identity in place of
-- BLAKE3.
use willow_sdk_python.Prelude.{◌≡◌, ◌≢◌, refl, arith, true, none, some, List, [], ◌∷◌, ◌++◌, Bytes}
use willow_sdk_python.Prelude.Int.{negsuc}
use willow_sdk_python.Prelude.Result.{ok, err, trailing_bytes, key_order, out_of_fuel}
use willow_sdk_python.Bincode.{decode_grovedb_proof}
use willow_sdk_python.Bincode.Encode.{ProofTree, node, none', child, depth}
use willow_sdk_python.Bincode.RoundTrip.{put_proof, decode_grovedb_proof-put_proof}
use willow_sdk_python.Element.{Element, sum_tree, deserialize_element}
use willow_sdk_python.Element.Encode.{put_element}
use willow_sdk_python.Element.RoundTrip.{deserialize_element-put_element}
use willow_sdk_python.Merk.Nodes.{MerkNode, kv_node, MerkOp, push, key_of}
use willow_sdk_python.Merk.Tree.{compare_bytes}
use willow_sdk_python.Merk.Tree.Order.{Says, compare_bytes-Says}
use willow_sdk_python.Merk.Decoder.{decode_merk_ops}
use willow_sdk_python.Merk.Decoder.Total.{decode_merk_ops-ends}
use willow_sdk_python.Merk.Executor.{execute_ops}
use willow_sdk_python.Merk.Executor.Ordering.{Ascending, execute_ops-Ascending}

-- A root layer with one layer below it.
abbrev two_layers : ProofTree
two_layers = node (1 ∷ 2 ∷ []) (child (0xab ∷ []) (node (3 ∷ []) none') none')

decode_grovedb_proof-put_proof_example :
    decode_grovedb_proof (put_proof two_layers true ++ (9 ∷ [])) ≡ err trailing_bytes
unfolding depth
decode_grovedb_proof-put_proof_example =
    decode_grovedb_proof-put_proof two_layers true (9 ∷ [])
      (omega arith, omega arith, (omega arith, (omega arith, omega arith, tt), tt)) (omega arith)

abbrev small_tree : Element
small_tree = sum_tree (some (7 ∷ [])) (negsuc 299) none

deserialize_element-put_element_example :
    deserialize_element (put_element small_tree ++ []) ≡ ok small_tree
deserialize_element-put_element_example =
    deserialize_element-put_element small_tree [] (omega arith, omega arith, tt)

abbrev identity : Bytes → Bytes
identity b = b

abbrev ops : List MerkOp
ops = push (kv_node (1 ∷ []) (8 ∷ [])) ∷ push (kv_node (2 ∷ []) (9 ∷ [])) ∷ MerkOp.parent ∷ []

abbrev shown : List MerkNode
shown = kv_node (1 ∷ []) (8 ∷ []) ∷ kv_node (2 ∷ []) (9 ∷ []) ∷ []

execute_ops-Ascending_example : Ascending none shown
unfolding execute_ops key_of compare_bytes
execute_ops-Ascending_example =
    execute_ops-Ascending identity true ops _ shown (refl, (refl, (refl, tt))) refl

out_of_order :
    execute_ops identity true (push (kv_node (2 ∷ []) []) ∷ push (kv_node (1 ∷ []) []) ∷ [])
    ≡ err key_order
unfolding execute_ops key_of compare_bytes
out_of_order = refl

compare_bytes-Says_example :
    Says (1 ∷ 5 ∷ []) (1 ∷ 4 ∷ 9 ∷ []) (compare_bytes (1 ∷ 5 ∷ []) (1 ∷ 4 ∷ 9 ∷ []))
compare_bytes-Says_example = compare_bytes-Says (1 ∷ 5 ∷ []) (1 ∷ 4 ∷ 9 ∷ [])

-- A KV push that is cut after the length of its key.
decode_merk_ops-ends_example : decode_merk_ops (3 ∷ 1 ∷ []) ≢ err out_of_fuel
decode_merk_ops-ends_example = decode_merk_ops-ends (3 ∷ 1 ∷ [])
