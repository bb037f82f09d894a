-- ===== src/Verifier/Recursion.antt =====
-- src/willow/grovedb/verifier.py: the recursion over the layers, and the entry points.
pub mod Bound
pub mod Sound
pub mod Stored
use willow_sdk_python.Prelude.{
  ℕ, zero, suc, ◌+◌, Bool, true, false, not, ◌&&◌, ◌||◌, Option, none, some, List, [], ◌∷◌, ◌++◌,
  Bytes, length, ◌==◌, bytes_eq, if◌then◌else◌,
}
use willow_sdk_python.Prelude.Int.{ℤ, pos, negsuc}
use willow_sdk_python.Prelude.Result.{
  Result, ok, err, ◌>>=◌, ◌>>◌, bad_version, layer_mismatch, layer_of_non_tree, unproven_layer,
  no_path, root_mismatch,
}
use willow_sdk_python.Hash.{value_hash, combine_hash, hash_equals, bytes_to_hex}
use willow_sdk_python.Bincode.{
  LayerProof, layer, Layers, no_layers, below, GroveDbProof, decode_grovedb_proof,
}
use willow_sdk_python.Element.{Element, item}
use willow_sdk_python.Merk.Executor.{
  NodeType, kv, ProvedKeyValue, MerkExecutionResult, execute_merk_proof_with_query,
}
use willow_sdk_python.Verifier.{
  Entry, check_prove_options, check_envelope, try_deserialize, is_tree, is_rooted, is_ambiguous,
  bind_leaf_value,
}

-- `limit - len(results) if limit is not None else None`
abbrev pub one_less : ℤ → ℤ
one_less (pos zero) = negsuc 0
one_less (pos (suc n)) = pos n
one_less (negsuc n) = negsuc (suc n)

abbrev pub minus : ℤ → ℕ → ℤ
minus z zero = z
minus z (suc n) = minus (one_less z) n

abbrev pub limit_left : Option ℤ → ℕ → Option ℤ
limit_left none n = none
limit_left (some limit) n = some (minus limit n)

-- The check of a layer: the path, the results so far and the limit give its root hash and the results.
abbrev pub Check : Type 0
Check = List Bytes → List Entry → Option ℤ → Result (Bytes × List Entry)

-- The checks of the lower layers, by the hex text of their keys.
abbrev pub Checks : Type 0
Checks = List (Bytes × Check)

unfoldable pub find_check : Bytes → Checks → Option Check
find_check key [] = none
find_check key ((other, check) ∷ checks) =
    if bytes_eq other key then some check else find_check key checks

-- `key in consumed`
unfoldable pub has_bytes : Bytes → List Bytes → Bool
has_bytes key [] = false
has_bytes key (other ∷ keys) = bytes_eq other key || has_bytes key keys

-- `not set(layer_proof.lower_layers) - consumed`
unfoldable pub all_consumed : Checks → List Bytes → Bool
unfolding has_bytes
all_consumed [] consumed = true
all_consumed ((key, check) ∷ checks) consumed =
    has_bytes key consumed && all_consumed checks consumed

module _ (blake3 : Bytes → Bytes) (deserialize_elements : Bool) where
  abbrev pub entry_of :
      ProvedKeyValue → Bytes → Option Element → (bound : Bool) → List Bytes → Entry
  entry_of proved value element bound path = record {
    path = path;
    key = proved.key;
    value = if bound then some value else none;
    element = if bound && deserialize_elements then element else none;
    tree = is_tree element;
    node_type = proved.node_type;
    ambiguous_value = if is_ambiguous proved.node_type value then some value else none;
  }

  -- The branch for a leaf: no entry for a missing or empty value.
  unfoldable pub add_leaf :
      ProvedKeyValue → Option Bytes → List Bytes → List Entry → Result (List Entry)
  unfolding try_deserialize bind_leaf_value
  add_leaf proved none path results = ok results
  add_leaf proved (some []) path results = ok results
  add_leaf proved (some (b ∷ bs)) path results = do
    let element = try_deserialize (b ∷ bs)
    bound ← bind_leaf_value blake3 proved.node_type proved.proof (b ∷ bs) element
    ok (results ++ (entry_of proved (b ∷ bs) element bound path ∷ []))

  -- The branch for a subtree with a lower layer.
  unfoldable pub check_subtree :
      Check
      → ProvedKeyValue
      → Option Bytes
      → List Bytes
      → List Entry
      → Option ℤ
      → Result (List Entry)
  unfolding try_deserialize
  check_subtree check proved none path results limit = err layer_of_non_tree
  check_subtree check proved (some value) path results limit =
      elim (is_rooted (try_deserialize value)) [
        | false ↦ err layer_of_non_tree
        | true ↦ do
          (lower_hash, results') ←
              check (path ++ (proved.key ∷ [])) results (limit_left limit (length results))
          if hash_equals (combine_hash blake3 (value_hash blake3 value) lower_hash) proved.proof
              then ok results'
              else err layer_mismatch
      ]

  -- The loop over the result set; `consumed` holds the keys whose lower layers are checked.
  unfoldable pub check_results :
      Checks
      → List ProvedKeyValue
      → List Bytes
      → (consumed : List Bytes) → List Entry
      → Option ℤ
      → Result (List Bytes × List Entry)
  unfolding find_check add_leaf check_subtree
  check_results checks [] path consumed results limit = ok (consumed, results)
  check_results checks (proved ∷ later) path consumed results limit =
      elim (find_check (bytes_to_hex proved.key) checks) [
        | some check ↦ do
          results' ← check_subtree check proved proved.value path results limit
          check_results checks later path (bytes_to_hex proved.key ∷ consumed) results' limit
        | none ↦ do
          results' ← add_leaf proved proved.value path results
          check_results checks later path consumed results' limit
      ]

  -- One layer, given the checks of its lower layers.
  unfoldable pub check_layer : Bytes → Checks → Check
  unfolding check_results all_consumed
  check_layer merk_proof checks path results limit = do
    merk_result ← execute_merk_proof_with_query blake3 merk_proof limit
    (consumed, results') ← check_results checks merk_result.result_set path [] results limit
    if all_consumed checks consumed
        then ok (merk_result.root_hash, results')
        else err unproven_layer

  -- `_verify_layer_proof`
  unfoldable mutual
    pub verify_layer_proof : LayerProof → Check
    verify_layer_proof (layer merk_proof lower_layers) =
        check_layer merk_proof (layer_checks lower_layers)

    pub layer_checks : Layers → Checks
    layer_checks no_layers = []
    layer_checks (below key l ls) = (key, verify_layer_proof l) ∷ layer_checks ls

  unfoldable pub check_expected : Option (List Bytes) → GroveDbProof → Result (Unit {0})
  unfolding check_envelope
  check_expected none proof = ok tt
  check_expected (some path) proof = check_envelope proof path

  -- `_verify_proof`
  unfoldable pub verify_proof :
      GroveDbProof
      → (limit : Option ℤ) → (expected_path : Option (List Bytes)) → Result (Bytes × List Entry)
  unfolding verify_layer_proof check_expected check_prove_options
  verify_proof proof limit expected_path = if not (proof.version == 0) then err bad_version else do
    check_prove_options proof.proof.prove_options
    check_expected expected_path proof
    verify_layer_proof proof.proof.root_layer [] [] limit

  unfoldable pub verify_grovedb_proof :
      Bytes
      → (limit : Option ℤ) → (expected_path : Option (List Bytes)) → Result (Bytes × List Entry)
  unfolding verify_proof
  verify_grovedb_proof proof_bytes limit expected_path = do
    proof ← decode_grovedb_proof proof_bytes
    verify_proof proof limit expected_path

  unfoldable pub verify_proof_against_root :
      Bytes
      → (expected_root_hash : Bytes) → (limit : Option ℤ) → (expected_path : Option (List Bytes))
      → Result (Bytes × List Entry)
  unfolding verify_grovedb_proof
  verify_proof_against_root proof_bytes expected_root_hash limit expected_path = do
    (root_hash, results) ← verify_grovedb_proof proof_bytes limit expected_path
    if hash_equals root_hash expected_root_hash then ok (root_hash, results) else err root_mismatch
