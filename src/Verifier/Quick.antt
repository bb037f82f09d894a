-- ===== src/Verifier/Quick.antt =====
-- src/willow/grovedb/verifier.py, `quick_verify`: the root hash of a proof, with no results.
pub mod Sound
use willow_sdk_python.Prelude.{
  subst, inl, inr, Bool-cases, ◌≡◌, ap, sym, ◌∙◌, Bool, true, not, Option, none, some, List, [],
  ◌∷◌, Bytes, ◌==◌, bytes_eq, if◌then◌else◌,
}
use willow_sdk_python.Prelude.Int.{ℤ}
use willow_sdk_python.Prelude.Result.{
  Result, ok, err, ◌>>=◌, ◌>>◌, >>=-eq-ok, ok-injective, past_check, no_layer_key, layer_mismatch,
  bad_version,
}
use willow_sdk_python.Hash.{value_hash, combine_hash, hash_equals, bytes_to_hex}
use willow_sdk_python.Bincode.{
  LayerProof, layer, Layers, no_layers, below, GroveDbProof, decode_grovedb_proof,
}
use willow_sdk_python.Merk.Tree.{tree_hash}
use willow_sdk_python.Merk.Decoder.{decode_merk_ops}
use willow_sdk_python.Merk.Executor.{
  ProvedKeyValue, MerkExecutionResult, execute_ops, execute_merk_proof_with_query,
}
use willow_sdk_python.Verifier.{Entry, check_prove_options}
use willow_sdk_python.Verifier.Recursion.{
  Checks, all_consumed, check_results, check_layer, verify_layer_proof, layer_checks,
  check_expected, verify_proof, verify_grovedb_proof,
}

-- The loop over the result set for a lower layer's key.
unfoldable pub find_proved : (key_hex : Bytes) → List ProvedKeyValue → Option ProvedKeyValue
unfolding bytes_to_hex
find_proved key_hex [] = none
find_proved key_hex (r ∷ later) =
    if bytes_eq (bytes_to_hex r.key) key_hex then some r else find_proved key_hex later

abbrev pub value_found : Option ProvedKeyValue → Option (Bytes × Bytes)
value_found none = none
value_found (some p) = elim p.value [ none ↦ none | some v ↦ some (v, p.proof) ]

module _ (blake3 : Bytes → Bytes) where
  -- The body of the loop, given what the lower layer and the later rounds give.
  unfoldable pub quick_verify_lower :
      Option (Bytes × Bytes)
      → (lower : Result Bytes) → (later : Result (Unit {0})) → Result (Unit {0})
  quick_verify_lower none lower later = err no_layer_key
  quick_verify_lower (some (value, proof)) lower later = do
    lower_hash ← lower
    if not (hash_equals (combine_hash blake3 (value_hash blake3 value) lower_hash) proof)
        then err layer_mismatch
        else later

  -- `_quick_verify_layer`, and its loop over the lower layers.
  unfoldable mutual
    pub quick_verify_layer : LayerProof → Result Bytes
    quick_verify_layer (layer merk_proof lower_layers) = do
      merk_result ← execute_merk_proof_with_query blake3 merk_proof none
      quick_verify_layers merk_result.result_set lower_layers
      ok merk_result.root_hash

    pub quick_verify_layers : List ProvedKeyValue → Layers → Result (Unit {0})
    quick_verify_layers proved no_layers = ok tt
    quick_verify_layers proved (below key lower_layer later) =
        quick_verify_lower (value_found (find_proved key proved)) (quick_verify_layer lower_layer)
          (quick_verify_layers proved later)

  unfoldable pub quick_verify : Bytes → Result Bytes
  unfolding quick_verify_layer
  quick_verify proof_bytes = do
    proof ← decode_grovedb_proof proof_bytes
    quick_verify_layer proof.proof.root_layer
