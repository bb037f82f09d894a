-- ===== src/LightClient.antt =====
-- src/willow/light_client/verifier.py: proofs against a trusted root hash. The texts of the failures are
-- names; an exception that a check raises is a failure, as its handlers make it.
pub mod Sound
pub mod Headers
use willow_sdk_python.Prelude.{
  ℕ, Bool, true, false, not, ◌&&◌, Option, none, some, List, [], ◌∷◌, Bytes, map, bytes_eq, ltb,
  if◌then◌else◌,
}
use willow_sdk_python.Prelude.Int.{ℤ, pos, negsuc}
use willow_sdk_python.Prelude.Result.{Result, ok, err, ◌>>=◌, ◌>>◌}
use willow_sdk_python.Messages.{utf8}
use willow_sdk_python.Verifier.Items.{ProvenItem, verify_items_at_path, verify_item_at_path}
use willow_sdk_python.Verifier.Quick.{quick_verify}

pub data Failure : Type 0 where
  no_query_path not_an_item root_differs raised header_not_verified wrong_chain bad_height
        clock_drift not_sequential time_back validators_changed :
      Failure

-- `VerificationResult`: a success, or the error; both with the height.
pub record VerificationResult : Type 0 where
  pub success : Bool
  pub error : Option Failure
  pub height : Option ℤ

abbrev pub succeeded : ℤ → VerificationResult
succeeded height = record { success = true; error = none; height = some height }

abbrev pub failed : Failure → ℤ → VerificationResult
failed e height = record { success = false; error = some e; height = some height }

-- A segment of `path_query["path"]`; `other` is a value of another type.
pub data Segment : Type 0 where
  text : Bytes → Segment
  bytes : Bytes → Segment
  ints : List ℤ → Segment
  other : Segment

-- `all(... 0 <= b <= 255 for b in seg)` and `bytes(seg)`
unfoldable pub ints_bytes : List ℤ → Option Bytes
ints_bytes [] = some []
ints_bytes (negsuc n ∷ ns) = none
ints_bytes (pos n ∷ ns) = elim (ltb n 256) [
  | true ↦ elim (ints_bytes ns) [ none ↦ none | some later ↦ some (n ∷ later) ]
  | false ↦ none
]

abbrev pub and_then : Option Bytes → Result (Option (List Bytes)) → Result (Option (List Bytes))
and_then none later = ok none
and_then (some b) later = later >>= λ o. ok (elim o [ none ↦ none | some bs ↦ some (b ∷ bs) ])

-- The loop of `_query_path`; a text that has no UTF-8 form raises.
unfoldable pub segments_bytes : List Segment → Result (Option (List Bytes))
unfolding ints_bytes utf8
segments_bytes [] = ok (some [])
segments_bytes (text t ∷ segments) = do b ← utf8 t; and_then (some b) (segments_bytes segments)
segments_bytes (bytes b ∷ segments) = and_then (some b) (segments_bytes segments)
segments_bytes (ints ns ∷ segments) = and_then (ints_bytes ns) (segments_bytes segments)
segments_bytes (other ∷ segments) = ok none

-- `_query_path`; a query with no list under "path" is `none`.
unfoldable pub query_path : Option (List Segment) → Result (Option (List Bytes))
unfolding segments_bytes
query_path none = ok none
query_path (some segments) = segments_bytes segments

pub record QueryProof : Type 0 where
  pub proof : Bytes
  pub path_query : Option (List Segment)
  pub height : ℤ
  pub query_result : List Bytes

-- `unmatched.remove(payload)`; `none` where it is not there.
unfoldable pub remove : Bytes → List Bytes → Option (List Bytes)
remove payload [] = none
remove payload (b ∷ unmatched) =
    if bytes_eq b payload
    then some unmatched
    else elim (remove payload unmatched) [ none ↦ none | some later ↦ some (b ∷ later) ]

-- The loop over the payloads.
unfoldable pub match_all : List Bytes → (unmatched : List Bytes) → Bool
unfolding remove
match_all [] unmatched = true
match_all (payload ∷ payloads) unmatched = elim (remove payload unmatched) [
  | none ↦ false
  | some later ↦ match_all payloads later
]

abbrev pub value_of : ProvenItem → Bytes
value_of it = it.value

-- `query_result`, or that of the proof
abbrev pub payloads_of : QueryProof → Option (List Bytes) → List Bytes
payloads_of proof none = proof.query_result
payloads_of proof (some given) = given

module _ (blake3 : Bytes → Bytes) where
  -- The branch with payloads, by the query's path.
  unfoldable pub match_at :
      QueryProof
      → (trusted : Bytes) → List Bytes
      → Result (Option (List Bytes))
      → VerificationResult
  unfolding match_all
  match_at proof trusted payloads (err e) = failed raised proof.height
  match_at proof trusted payloads (ok none) = failed no_query_path proof.height
  match_at proof trusted payloads (ok (some [])) = failed no_query_path proof.height
  match_at proof trusted payloads (ok (some (s ∷ path))) =
      elim (verify_items_at_path blake3 proof.proof (s ∷ path) (some trusted)) [
        | err e ↦ failed raised proof.height
        | ok (root, items) ↦
            if match_all payloads (map value_of items)
            then succeeded proof.height
            else failed not_an_item proof.height
      ]

  -- The branch with no payload.
  unfoldable pub match_root : QueryProof → (trusted : Bytes) → Result Bytes → VerificationResult
  match_root proof trusted (err e) = failed raised proof.height
  match_root proof trusted (ok root) =
      if not (bytes_eq root trusted)
      then failed root_differs proof.height
      else succeeded proof.height

  unfoldable pub verify_payloads : QueryProof → (trusted : Bytes) → List Bytes → VerificationResult
  unfolding match_at match_root query_path
  verify_payloads proof trusted [] = match_root proof trusted (quick_verify blake3 proof.proof)
  verify_payloads proof trusted (p ∷ ps) =
      match_at proof trusted (p ∷ ps) (query_path proof.path_query)

  unfoldable pub verify_query_proof :
      QueryProof
      → (trusted_app_hash : Bytes) → (query_result : Option (List Bytes)) → VerificationResult
  unfolding verify_payloads
  verify_query_proof proof trusted_app_hash query_result =
      verify_payloads proof trusted_app_hash (payloads_of proof query_result)

  -- The path's text segments are given as UTF-8.
  unfoldable pub verify_inclusion_proof :
      (key value proof_bytes trusted_root : Bytes) → (path : List Bytes) → Bool
  verify_inclusion_proof key value proof_bytes trusted_root path =
      elim (verify_item_at_path blake3 proof_bytes path key (some trusted_root) false) [
        | err e ↦ false
        | ok (root, it) ↦ bytes_eq it.value value
      ]
