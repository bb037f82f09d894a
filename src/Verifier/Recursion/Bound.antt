-- ===== src/Verifier/Recursion/Bound.antt =====
-- src/willow/grovedb/verifier.py: the values in the results of a proof, through all its layers.
use willow_sdk_python.Prelude.{
  All-snoc, Any, ℕ, ◌≡◌, refl, ◌≢◌, ap, arith, Bool, true, false, not, Option, none, some, List, [],
  ◌∷◌, ◌++◌, Bytes, All, length, ◌==◌, Bool-cases, Option-cases, inl, inr, if◌then◌else◌, subst,
  bytes_eq,
}
use willow_sdk_python.Prelude.Int.{ℤ}
use willow_sdk_python.Prelude.Result.{ok, >>=-eq-ok, ok-injective}
use willow_sdk_python.Hash.{null_hash, value_hash, combine_hash, hash_equals, bytes_to_hex}
use willow_sdk_python.Bincode.{
  LayerProof, layer, Layers, no_layers, below, GroveDbProof, decode_grovedb_proof,
}
use willow_sdk_python.Merk.Executor.{
  NodeType, kv, kv_value_hash, kv_value_hash_feature_type, kv_ref_value_hash, kv_digest,
  ProvedKeyValue, MerkExecutionResult, execute_merk_proof_with_query,
}
use willow_sdk_python.Verifier.{
  Entry, try_deserialize, is_tree, is_rooted, is_ambiguous, bind_leaf_value, check_prove_options,
}
use willow_sdk_python.Verifier.Leaf.{bound_value_hash_is_empty_subtree}
use willow_sdk_python.Verifier.Recursion.{
  Check, Checks, find_check, all_consumed, entry_of, add_leaf, check_subtree, check_results,
  check_layer, verify_layer_proof, layer_checks, check_expected, verify_proof, verify_grovedb_proof,
  limit_left,
}

-- The merk proof of a layer of the envelope.
mutual
  pub data InLayer : Bytes → LayerProof → Type 0 where
    here : (merk : Bytes) (ls : Layers) → InLayer merk (layer merk ls)
    deeper : (merk top : Bytes) (ls : Layers) → InLayers merk ls → InLayer merk (layer top ls)

  pub data InLayers : Bytes → Layers → Type 0 where
    at_key :
        (merk key : Bytes) (l : LayerProof) (ls : Layers)
        → InLayer merk l
        → InLayers merk (below key l ls)
    beside :
        (merk key : Bytes) (l : LayerProof) (ls : Layers)
        → InLayers merk ls
        → InLayers merk (below key l ls)

module _ (blake3 : Bytes → Bytes) where
  -- What a value must be for its node to bind it: not 63 bytes in a `KV` node, not 95 in a
  -- `KVRefValueHash` node, and in a value hash node a tree element with no root key, whose value hash with
  -- the null hash gives the hash that the node has.
  abbrev pub Supported : NodeType → (proof value : Bytes) → Type 0
  Supported kv proof v = length v ≢ 63
  Supported kv_ref_value_hash proof v = length v ≢ 95
  Supported kv_digest proof v = Unit {0}
  Supported kv_value_hash proof v =
      (is_tree (try_deserialize v) ≡ true)
      × (is_rooted (try_deserialize v) ≡ false)
      × (proof ≡ combine_hash blake3 (value_hash blake3 v) null_hash)
  Supported kv_value_hash_feature_type proof v =
      (is_tree (try_deserialize v) ≡ true)
      × (is_rooted (try_deserialize v) ≡ false)
      × (proof ≡ combine_hash blake3 (value_hash blake3 v) null_hash)

  -- A result of the execution of a layer's merk proof.
  pub record IsShown (root : LayerProof) (p : ProvedKeyValue) : Type 0 where
    pub merk : Bytes
    pub of_layer : InLayer merk root
    pub limit : Option ℤ
    pub run : MerkExecutionResult
    pub executes : execute_merk_proof_with_query blake3 merk limit ≡ ok run
    pub shown : Any (λ (q : ProvedKeyValue). q ≡ p) run.result_set

  -- The node of an entry, which binds the value.
  pub record Binds (e : Entry) (v : Bytes) (p : ProvedKeyValue) : Type 0 where
    pub key : p.key ≡ e.key
    pub kind : p.node_type ≡ e.node_type
    pub value : p.value ≡ some v
    pub bound : Supported e.node_type p.proof v

  abbrev pub BoundValue : LayerProof → Entry → Option Bytes → Type 0
  BoundValue root e none = Unit {0}
  BoundValue root e (some v) = (p : ProvedKeyValue) × IsShown root p × Binds e v p

  abbrev pub AllBound : LayerProof → List Entry → Type 0
  AllBound root = All (λ (e : Entry). BoundValue root e e.value)

pub other_length : (n m : ℕ) → not (n == m) ≡ true → n ≢ m
other_length n m h same = ground (arith, h, same)

module _ (blake3 : Bytes → Bytes) (deserialize_elements : Bool) (root : LayerProof) where
  bind_leaf_value-Supported :
      (n : NodeType) (proof v : Bytes)
      → bind_leaf_value blake3 n proof v (try_deserialize v) ≡ ok true
      → Supported blake3 n proof v
  unfolding bind_leaf_value is_ambiguous
  bind_leaf_value-Supported kv proof v e = other_length (length v) 63 (ok-injective e)
  bind_leaf_value-Supported kv_ref_value_hash proof v e =
      other_length (length v) 95 (ok-injective e)
  bind_leaf_value-Supported kv_digest proof v e = tt
  bind_leaf_value-Supported kv_value_hash proof v e =
      bound_value_hash_is_empty_subtree blake3 proof v (try_deserialize v) e
  bind_leaf_value-Supported kv_value_hash_feature_type proof v e =
      bound_value_hash_is_empty_subtree blake3 proof v (try_deserialize v) e

  entry_of-BoundValue :
      (p : ProvedKeyValue) (v : Bytes) (bound : Bool) (path : List Bytes)
      → IsShown blake3 root p
      → p.value ≡ some v
      → bind_leaf_value blake3 p.node_type p.proof v (try_deserialize v) ≡ ok bound
      → BoundValue blake3 root
          (entry_of blake3 deserialize_elements p v (try_deserialize v) bound path)
          (if bound then some v else none)
  entry_of-BoundValue p v true path s has e = (
    p,
    s,
    record {
      key = refl;
      kind = refl;
      value = has;
      bound = bind_leaf_value-Supported p.node_type p.proof v e;
    },
  )
  entry_of-BoundValue p v false path s has e = tt

  add_leaf-AllBound :
      (p : ProvedKeyValue) (o : Option Bytes) (path : List Bytes) (results results' : List Entry)
      → IsShown blake3 root p
      → p.value ≡ o
      → AllBound blake3 root results
      → add_leaf blake3 deserialize_elements p o path results ≡ ok results'
      → AllBound blake3 root results'
  unfolding add_leaf
  add_leaf-AllBound p none path results results' s has all e =
      subst (AllBound blake3 root) (ok-injective e) all
  add_leaf-AllBound p (some []) path results results' s has all e =
      subst (AllBound blake3 root) (ok-injective e) all
  add_leaf-AllBound p (some (b ∷ bs)) path results results' s has all e =
      let (bound, r, e') =
        >>=-eq-ok (bind_leaf_value blake3 p.node_type p.proof (b ∷ bs) (try_deserialize (b ∷ bs))) _
          e in
      subst (AllBound blake3 root) (ok-injective e') (
        All-snoc (λ (e : Entry). BoundValue blake3 root e e.value) results _ all
          (entry_of-BoundValue p (b ∷ bs) bound path s has r))

  -- A check that adds only bound values.
  record Keeps (check : Check) : Type 0 where
    pub keeps :
        (path : List Bytes) (results results' : List Entry) (limit : Option ℤ) (h : Bytes)
        → AllBound blake3 root results
        → check path results limit ≡ ok (h, results')
        → AllBound blake3 root results'

  abbrev AllKeep : Checks → Type 0
  AllKeep [] = Unit {0}
  AllKeep ((key, check) ∷ checks) = Keeps check × AllKeep checks

  find_check-Keeps :
      (key : Bytes) (checks : Checks) (check : Check)
      → AllKeep checks
      → find_check key checks ≡ some check
      → Keeps check
  unfolding find_check
  find_check-Keeps key [] check all e = cc
  find_check-Keeps key ((other, first) ∷ checks) check (one, all) e =
      elim (Bool-cases (bytes_eq other key)) [
        | inl same ↦ subst Keeps (cc (rw same at e)) one
        | inr apart ↦ find_check-Keeps key checks check all (rw apart at e)
      ]

  check_subtree-AllBound :
      (check : Check) (proved : ProvedKeyValue) (o : Option Bytes) (path : List Bytes)
      (results results' : List Entry) (limit : Option ℤ)
      → Keeps check
      → AllBound blake3 root results
      → check_subtree blake3 deserialize_elements check proved o path results limit ≡ ok results'
      → AllBound blake3 root results'
  unfolding check_subtree
  check_subtree-AllBound check proved none path results results' limit k all e = cc
  check_subtree-AllBound check proved (some v) path results results' limit k all e =
      elim (Bool-cases (is_rooted (try_deserialize v))) [
        | inr rootless ↦ cc (rw (check_subtree, rootless) at e)
        | inl rooted ↦
            let ((h, rs), r, e') =
              >>=-eq-ok
                (check (path ++ (proved.key ∷ [])) results (limit_left limit (length results))) _
                (rw (check_subtree, rooted) at e) in
            elim (Bool-cases
              (hash_equals (combine_hash blake3 (value_hash blake3 v) h) proved.proof)) [
                | inl same ↦
                    subst (AllBound blake3 root) (ok-injective (rw same at e'))
                      (k.keeps _ results rs _ h all r)
                | inr differ ↦ cc (rw differ at e')
              ]
      ]

  check_results-AllBound :
      (checks : Checks) (ps : List ProvedKeyValue) (path consumed consumed' : List Bytes)
      (results results' : List Entry) (limit : Option ℤ)
      → AllKeep checks
      → ((p : ProvedKeyValue) → Any (λ (q : ProvedKeyValue). q ≡ p) ps → IsShown blake3 root p)
      → AllBound blake3 root results
      → check_results blake3 deserialize_elements checks ps path consumed results limit
        ≡ ok (consumed', results')
      → AllBound blake3 root results'
  unfolding check_results
  check_results-AllBound checks [] path consumed consumed' results results' limit k shown all e =
      subst (AllBound blake3 root) (ap (λ (p : List Bytes × List Entry). p.1) (ok-injective e)) all
  check_results-AllBound checks (p ∷ ps) path consumed consumed' results results' limit k shown all
        e =
      elim (Option-cases (find_check (bytes_to_hex p.key) checks)) [
        | inl leaf ↦
            let (rs, r, e') =
              >>=-eq-ok (add_leaf blake3 deserialize_elements p p.value path results) _
                (rw (check_results, leaf) at e) in
            check_results-AllBound checks ps path consumed consumed' rs results' limit k
              (λ x a. shown x (inr a))
              (add_leaf-AllBound p p.value path results rs (shown p (inl refl)) refl all r) e'
        | inr (check, found) ↦
            let (rs, r, e') =
              >>=-eq-ok
                (check_subtree blake3 deserialize_elements check p p.value path results limit) _
                (rw (check_results, found) at e) in
            check_results-AllBound checks ps path _ consumed' rs results' limit k
              (λ x a. shown x (inr a))
              (check_subtree-AllBound check p p.value path results rs limit
                (find_check-Keeps _ checks check k found) all r)
              e'
      ]

  check_layer-Keeps :
      (merk : Bytes) (checks : Checks)
      → InLayer merk root
      → AllKeep checks
      → Keeps (check_layer blake3 deserialize_elements merk checks)
  unfolding check_layer
  check_layer-Keeps merk checks at k = record {
    keeps = λ path results results' limit h all e.
        let (m, r1, e1) = >>=-eq-ok (execute_merk_proof_with_query blake3 merk limit) _ e in
        let ((consumed, rs), r2, e2) =
          >>=-eq-ok
            (check_results blake3 deserialize_elements checks m.result_set path [] results limit) _
            e1 in
        elim (Bool-cases (all_consumed checks consumed)) [
          | inl done ↦
              subst (AllBound blake3 root)
                (ap (λ (p : Bytes × List Entry). p.1) (ok-injective (rw done at e2)))
                (check_results-AllBound checks m.result_set path [] consumed results rs limit k
                  (λ p a. record {
                    merk = merk;
                    of_layer = at;
                    limit = limit;
                    run = m;
                    executes = r1;
                    shown = a;
                  })
                  all r2)
          | inr left ↦ cc (rw left at e2)
        ];
  }

  mutual
    unfolding verify_layer_proof layer_checks

    verify_layer_proof-Keeps :
        (l : LayerProof)
        → ((merk : Bytes) → InLayer merk l → InLayer merk root)
        → Keeps (verify_layer_proof blake3 deserialize_elements l)
    verify_layer_proof-Keeps (layer merk ls) within =
        check_layer-Keeps merk _ (within merk (here merk ls))
          (layer_checks-AllKeep ls (λ m a. within m (deeper m merk ls a)))

    layer_checks-AllKeep :
        (ls : Layers)
        → ((merk : Bytes) → InLayers merk ls → InLayer merk root)
        → AllKeep (layer_checks blake3 deserialize_elements ls)
    layer_checks-AllKeep no_layers within = tt
    layer_checks-AllKeep (below key l ls) within = (
      verify_layer_proof-Keeps l (λ m a. within m (at_key m key l ls a)),
      layer_checks-AllKeep ls (λ m a. within m (beside m key l ls a)),
    )

module _ (blake3 : Bytes → Bytes) (deserialize_elements : Bool) where
  verify_proof-AllBound :
      (proof : GroveDbProof) (limit : Option ℤ) (expected : Option (List Bytes)) (h : Bytes)
      (results : List Entry)
      → verify_proof blake3 deserialize_elements proof limit expected ≡ ok (h, results)
      → AllBound blake3 proof.proof.root_layer results
  unfolding verify_proof
  verify_proof-AllBound proof limit expected h results e = elim (Bool-cases (proof.version == 0)) [
    | inl zero' ↦
        let (o, r1, e1) =
          >>=-eq-ok (check_prove_options proof.proof.prove_options) _ (rw zero' at e) in
        let (x, r2, e2) =
          >>=-eq-ok (check_expected blake3 deserialize_elements expected proof) _ e1 in
        (verify_layer_proof-Keeps blake3 deserialize_elements proof.proof.root_layer
            proof.proof.root_layer (λ m a. a)).keeps
          [] [] results limit h tt e2
    | inr other ↦ cc (rw other at e)
  ]

  -- Each value in the results of a proof that verifies, at any depth, is bound by a node: the execution of
  -- a layer's merk proof shows it under the entry's key and node type, and the value is not of 63 bytes
  -- in a `KV` node, not of 95 in a `KVRefValueHash` node, and in a value hash node is that of a tree
  -- element with no root key, whose value hash combined with the null hash is the hash that the node has.
  pub verify_grovedb_proof-AllBound :
      (input : Bytes) (limit : Option ℤ) (expected : Option (List Bytes)) (h : Bytes)
      (results : List Entry)
      → verify_grovedb_proof blake3 deserialize_elements input limit expected ≡ ok (h, results)
      → (proof : GroveDbProof) × (decode_grovedb_proof input ≡ ok proof)
        × AllBound blake3 proof.proof.root_layer results
  unfolding verify_grovedb_proof
  verify_grovedb_proof-AllBound input limit expected h results e =
      let (proof, r, e') = >>=-eq-ok (decode_grovedb_proof input) _ e in
      (proof, r, verify_proof-AllBound proof limit expected h results e')
