-- ===== src/Verifier/Recursion/Sound.antt =====
-- src/willow/grovedb/verifier.py: the results of a proof against the state whose root hash it computes.
use willow_sdk_python.Prelude.{
  not, ℕ, zero, suc, ◌≡◌, refl, ap, sym, ◌∙◌, arith, Bool, true, false, Option, none, some, List,
  [], ◌∷◌, ◌++◌, Bytes, All, length, ◌==◌, Bool-cases, Option-cases, ◌⊎◌, inl, inr, if◌then◌else◌,
  subst, bytes_eq, bytes_eq_iff,
}
use willow_sdk_python.Prelude.Int.{ℤ}
use willow_sdk_python.Prelude.Result.{past_check, bad_version, ok, >>=-eq-ok, ok-injective}
use willow_sdk_python.Hash.{value_hash, combine_hash, hash_equals, bytes_to_hex}
use willow_sdk_python.Bincode.{
  LayerProof, layer, Layers, no_layers, below, GroveDbProof, decode_grovedb_proof,
}
use willow_sdk_python.Merk.Executor.{
  NodeType, kv, kv_value_hash, kv_value_hash_feature_type, kv_ref_value_hash, kv_digest,
  ProvedKeyValue, execute_merk_proof_with_query,
}
use willow_sdk_python.Prelude.{All-snoc}
use willow_sdk_python.Merk.State.{
  Grove, Stored, subtree, Holds, Reaches, top, into, grove_hash, Broken,
}
use willow_sdk_python.Merk.State.Layer.{Meaning, Backed, execute_merk_proof_with_query-Backed}
use willow_sdk_python.Verifier.{
  check_envelope, Entry, try_deserialize, is_rooted, is_ambiguous, bind_leaf_value,
  check_prove_options,
}
use willow_sdk_python.Verifier.Recursion.Bound.{other_length}
use willow_sdk_python.Verifier.Envelope.{Fits, FitAll, Descends-Fits, check_envelope-Descends}
use willow_sdk_python.Verifier.Recursion.{
  Check, Checks, find_check, all_consumed, add_leaf, check_subtree, check_results, check_layer,
  verify_layer_proof, layer_checks, check_expected, verify_proof, verify_grovedb_proof, limit_left,
}
use willow_sdk_python.Verifier.Recursion.Stored.{
  ClearTo, Clear, Holds-Clear, TrueValue, TrueEntry, TrueValue-none, TrueHash, length-value_hash,
  kv_value_stored, combined_stored, reference_not_combined,
}

module _ (blake3 : Bytes → Bytes) (digest_length : (x : Bytes) → length (blake3 x) ≡ 32)
    (state : Grove) (deserialize_elements : Bool) where
  leaf_value :
      (n : NodeType) (proof v : Bytes) (bound : Bool) (path : List Bytes) (key : Bytes) (g : Grove)
      (s : Stored)
      → Reaches state path g
      → Holds key s g
      → Meaning blake3 digest_length n (some v) proof s
      → bind_leaf_value blake3 n proof v (try_deserialize v) ≡ ok bound
      → Broken blake3 ⊎ TrueValue state path key n (if bound then some v else none)
  unfolding bind_leaf_value is_ambiguous
  leaf_value n proof v false path key g s reached held m e = inr (TrueValue-none state path key n)
  leaf_value kv proof v true path key g s reached held (own, stored) e =
      elim (kv_value_stored blake3 digest_length v s (other_length (length v) 63 (ok-injective e))
        (sym own ∙ stored)) [
          | inl b ↦ inl b
          | inr same ↦ inr (g, reached, subst (λ (t : Stored). Holds key t g) same held)
        ]
  leaf_value kv_value_hash proof v true path key g s reached held m e = inr tt
  leaf_value kv_value_hash_feature_type proof v true path key g s reached held m e = inr tt
  leaf_value kv_ref_value_hash proof v true path key g s reached held m e = inr tt
  leaf_value kv_digest proof v true path key g s reached held m e = inr tt

  -- The hash of a `KV` node's value is that of an entry.
  leaf_hash :
      (n : NodeType) (proof v : Bytes) (keep : Bool) (path : List Bytes) (key : Bytes) (g : Grove)
      (s : Stored)
      → Reaches state path g
      → Holds key s g
      → Meaning blake3 digest_length n (some v) proof s
      → TrueHash blake3 state path key n (if keep then some v else none)
  leaf_hash kv proof v true path key g s reached held (own, stored) =
      (g, reached, s, held, sym own ∙ stored)
  leaf_hash kv proof v false path key g s reached held m = tt
  leaf_hash kv_value_hash proof v keep path key g s reached held m = tt
  leaf_hash kv_value_hash_feature_type proof v keep path key g s reached held m = tt
  leaf_hash kv_ref_value_hash proof v keep path key g s reached held m = tt
  leaf_hash kv_digest proof v keep path key g s reached held m = tt

  add_leaf-AllTrue :
      (proved : ProvedKeyValue) (o : Option Bytes) (path : List Bytes)
      (results results' : List Entry) (g : Grove) (s : Stored)
      → Reaches state path g
      → Holds proved.key s g
      → Meaning blake3 digest_length proved.node_type o proved.proof s
      → All (TrueEntry blake3 state) results
      → add_leaf blake3 deserialize_elements proved o path results ≡ ok results'
      → Broken blake3 ⊎ All (TrueEntry blake3 state) results'
  unfolding add_leaf
  add_leaf-AllTrue proved none path results results' g s reached held m all e =
      inr (subst (All (TrueEntry blake3 state)) (ok-injective e) all)
  add_leaf-AllTrue proved (some []) path results results' g s reached held m all e =
      inr (subst (All (TrueEntry blake3 state)) (ok-injective e) all)
  add_leaf-AllTrue proved (some (b ∷ bs)) path results results' g s reached held m all e =
      let v : Bytes = b ∷ bs in
      let (bound, r, e') =
        >>=-eq-ok (bind_leaf_value blake3 proved.node_type proved.proof v (try_deserialize v)) _
          e in
      elim (leaf_value proved.node_type proved.proof v bound path proved.key g s reached held m r) [
        | inl bad ↦ inl bad
        | inr one ↦ inr (
            subst (All (TrueEntry blake3 state)) (ok-injective e') (
              All-snoc (TrueEntry blake3 state) results _ all (
                one,
                leaf_hash proved.node_type proved.proof v (is_ambiguous proved.node_type v) path
                    proved.key g s reached held m,
              )))
      ]

  -- A check whose results are true wherever its root hash is that of the merk tree at its path, if the
  -- entries are clear for as many levels as it goes down.
  record Sound (levels : ℕ) (check : Check) : Type 0 where
    pub sized :
        (path : List Bytes) (results results' : List Entry) (limit : Option ℤ) (h : Bytes)
        → check path results limit ≡ ok (h, results')
        → length h ≡ 32
    pub sound :
        (path : List Bytes) (results results' : List Entry) (limit : Option ℤ) (h : Bytes)
        (g : Grove)
        → check path results limit ≡ ok (h, results')
        → h ≡ grove_hash blake3 g
        → Reaches state path g
        → ClearTo levels g
        → All (TrueEntry blake3 state) results
        → Broken blake3 ⊎ All (TrueEntry blake3 state) results'

  abbrev SoundBelow : (levels : ℕ) → Check → Type 0
  SoundBelow zero check = ⊥
  SoundBelow (suc n) check = Sound n check

  -- An entry with a lower layer is the subtree that the layer proves.
  subtree_of :
      (levels : ℕ) (n : NodeType) (proof v h : Bytes) (s : Stored)
      → length h ≡ 32
      → Clear levels s
      → is_rooted (try_deserialize v) ≡ true
      → Meaning blake3 digest_length n (some v) proof s
      → combine_hash blake3 (value_hash blake3 v) h ≡ proof
      → Broken blake3
        ⊎ ((g : Grove) × (s ≡ subtree v g) × (h ≡ grove_hash blake3 g) × ClearTo levels g)
  subtree_of levels kv proof v h s size c rooted (own, stored) same =
      combined_stored blake3 digest_length levels v h s size c rooted (same ∙ stored)
  subtree_of levels kv_value_hash proof v h s size c rooted stored same =
      combined_stored blake3 digest_length levels v h s size c rooted (same ∙ stored)
  subtree_of levels kv_value_hash_feature_type proof v h s size c rooted stored same =
      combined_stored blake3 digest_length levels v h s size c rooted (same ∙ stored)
  subtree_of levels kv_digest proof v h s size c rooted stored same =
      combined_stored blake3 digest_length levels v h s size c rooted (same ∙ stored)
  subtree_of levels kv_ref_value_hash proof v h s size c rooted (hp, stored) same = inl (
      reference_not_combined blake3 digest_length levels proof (value_hash blake3 v)
        (value_hash blake3 v) h s hp (length-value_hash blake3 digest_length v) size c stored same
        (length-value_hash blake3 digest_length v))

  check_subtree-AllTrue :
      (levels : ℕ) (check : Check) (proved : ProvedKeyValue) (o : Option Bytes) (path : List Bytes)
      (results results' : List Entry) (limit : Option ℤ) (g : Grove) (s : Stored)
      → SoundBelow levels check
      → Reaches state path g
      → ClearTo levels g
      → Holds proved.key s g
      → Meaning blake3 digest_length proved.node_type o proved.proof s
      → All (TrueEntry blake3 state) results
      → check_subtree blake3 deserialize_elements check proved o path results limit ≡ ok results'
      → Broken blake3 ⊎ All (TrueEntry blake3 state) results'
  unfolding check_subtree hash_equals
  check_subtree-AllTrue levels check proved none path results results' limit g s k reached c held m
        all e =
      cc
  check_subtree-AllTrue zero check proved (some v) path results results' limit g s k reached c held
        m all e =
      absurd k
  check_subtree-AllTrue (suc n) check proved (some v) path results results' limit g s k reached c
        held m all e =
      elim (Bool-cases (is_rooted (try_deserialize v))) [
        | inr rootless ↦ cc (rw (check_subtree, rootless) at e)
        | inl rooted ↦
            let ((h, rs), r, e') =
              >>=-eq-ok
                (check (path ++ (proved.key ∷ [])) results (limit_left limit (length results))) _
                (rw (check_subtree, rooted) at e) in
            elim (Bool-cases
              (hash_equals (combine_hash blake3 (value_hash blake3 v) h) proved.proof)) [
                | inr differ ↦ cc (rw differ at e')
                | inl same ↦
                    elim (subtree_of n proved.node_type proved.proof v h s
                      (k.sized _ results rs _ h r) (Holds-Clear n proved.key s g c held) rooted m
                      ((bytes_eq_iff _ proved.proof).0 (ground arith))) [
                        | inl bad ↦ inl bad
                        | inr (lower, is_subtree, hash, below') ↦
                            subst
                              (λ (xs : List Entry). Broken blake3 ⊎ All (TrueEntry blake3 state) xs)
                              (ok-injective (rw same at e'))
                              (k.sound _ results rs _ h lower r hash
                                (into path proved.key v g lower reached
                                  (subst (λ (t : Stored). Holds proved.key t g) is_subtree held))
                                below' all)
                      ]
              ]
      ]

  -- The checks of lower layers, which a layer at the last level has none of.
  abbrev AllSound : (levels : ℕ) → Checks → Type 0
  AllSound n [] = Unit {0}
  AllSound n ((key, check) ∷ checks) = SoundBelow n check × AllSound n checks

  find_check-Sound :
      (levels : ℕ) (key : Bytes) (checks : Checks) (check : Check)
      → AllSound levels checks
      → find_check key checks ≡ some check
      → SoundBelow levels check
  unfolding find_check
  find_check-Sound n key [] check all e = cc
  find_check-Sound n key ((other, first) ∷ checks) check (one, all) e =
      elim (Bool-cases (bytes_eq other key)) [
        | inl same ↦ subst (SoundBelow n) (cc (rw same at e)) one
        | inr apart ↦ find_check-Sound n key checks check all (rw apart at e)
      ]

  check_results-AllTrue :
      (levels : ℕ) (checks : Checks) (ps : List ProvedKeyValue)
      (path consumed consumed' : List Bytes) (results results' : List Entry) (limit : Option ℤ)
      (g : Grove)
      → AllSound levels checks
      → Reaches state path g
      → ClearTo levels g
      → All (Backed blake3 digest_length g) ps
      → All (TrueEntry blake3 state) results
      → check_results blake3 deserialize_elements checks ps path consumed results limit
        ≡ ok (consumed', results')
      → Broken blake3 ⊎ All (TrueEntry blake3 state) results'
  unfolding check_results
  check_results-AllTrue levels checks [] path consumed consumed' results results' limit g k reached
        c backed all e =
      inr (
        subst (All (TrueEntry blake3 state))
          (ap (λ (p : List Bytes × List Entry). p.1) (ok-injective e)) all)
  check_results-AllTrue levels checks (p ∷ ps) path consumed consumed' results results' limit g k
        reached c ((s, held, m), backed) all e =
      elim (Option-cases (find_check (bytes_to_hex p.key) checks)) [
        | inl leaf ↦
            let (rs, r, e') =
              >>=-eq-ok (add_leaf blake3 deserialize_elements p p.value path results) _
                (rw (check_results, leaf) at e) in
            elim (add_leaf-AllTrue p p.value path results rs g s reached held m all r) [
              | inl bad ↦ inl bad
              | inr next ↦
                  check_results-AllTrue levels checks ps path consumed consumed' rs results' limit g
                    k reached c backed next e'
            ]
        | inr (check, found) ↦
            let (rs, r, e') =
              >>=-eq-ok
                (check_subtree blake3 deserialize_elements check p p.value path results limit) _
                (rw (check_results, found) at e) in
            elim (check_subtree-AllTrue levels check p p.value path results rs limit g s
              (find_check-Sound levels _ checks check k found) reached c held m all r) [
                | inl bad ↦ inl bad
                | inr next ↦
                    check_results-AllTrue levels checks ps path _ consumed' rs results' limit g k
                      reached c backed next e'
              ]
      ]

  check_layer-Sound :
      (levels : ℕ) (merk : Bytes) (checks : Checks)
      → AllSound levels checks
      → Sound levels (check_layer blake3 deserialize_elements merk checks)
  unfolding check_layer
  check_layer-Sound levels merk checks k = record {
    sized = λ path results results' limit h e.
        let (m, r1, e1) = >>=-eq-ok (execute_merk_proof_with_query blake3 merk limit) _ e in
        let ((consumed, rs), r2, e2) =
          >>=-eq-ok
            (check_results blake3 deserialize_elements checks m.result_set path [] results limit) _
            e1 in
        elim (Bool-cases (all_consumed checks consumed)) [
          | inl done ↦
              ap length (sym (ap (λ (p : Bytes × List Entry). p.0) (ok-injective (rw done at e2))))
              ∙ (execute_merk_proof_with_query-Backed blake3 digest_length merk limit m r1).0
          | inr left ↦ cc (rw left at e2)
        ];
    sound = λ path results results' limit h g e hash reached c all.
        let (m, r1, e1) = >>=-eq-ok (execute_merk_proof_with_query blake3 merk limit) _ e in
        let ((consumed, rs), r2, e2) =
          >>=-eq-ok
            (check_results blake3 deserialize_elements checks m.result_set path [] results limit) _
            e1 in
        elim (Bool-cases (all_consumed checks consumed)) [
          | inr left ↦ cc (rw left at e2)
          | inl done ↦
              let same = ok-injective (rw done at e2) in
              elim ((execute_merk_proof_with_query-Backed blake3 digest_length merk limit m r1).1 g
                (ap (λ (p : Bytes × List Entry). p.0) same ∙ hash)) [
                  | inl bad ↦ inl bad
                  | inr backed ↦
                      subst (λ (xs : List Entry). Broken blake3 ⊎ All (TrueEntry blake3 state) xs)
                        (ap (λ (p : Bytes × List Entry). p.1) same)
                        (check_results-AllTrue levels checks m.result_set path [] consumed results
                          rs limit g k reached c backed all r2)
                ]
        ];
  }

  mutual
    unfolding verify_layer_proof layer_checks Fits

    verify_layer_proof-Sound :
        (levels : ℕ) (l : LayerProof)
        → Fits levels l
        → Sound levels (verify_layer_proof blake3 deserialize_elements l)
    verify_layer_proof-Sound n (layer merk ls) f =
        check_layer-Sound n merk _ (layer_checks-AllSound n ls f)

    layer_checks-AllSound :
        (levels : ℕ) (ls : Layers)
        → FitAll levels ls
        → AllSound levels (layer_checks blake3 deserialize_elements ls)
    layer_checks-AllSound n no_layers f = tt
    layer_checks-AllSound zero (below key l ls) f = absurd f
    layer_checks-AllSound (suc n) (below key l ls) (f, fs) =
        (verify_layer_proof-Sound n l f, layer_checks-AllSound (suc n) ls fs)

  expected_envelope :
      (proof : GroveDbProof) (path : List Bytes)
      → check_expected blake3 deserialize_elements (some path) proof ≡ ok tt
      → check_envelope proof path ≡ ok tt
  unfolding check_expected
  expected_envelope proof path e = e

  verify_proof-AllTrue :
      (proof : GroveDbProof) (limit : Option ℤ) (path : List Bytes) (results : List Entry)
      → ClearTo (length path) state
      → verify_proof blake3 deserialize_elements proof limit (some path)
        ≡ ok (grove_hash blake3 state, results)
      → Broken blake3 ⊎ All (TrueEntry blake3 state) results
  unfolding verify_proof
  verify_proof-AllTrue proof limit path results c e =
      let (o, r1, e1) =
        >>=-eq-ok (check_prove_options proof.proof.prove_options) _
          (past_check (not (proof.version == 0)) bad_version e) in
      let (x, r2, e2) =
        >>=-eq-ok (check_expected blake3 deserialize_elements (some path) proof) _ e1 in
      let (version, options, descends) =
        check_envelope-Descends proof path (expected_envelope proof path r2) in
      (verify_layer_proof-Sound (length path) proof.proof.root_layer
          (Descends-Fits proof.proof.root_layer path descends)).sound
        [] [] results limit _ state e2 refl top c tt

  -- The results of a proof that verifies for a path, with the root hash of a state of which the entries
  -- above the path are clear: each `KV` value among them is an element that the state holds under its
  -- key at its path, or BLAKE3 is broken.
  pub verify_grovedb_proof-AllTrue :
      (input : Bytes) (limit : Option ℤ) (path : List Bytes) (results : List Entry)
      → ClearTo (length path) state
      → verify_grovedb_proof blake3 deserialize_elements input limit (some path)
        ≡ ok (grove_hash blake3 state, results)
      → Broken blake3 ⊎ All (TrueEntry blake3 state) results
  unfolding verify_grovedb_proof
  verify_grovedb_proof-AllTrue input limit path results c e =
      let (proof, r, e') = >>=-eq-ok (decode_grovedb_proof input) _ e in
      verify_proof-AllTrue proof limit path results c e'
