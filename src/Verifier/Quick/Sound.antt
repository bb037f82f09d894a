-- ===== src/Verifier/Quick/Sound.antt =====
-- src/willow/grovedb/verifier.py, `quick_verify`: the layers of a proof against the state whose root hash
-- it computes.
use willow_sdk_python.Prelude.{
  ◌≡◌, ◌≢◌, refl, ap, sym, ◌∙◌, arith, true, Option, none, some, List, [], ◌∷◌, Bytes, All, length,
  Bool-cases, Option-cases, ◌⊎◌, inl, inr, subst, bytes_eq, bytes_eq_iff,
}
use willow_sdk_python.Prelude.Result.{Result, ok, >>=-eq-ok, ok-injective}
use willow_sdk_python.Hash.{value_hash, combine_hash, hash_equals, bytes_to_hex}
use willow_sdk_python.Hash.Binding.{value_hash_binds, combine_hash_binds}
use willow_sdk_python.Hash.Ambiguity.{value_hash-combine_hash}
use willow_sdk_python.Bincode.{
  LayerProof, layer, Layers, no_layers, below, GroveDbProof, decode_grovedb_proof,
}
use willow_sdk_python.Merk.Executor.{
  NodeType, kv, kv_value_hash, kv_value_hash_feature_type, kv_ref_value_hash, kv_digest,
  ProvedKeyValue, MerkExecutionResult, execute_merk_proof_with_query,
}
use willow_sdk_python.Merk.State.{
  Grove, empty, entry, Stored, plain, reference, subtree, Holds, grove_hash, stored_hash, Broken,
}
use willow_sdk_python.Merk.State.Layer.{Meaning, Backed, execute_merk_proof_with_query-Backed}
use willow_sdk_python.Verifier.Recursion.Stored.{Clear, length-value_hash, reference_not_combined}
use willow_sdk_python.Verifier.Quick.{
  find_proved, value_found, quick_verify_lower, quick_verify_layer, quick_verify_layers,
  quick_verify,
}

-- A state of which no element is of 63 bytes, at any depth, and none is a reference.
unfoldable mutual
  pub ClearAll : Grove → Type 0
  ClearAll empty = Unit {0}
  ClearAll (entry k s l r) = ClearStored s × ClearAll l × ClearAll r

  pub ClearStored : Stored → Type 0
  ClearStored (plain e) = length e ≢ 63
  ClearStored (reference e v) = ⊥
  ClearStored (subtree e g) = (length e ≢ 63) × ClearAll g

Holds-ClearStored : (k : Bytes) (s : Stored) (g : Grove) → ClearAll g → Holds k s g → ClearStored s
unfolding ClearAll
Holds-ClearStored k s empty c h = absurd h
Holds-ClearStored k s (entry key stored l r) (c, cl, cr) (inl (same, is_it)) =
    subst ClearStored (sym is_it) c
Holds-ClearStored k s (entry key stored l r) (c, cl, cr) (inr (inl h)) =
    Holds-ClearStored k s l cl h
Holds-ClearStored k s (entry key stored l r) (c, cl, cr) (inr (inr h)) =
    Holds-ClearStored k s r cr h

ClearStored-Clear : (s : Stored) → ClearStored s → Clear 0 s
unfolding ClearAll Clear
ClearStored-Clear (plain e) c = c
ClearStored-Clear (reference e v) c = absurd c
ClearStored-Clear (subtree e g) (c, under) = (c, tt)

module _ (blake3 : Bytes → Bytes) where
  -- A layer is of a merk tree of the state: its merk proof executes with that tree's hash, and each layer
  -- below it is of the merk tree that the state holds under the layer's key.
  mutual
    pub data IsOf : LayerProof → Grove → Type 0 where
      is_of :
          (merk : Bytes) (ls : Layers) (g : Grove) (m : MerkExecutionResult)
          → execute_merk_proof_with_query blake3 merk none ≡ ok m
          → m.root_hash ≡ grove_hash blake3 g
          → AreOf ls g
          → IsOf (layer merk ls) g

    pub data AreOf : Layers → Grove → Type 0 where
      no_more : (g : Grove) → AreOf no_layers g
      under :
          (key k element : Bytes) (l : LayerProof) (ls : Layers) (g lower : Grove)
          → bytes_to_hex k ≡ key
          → Holds k (subtree element lower) g
          → IsOf l lower
          → AreOf ls g
          → AreOf (below key l ls) g

module _ (blake3 : Bytes → Bytes) (digest_length : (x : Bytes) → length (blake3 x) ≡ 32) where
  hash_same : (a b : Bytes) → hash_equals a b ≡ true → a ≡ b
  unfolding hash_equals
  hash_same a b e = (bytes_eq_iff a b).0 (ground arith)

  -- The result that the loop finds is of the result set, and has the key.
  find_proved-Backed :
      (g : Grove) (key : Bytes) (ps : List ProvedKeyValue) (p : ProvedKeyValue)
      → All (Backed blake3 digest_length g) ps
      → find_proved key ps ≡ some p
      → Backed blake3 digest_length g p × (bytes_to_hex p.key ≡ key)
  unfolding find_proved
  find_proved-Backed g key [] p all e = cc
  find_proved-Backed g key (q ∷ ps) p (one, all) e =
      elim (Bool-cases (bytes_eq (bytes_to_hex q.key) key)) [
        | inl same ↦
            let found : q ≡ p = cc (rw (find_proved, same) at e) in
            subst
              (λ (x : ProvedKeyValue). Backed blake3 digest_length g x × (bytes_to_hex x.key ≡ key))
              found (one, (bytes_eq_iff (bytes_to_hex q.key) key).0 same)
        | inr other ↦ find_proved-Backed g key ps p all (rw (find_proved, other) at e)
      ]

  -- A value with a lower hash, bound to an entry that is no reference, is a subtree of that hash.
  combined_subtree :
      (v h : Bytes) (s : Stored)
      → length h ≡ 32
      → ClearStored s
      → combine_hash blake3 (value_hash blake3 v) h ≡ stored_hash blake3 s
      → Broken blake3 ⊎ ((g : Grove) × (s ≡ subtree v g) × (h ≡ grove_hash blake3 g) × ClearAll g)
  unfolding stored_hash ClearAll
  combined_subtree v h (plain e) size clear same =
      elim (value_hash-combine_hash blake3 e _ _ (length-value_hash blake3 digest_length v) size
        (sym same)) [ inl p ↦ absurd (clear p) | inr c ↦ inl (inl c) ]
  combined_subtree v h (reference e w) size clear same = absurd clear
  combined_subtree v h (subtree e g) size (long, below') same =
      elim (combine_hash_binds blake3 _ h _ _
        (length-value_hash blake3 digest_length v ∙ sym (length-value_hash blake3 digest_length e))
        same) [
          | inr c ↦ inl (inl c)
          | inl (values, lower) ↦ elim (value_hash_binds blake3 v e values) [
            | inl p ↦ inr (g, ap (λ (x : Bytes). subtree x g) (sym p), lower, below')
            | inr c ↦ inl (inl c)
          ]
        ]

  shown_subtree :
      (n : NodeType) (proof v h : Bytes) (s : Stored)
      → length h ≡ 32
      → ClearStored s
      → Meaning blake3 digest_length n (some v) proof s
      → combine_hash blake3 (value_hash blake3 v) h ≡ proof
      → Broken blake3 ⊎ ((g : Grove) × (s ≡ subtree v g) × (h ≡ grove_hash blake3 g) × ClearAll g)
  shown_subtree kv proof v h s size c (own, stored) same =
      combined_subtree v h s size c (same ∙ stored)
  shown_subtree kv_value_hash proof v h s size c stored same =
      combined_subtree v h s size c (same ∙ stored)
  shown_subtree kv_value_hash_feature_type proof v h s size c stored same =
      combined_subtree v h s size c (same ∙ stored)
  shown_subtree kv_digest proof v h s size c stored same =
      combined_subtree v h s size c (same ∙ stored)
  shown_subtree kv_ref_value_hash proof v h s size c (hp, stored) same = inl (
      reference_not_combined blake3 digest_length 0 proof (value_hash blake3 v)
        (value_hash blake3 v) h s hp (length-value_hash blake3 digest_length v) size
        (ClearStored-Clear s c) stored same (length-value_hash blake3 digest_length v))

  quick_verify_layer-length :
      (l : LayerProof) (h : Bytes) → quick_verify_layer blake3 l ≡ ok h → length h ≡ 32
  unfolding quick_verify_layer
  quick_verify_layer-length (layer merk ls) h e =
      let (m, r1, e1) = >>=-eq-ok (execute_merk_proof_with_query blake3 merk none) _ e in
      let (u, r2, e2) = >>=-eq-ok (quick_verify_layers blake3 m.result_set ls) _ e1 in
      ap length (sym (ok-injective e2))
      ∙ (execute_merk_proof_with_query-Backed blake3 digest_length merk none m r1).0

  -- A round of the loop that goes on: what it found, and that the hashes agree.
  quick_verify_lower-eq :
      (o : Option ProvedKeyValue) (lower : Result Bytes) (later : Result (Unit {0}))
      → quick_verify_lower blake3 (value_found o) lower later ≡ ok tt
      → (p : ProvedKeyValue) × (v h : Bytes) × (o ≡ some p)
        × (p.value ≡ some v)
        × (lower ≡ ok h)
        × (combine_hash blake3 (value_hash blake3 v) h ≡ p.proof)
        × (later ≡ ok tt)
  unfolding quick_verify_lower
  quick_verify_lower-eq none lower later e = cc
  quick_verify_lower-eq (some p) lower later e = elim (Option-cases p.value) [
    | inl digest ↦ cc (rw (quick_verify_lower, digest) at e)
    | inr (v, has) ↦
        let (h, r, e1) = >>=-eq-ok lower _ (rw (quick_verify_lower, has) at e) in
        elim (Bool-cases (hash_equals (combine_hash blake3 (value_hash blake3 v) h) p.proof)) [
          | inr differ ↦ cc (rw differ at e1)
          | inl same ↦ (p, v, h, refl, has, r, hash_same _ p.proof same, rw same at e1)
        ]
  ]

  mutual
    unfolding quick_verify_layer quick_verify_layers

    quick_verify_layer-IsOf :
        (l : LayerProof) (g : Grove)
        → ClearAll g
        → quick_verify_layer blake3 l ≡ ok (grove_hash blake3 g)
        → Broken blake3 ⊎ IsOf blake3 l g
    quick_verify_layer-IsOf (layer merk ls) g c e =
        let (m, r1, e1) = >>=-eq-ok (execute_merk_proof_with_query blake3 merk none) _ e in
        let (u, r2, e2) = >>=-eq-ok (quick_verify_layers blake3 m.result_set ls) _ e1 in
        elim ((execute_merk_proof_with_query-Backed blake3 digest_length merk none m r1).1 g
          (ok-injective e2)) [
            | inl bad ↦ inl bad
            | inr backed ↦ elim (quick_verify_layers-AreOf ls m.result_set g c backed r2) [
              | inl bad ↦ inl bad
              | inr later ↦ inr (is_of merk ls g m r1 (ok-injective e2) later)
            ]
          ]

    quick_verify_layers-AreOf :
        (ls : Layers) (ps : List ProvedKeyValue) (g : Grove)
        → ClearAll g
        → All (Backed blake3 digest_length g) ps
        → quick_verify_layers blake3 ps ls ≡ ok tt
        → Broken blake3 ⊎ AreOf blake3 ls g
    quick_verify_layers-AreOf no_layers ps g c backed e = inr (no_more g)
    quick_verify_layers-AreOf (below key l ls) ps g c backed e =
        let (p, v, h, found, has, r, same, e1) = quick_verify_lower-eq (find_proved key ps) _ _ e in
        let ((s, held, m), hex) = find_proved-Backed g key ps p backed found in
        elim (shown_subtree p.node_type p.proof v h s (quick_verify_layer-length l h r)
          (Holds-ClearStored p.key s g c held)
          (subst (λ (o : Option Bytes). Meaning blake3 digest_length p.node_type o p.proof s) has m)
          same) [
            | inl bad ↦ inl bad
            | inr (lower, is_subtree, hash, below') ↦
                elim (quick_verify_layer-IsOf l lower below' (r ∙ ap ok hash)) [
                  | inl bad ↦ inl bad
                  | inr one ↦ elim (quick_verify_layers-AreOf ls ps g c backed e1) [
                    | inl bad ↦ inl bad
                    | inr later ↦ inr (
                        under key p.key v l ls g lower hex
                          (subst (λ (t : Stored). Holds p.key t g) is_subtree held) one later)
                  ]
                ]
          ]

  -- Let BLAKE3's hashes be of 32 bytes, and let a state hold no element of 63 bytes and no reference. When
  -- `quick_verify` returns the state's root hash for a proof, every layer of the proof is of the state:
  -- the root layer's merk proof executes with the hash of the state's merk tree, and each lower layer's,
  -- at every depth, with that of the merk tree which the state holds under the layer's key in the tree of
  -- the layer above; or BLAKE3 has a collision or an input whose hash is 32 zero bytes.
  pub quick_verify-IsOf :
      (input : Bytes) (state : Grove)
      → ClearAll state
      → quick_verify blake3 input ≡ ok (grove_hash blake3 state)
      → Broken blake3
        ⊎ ((proof : GroveDbProof) × (decode_grovedb_proof input ≡ ok proof)
            × IsOf blake3 proof.proof.root_layer state)
  unfolding quick_verify
  quick_verify-IsOf input state c e =
      let (proof, r, e1) = >>=-eq-ok (decode_grovedb_proof input) _ e in
      elim (quick_verify_layer-IsOf proof.proof.root_layer state c e1) [
        | inl bad ↦ inl bad
        | inr all ↦ inr (proof, r, all)
      ]
