-- ===== src/Merk/State/Layer.antt =====
-- src/willow/grovedb/executor.py, `execute_merk_proof_with_query`: what its results say of the merk
-- tree of a state whose hash it computes.
use willow_sdk_python.Prelude.{
  ◌≡◌, refl, ◌⊎◌, inl, inr, ap, sym, ◌∙◌, true, Bool-cases, Option, none, some, Option-cases, List,
  [], ◌∷◌, Bytes, length, All, subst,
}
use willow_sdk_python.Prelude.Int.{ℤ}
use willow_sdk_python.Prelude.Result.{ok, >>=-eq-ok, ok-injective}
use willow_sdk_python.Hash.{value_hash, combine_hash, kv_digest_to_kv_hash}
use willow_sdk_python.Hash.Binding.{kv_digest_binds, kv_hash-kv_digest}
use willow_sdk_python.Merk.Nodes.{
  MerkNode, hash_node, kv_hash_node, kv_node, kv_value_hash_node, kv_digest_node,
  kv_ref_value_hash_node, kv_value_hash_feature_type_node,
}
use willow_sdk_python.Merk.Tree.{compute_kv_hash, tree_hash}
use willow_sdk_python.Merk.Decoder.{decode_merk_ops}
use willow_sdk_python.Merk.Decoder.Sized.{decode_merk_ops-Sized}
use willow_sdk_python.Merk.Executor.{
  NodeType, kv, kv_ref_value_hash, ProvedKeyValue, MerkExecutionResult, proved_of, is_spent, spend,
  counts, collect, execute_ops, execute_merk_proof_with_query,
}
use willow_sdk_python.Prelude.{All-imp}
use willow_sdk_python.Merk.Executor.Shown.{execute_ops-Executed}
use willow_sdk_python.Merk.Shape.{Shape, absent, node, AllSized, SizedNode, Shows}
use willow_sdk_python.Merk.State.{Grove, Stored, Holds, grove_hash, stored_hash, Broken}
use willow_sdk_python.Merk.State.Binds.{Found, shape_binds, length-HashesTo}

-- Of the nodes of one kind, the hashes of the right length.
abbrev SizedResult : NodeType → Bytes → Type 0
SizedResult kv_ref_value_hash p = length p ≡ 32
SizedResult n p = Unit {0}

module _ (blake3 : Bytes → Bytes) (digest_length : (x : Bytes) → length (blake3 x) ≡ 32) where
  -- What the hash in a result says of the entry that stands under its key.
  abbrev pub Meaning : NodeType → Option Bytes → (proof : Bytes) → Stored → Type 0
  Meaning kv none proof s = Unit {0}
  Meaning kv (some v) proof s = (proof ≡ value_hash blake3 v) × (proof ≡ stored_hash blake3 s)
  Meaning kv_ref_value_hash none proof s = Unit {0}
  Meaning kv_ref_value_hash (some v) proof s =
      (length proof ≡ 32) × (combine_hash blake3 proof (value_hash blake3 v) ≡ stored_hash blake3 s)
  Meaning n v proof s = proof ≡ stored_hash blake3 s

  -- A result stands for an entry of the merk tree.
  abbrev pub Backed : Grove → ProvedKeyValue → Type 0
  Backed g p = (s : Stored) × Holds p.key s g × Meaning p.node_type p.value p.proof s

  backed :
      (k x j y : Bytes) (g : Grove) (s : Stored) (q p : ProvedKeyValue)
      → some q ≡ some p
      → Holds j s g
      → kv_digest_to_kv_hash blake3 k x ≡ kv_digest_to_kv_hash blake3 j y
      → q.key ≡ k
      → (x ≡ y → Meaning q.node_type q.value q.proof s)
      → Broken blake3 ⊎ Backed g p
  backed k x j y g s q p e held hashes key meaning = elim (kv_digest_binds blake3 k j x y hashes) [
    | inl (same, values) ↦
        let entry : q ≡ p = cc e in
        inr (
          subst (λ (r : ProvedKeyValue). Backed g r) entry
            (s, subst (λ (b : Bytes). Holds b s g) (sym (key ∙ same)) held, meaning values))
    | inr c ↦ inl (inl c)
  ]

  -- The result of a node that stands in the merk tree.
  digests :
      (n : MerkNode) (p : ProvedKeyValue) (k : Bytes) (s : Stored) (g : Grove)
      → proved_of blake3 n ≡ some p
      → SizedNode n
      → Holds k s g
      → compute_kv_hash blake3 n ≡ ok (kv_digest_to_kv_hash blake3 k (stored_hash blake3 s))
      → Broken blake3 ⊎ Backed g p
  unfolding proved_of compute_kv_hash
  digests (hash_node h) p k s g e z held c = cc
  digests (kv_hash_node h) p k s g e z held c = cc
  digests (kv_node j v) p k s g e z held c =
      backed j _ k (stored_hash blake3 s) g s _ p e held
        (sym (kv_hash-kv_digest blake3 j v) ∙ ok-injective c) refl (λ same. (refl, same))
  digests (kv_value_hash_node j v h) p k s g e z held c =
      backed j _ k (stored_hash blake3 s) g s _ p e held (ok-injective c) refl (λ same. same)
  digests (kv_digest_node j h) p k s g e z held c =
      backed j _ k (stored_hash blake3 s) g s _ p e held (ok-injective c) refl (λ same. same)
  digests (kv_ref_value_hash_node j v h) p k s g e z held c =
      backed j _ k (stored_hash blake3 s) g s _ p e held (ok-injective c) refl (λ same. (z, same))
  digests (kv_value_hash_feature_type_node j v h f) p k s g e z held c =
      backed j _ k (stored_hash blake3 s) g s _ p e held (ok-injective c) refl (λ same. same)

  Found-Backed :
      (n : MerkNode) (p : ProvedKeyValue) (g : Grove)
      → proved_of blake3 n ≡ some p
      → SizedNode n
      → Found blake3 digest_length n g
      → Broken blake3 ⊎ Backed g p
  unfolding proved_of
  Found-Backed n p g e z (inl (h, same)) = cc (rw same at e)
  Found-Backed n p g e z (inr (k, s, held, c)) = digests n p k s g e z held c

  collect-Backed :
      (limit : Option ℤ) (ns : List MerkNode) (g : Grove)
      → All (λ (n : MerkNode). SizedNode n × Found blake3 digest_length n g) ns
      → Broken blake3 ⊎ All (Backed g) (collect blake3 limit ns).0
  unfolding collect
  collect-Backed limit [] g all = inr tt
  collect-Backed limit (n ∷ ns) g ((z, found), all) = elim (Bool-cases (is_spent blake3 limit)) [
    | inl spent ↦ rw (collect, spent) (collect-Backed limit ns g all)
    | inr more ↦ elim (Option-cases (proved_of blake3 n)) [
      | inl nothing ↦ rw (collect, more, nothing) (collect-Backed limit ns g all)
      | inr (p, proved) ↦ elim (Found-Backed n p g proved z found) [
        | inl b ↦ inl b
        | inr one ↦ elim (collect-Backed (spend blake3 (counts blake3 p) limit) ns g all) [
          | inl b ↦ inl b
          | inr later ↦ inr (rw (collect, more, proved) (one, later))
        ]
      ]
    ]
  ]

  Shows-SizedNode : (n : MerkNode) (s : Shape) → AllSized s → Shows n s → SizedNode n
  Shows-SizedNode n absent z h = absurd h
  Shows-SizedNode n (node m l r) (z, zl, zr) (inl same) = subst SizedNode (sym same) z
  Shows-SizedNode n (node m l r) (z, zl, zr) (inr (inl h)) = Shows-SizedNode n l zl h
  Shows-SizedNode n (node m l r) (z, zl, zr) (inr (inr h)) = Shows-SizedNode n r zr h

  pub execute_merk_proof_with_query-Backed :
      (input : Bytes) (limit : Option ℤ) (m : MerkExecutionResult)
      → execute_merk_proof_with_query blake3 input limit ≡ ok m
      → (length m.root_hash ≡ 32)
        × ((g : Grove)
            → m.root_hash ≡ grove_hash blake3 g
            → Broken blake3 ⊎ All (Backed g) m.result_set)
  unfolding execute_merk_proof_with_query
  execute_merk_proof_with_query-Backed input limit m e =
      let (ops, r1, e1) = >>=-eq-ok (decode_merk_ops input) _ e in
      let ((t, visited), r2, e2) = >>=-eq-ok (execute_ops blake3 true ops) _ e1 in
      let (h, r3, e3) = >>=-eq-ok (tree_hash blake3 t) _ e2 in
      let x =
        execute_ops-Executed blake3 true ops t visited (decode_merk_ops-Sized input ops r1) r2 in
      let root : h ≡ m.root_hash =
        ap (λ (r : MerkExecutionResult). r.root_hash) (ok-injective e3) in
      let results : (collect blake3 limit visited).0 ≡ m.result_set =
        ap (λ (r : MerkExecutionResult). r.result_set) (ok-injective e3) in
      (
        ap length (sym root) ∙ length-HashesTo blake3 digest_length x.shape h (x.hash h r3) x.sized,
        λ g same.
            elim (shape_binds blake3 digest_length x.shape g h (x.hash h r3) x.sized
              (root ∙ same)) [
                | inl b ↦ inl b
                | inr found ↦
                    subst (λ (ps : List ProvedKeyValue). Broken blake3 ⊎ All (Backed g) ps) results
                      (collect-Backed limit visited g (
                        All-imp visited
                          (λ n shown. (Shows-SizedNode n x.shape x.sized shown, found n shown))
                          x.shown))
              ],
      )

  -- Let BLAKE3's hashes be of 32 bytes. When a merk proof executes with a root hash that is the hash of a
  -- merk tree, each result stands for an entry of the tree under its key: its hash is the value hash
  -- that the tree has there, which for a `KV` node is that of its value, and for a reference node
  -- combines its hash with that of the referenced value; or BLAKE3 has a collision or an input whose
  -- hash is 32 zero bytes.
  pub execute_merk_proof_with_query_binds :
      (input : Bytes) (limit : Option ℤ) (m : MerkExecutionResult) (g : Grove)
      → execute_merk_proof_with_query blake3 input limit ≡ ok m
      → m.root_hash ≡ grove_hash blake3 g
      → Broken blake3 ⊎ All (Backed g) m.result_set
  execute_merk_proof_with_query_binds input limit m g e same =
      (execute_merk_proof_with_query-Backed input limit m e).1 g same
