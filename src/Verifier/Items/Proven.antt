-- ===== src/Verifier/Items/Proven.antt =====
-- src/willow/grovedb/verifier.py, `verify_items_at_path`: the items that it returns.
use willow_sdk_python.Prelude.{
  ◌≡◌, ◌≢◌, refl, ap, ◌∙◌, sym, arith, true, false, Option, none, some, List, [], ◌∷◌, Bytes, All,
  Any, length, bytes_eq_iff, Bool-cases, Option-cases, inl, inr, subst,
}
use willow_sdk_python.Prelude.Result.{ok, >>=-eq-ok, ok-injective}
use willow_sdk_python.Hash.{hash_equals}
use willow_sdk_python.Bincode.{LayerProof}
use willow_sdk_python.Element.{
  Element, item, reference, tree, sum_item, sum_tree, big_sum_tree, count_tree, count_sum_tree,
}
use willow_sdk_python.Merk.Executor.{
  NodeType, kv, kv_value_hash, kv_value_hash_feature_type, kv_ref_value_hash, kv_digest,
}
use willow_sdk_python.Verifier.{Entry, try_deserialize}
use willow_sdk_python.Verifier.Recursion.{verify_grovedb_proof}
use willow_sdk_python.Verifier.Recursion.Bound.{
  Supported, BoundValue, AllBound, verify_grovedb_proof-AllBound,
}
use willow_sdk_python.Verifier.Items.{
  ProvenItem, paths_eq, paths_eq-eq, item_of, read_value_of, entry_item, collect_items, check_root,
  proven_items, verify_items_at_path,
}

-- An entry of the results for the item: at the path, under the item's key, of a `KV` node, and with the
-- item's bytes as its bound value.
pub record ComesFrom (path : List Bytes) (it : ProvenItem) (e : Entry) : Type 0 where
  pub there : e.path ≡ path
  pub key : e.key ≡ it.key
  pub kind : e.node_type ≡ kv
  pub value : e.value ≡ some it.element

-- An item that comes from one of the results, whose bytes are not 63 and read as an item with its payload
-- and flags.
pub record IsProven (results : List Entry) (path : List Bytes) (it : ProvenItem) : Type 0 where
  pub at_path : it.path ≡ path
  pub source : Any (ComesFrom path it) results
  pub bound : length it.element ≢ 63
  pub reads : try_deserialize it.element ≡ some (item it.value it.flags)

-- Only a `KV` node's value is read.
read_value_of-eq :
    (e : Entry) (n : NodeType) (o : Option Bytes) (v : Bytes)
    → e.node_type ≡ n
    → e.value ≡ o
    → read_value_of false e ≡ some v
    → (e.node_type ≡ kv) × (e.value ≡ some v)
unfolding read_value_of
read_value_of-eq e kv none v hn ho r = cc (rw (read_value_of, hn, ho) at r)
read_value_of-eq e kv (some w) v hn ho r =
    let same : some w ≡ some v = rw (read_value_of, hn, ho) at r in (hn, ho ∙ same)
read_value_of-eq e kv_value_hash o v hn ho r = cc (rw (read_value_of, hn) at r)
read_value_of-eq e kv_value_hash_feature_type o v hn ho r = cc (rw (read_value_of, hn) at r)
read_value_of-eq e kv_ref_value_hash o v hn ho r = cc (rw (read_value_of, hn) at r)
read_value_of-eq e kv_digest o v hn ho r = cc (rw (read_value_of, hn) at r)

-- What an item is made of.
record IsMade (path : List Bytes) (key v : Bytes) (it : ProvenItem) : Type 0 where
  pub at_path : it.path ≡ path
  pub key_is : key ≡ it.key
  pub value_is : v ≡ it.element
  pub reads : try_deserialize it.element ≡ some (item it.value it.flags)

item_of-IsMade :
    (path : List Bytes) (key v : Bytes) (o : Option Element) (it : ProvenItem)
    → try_deserialize v ≡ o
    → item_of path key v o ≡ some it
    → IsMade path key v it
unfolding item_of
item_of-IsMade path key v (some (item payload flags)) it r e =
    let found : ProvenItem = record {
      path = path;
      key = key;
      value = payload;
      element = v;
      flags = flags;
    } in
    let same : found ≡ it = cc e in
    subst (IsMade path key v) same
      (record { at_path = refl; key_is = refl; value_is = refl; reads = r })
item_of-IsMade path key v none it r e = cc
item_of-IsMade path key v (some (reference p f t h m)) it r e = cc
item_of-IsMade path key v (some (tree k f)) it r e = cc
item_of-IsMade path key v (some (sum_item n f)) it r e = cc
item_of-IsMade path key v (some (sum_tree k n f)) it r e = cc
item_of-IsMade path key v (some (big_sum_tree k n f)) it r e = cc
item_of-IsMade path key v (some (count_tree k n f)) it r e = cc
item_of-IsMade path key v (some (count_sum_tree k n m f)) it r e = cc

module _ (blake3 : Bytes → Bytes) where
  -- The bound value of a `KV` node's entry is not of 63 bytes.
  kv_value_length :
      (root : LayerProof) (e : Entry) (v : Bytes)
      → e.node_type ≡ kv
      → e.value ≡ some v
      → BoundValue blake3 root e e.value
      → length v ≢ 63
  kv_value_length root e v kind value s =
      let (p, shown, binds) = subst (BoundValue blake3 root e) value s in
      subst (λ (n : NodeType). Supported blake3 n p.proof v) kind binds.bound

  entry_item-IsProven :
      (root : LayerProof) (path : List Bytes) (e : Entry) (it : ProvenItem)
      → BoundValue blake3 root e e.value
      → entry_item false path e ≡ some it
      → IsProven (e ∷ []) path it
  unfolding entry_item
  entry_item-IsProven root path e it s h = elim (Bool-cases (paths_eq e.path path)) [
    | inr other ↦ cc (rw (entry_item, other) at h)
    | inl here ↦ elim (Option-cases (read_value_of false e)) [
      | inl nothing ↦ cc (rw (entry_item, here, nothing) at h)
      | inr (v, read) ↦
          let (kind, value) = read_value_of-eq e e.node_type e.value v refl refl read in
          let made : IsMade path e.key v it =
            item_of-IsMade path e.key v (try_deserialize v) it refl
              (rw (entry_item, here, read) at h) in
          record {
            at_path = made.at_path;
            source = inl (record {
              there = paths_eq-eq e.path path here;
              key = made.key_is;
              kind = kind;
              value = value ∙ ap some made.value_is;
            });
            bound =
                subst (λ (x : Bytes). length x ≢ 63) made.value_is
                  (kv_value_length root e v kind value s);
            reads = made.reads;
          }
    ]
  ]

  collect_items-IsProven :
      (root : LayerProof) (path : List Bytes) (all es : List Entry)
      → ((it : ProvenItem) → Any (ComesFrom path it) es → Any (ComesFrom path it) all)
      → AllBound blake3 root es
      → All (IsProven all path) (collect_items false path es)
  unfolding collect_items
  collect_items-IsProven root path all [] within s = tt
  collect_items-IsProven root path all (e ∷ es) within (one, s) =
      let later = collect_items-IsProven root path all es (λ it a. within it (inr a)) s in
      elim (Option-cases (entry_item false path e)) [
        | inl nothing ↦ rw (collect_items, nothing) later
        | inr (it, found) ↦
            let p : IsProven (e ∷ []) path it = entry_item-IsProven root path e it one found in
            rw (collect_items, found)
              (
                record {
                  at_path = p.at_path;
                  source = within it (elim p.source [ inl c ↦ inl c | inr none' ↦ absurd none' ]);
                  bound = p.bound;
                  reads = p.reads;
                },
                later,
              )
      ]

  -- When `verify_items_at_path` returns, the root hash is the expected one, the proof verifies for the
  -- path with that root hash, and every item comes from an entry of that verification's results: one at
  -- the queried path, under the item's key, of a `KV` node, and with the item's element bytes as its bound
  -- value. These bytes are not 63 and decode as an item with the item's payload and flags.
  pub verify_items_at_path-IsProven :
      (input : Bytes) (path : List Bytes) (expected root_hash : Bytes) (items : List ProvenItem)
      → verify_items_at_path blake3 input path (some expected) ≡ ok (root_hash, items)
      → (root_hash ≡ expected)
        × (results : List Entry) × (verify_grovedb_proof blake3 true input none (some path)
            ≡ ok (root_hash, results))
        × All (IsProven results path) items
  unfolding verify_items_at_path proven_items check_root hash_equals
  verify_items_at_path-IsProven input [] expected root_hash items e = cc
  verify_items_at_path-IsProven input (segment ∷ path) expected root_hash items e =
      let ((h, results), r, e1) =
        >>=-eq-ok (verify_grovedb_proof blake3 true input none (some (segment ∷ path))) _ e in
      let (u, r1, e2) = >>=-eq-ok (check_root (some expected) h) _ e1 in
      let (proof, decoded, bound) =
        verify_grovedb_proof-AllBound blake3 true input none (some (segment ∷ path)) h results r in
      let same = ok-injective e2 in
      let root : h ≡ expected = (bytes_eq_iff h expected).0 (ground (arith, r1)) in
      let as_root : h ≡ root_hash = ap (λ (p : Bytes × List ProvenItem). p.0) same in
      (
        sym as_root ∙ root,
        results,
        r ∙ ap (λ (x : Bytes). ok (x, results)) as_root,
        subst (All (IsProven results (segment ∷ path)))
            (ap (λ (p : Bytes × List ProvenItem). p.1) same)
            (collect_items-IsProven proof.proof.root_layer (segment ∷ path) results results
              (λ it a. a) bound),
      )
