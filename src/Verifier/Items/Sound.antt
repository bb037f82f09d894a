-- ===== src/Verifier/Items/Sound.antt =====
-- src/willow/grovedb/verifier.py, `verify_items_at_path`: its items against the state whose root hash the
-- caller trusts.
use willow_sdk_python.Hash.Binding.{value_hash_binds}
use willow_sdk_python.Hash.{hash_equals}
use willow_sdk_python.Prelude.{
  ◌∙◌, arith, Bool, length, ◌≡◌, refl, ap, sym, ◌∙◌, true, false, Option, none, some, List, [], ◌∷◌,
  Bytes, All, length, bytes_eq, bytes_eq_iff, Bool-cases, Option-cases, ◌⊎◌, inl, inr, subst,
}
use willow_sdk_python.Prelude.Result.{ok, >>=-eq-ok, ok-injective}
use willow_sdk_python.Element.{
  Element, item, reference, tree, sum_item, sum_tree, big_sum_tree, count_tree, count_sum_tree,
}
use willow_sdk_python.Merk.Executor.{
  NodeType, kv, kv_value_hash, kv_value_hash_feature_type, kv_ref_value_hash, kv_digest,
}
use willow_sdk_python.Merk.State.{
  Stored, plain, Holds, Reaches, stored_hash, Grove, grove_hash, Broken,
}
use willow_sdk_python.Verifier.{Entry, try_deserialize}
use willow_sdk_python.Verifier.Recursion.{verify_grovedb_proof}
use willow_sdk_python.Verifier.Recursion.Stored.{
  HashedAt, TrueHash, ClearTo, StoredAt, TrueValue, TrueEntry,
}
use willow_sdk_python.Verifier.Recursion.Sound.{verify_grovedb_proof-AllTrue}
use willow_sdk_python.Verifier.Items.{
  find_item, verify_item_at_path, check_root, ProvenItem, paths_eq, paths_eq-eq, item_of,
  read_value_of, entry_item, collect_items, check_root, proven_items, verify_items_at_path,
}

-- The state holds the item's element under its key at the path.
abbrev pub IsStored : Grove → List Bytes → ProvenItem → Type 0
IsStored state path it = StoredAt state path it.key it.element

item_of_element :
    (path : List Bytes) (key v : Bytes) (o : Option Element) (it : ProvenItem)
    → item_of path key v o ≡ some it
    → (it.key ≡ key) × (it.element ≡ v)
unfolding item_of
item_of_element path key v (some (item payload flags)) it r =
    let found : ProvenItem = record {
      path = path;
      key = key;
      value = payload;
      element = v;
      flags = flags;
    } in
    let same : found ≡ it = cc r in
    (sym (ap (λ (i : ProvenItem). i.key) same), sym (ap (λ (i : ProvenItem). i.element) same))
item_of_element path key v none it r = cc
item_of_element path key v (some (reference p f t h m)) it r = cc
item_of_element path key v (some (tree k f)) it r = cc
item_of_element path key v (some (sum_item n f)) it r = cc
item_of_element path key v (some (sum_tree k n f)) it r = cc
item_of_element path key v (some (big_sum_tree k n f)) it r = cc
item_of_element path key v (some (count_tree k n f)) it r = cc
item_of_element path key v (some (count_sum_tree k n m f)) it r = cc

-- The item that is found has the key, and a property that all items have.
pub found_item {κ} :
    (P : ProvenItem → Type κ) (key : Bytes) (items : List ProvenItem) (it : ProvenItem)
    → All P items
    → find_item key items ≡ some it
    → (it.key ≡ key) × P it
unfolding find_item
found_item P key [] it all e = cc
found_item P key (x ∷ items) it (one, all) e = elim (Bool-cases (bytes_eq x.key key)) [
  | inl same ↦
      let found : x ≡ it = cc (rw (find_item, same) at e) in
      (
        sym (ap (λ (i : ProvenItem). i.key) found) ∙ (bytes_eq_iff x.key key).0 same,
        subst P found one,
      )
  | inr other ↦ found_item P key items it all (rw (find_item, other) at e)
]

-- With `only_items_at_path`, the merk tree at the path has nothing but elements with nothing below.
abbrev pub ItemsOnly : (only_items_at_path : Bool) → Grove → List Bytes → Type 0
ItemsOnly false state path = Unit {0}
ItemsOnly true state path =
    (g : Grove) (k : Bytes) (s : Stored)
    → Reaches state path g
    → Holds k s g
    → (e : Bytes) × (s ≡ plain e)

module _ (blake3 : Bytes → Bytes) (state : Grove) where
  -- An entry with the hash of a value is that value, where all entries are elements.
  hashed_stored :
      (path : List Bytes) (k v : Bytes)
      → ItemsOnly true state path
      → HashedAt blake3 state path k v
      → Broken blake3 ⊎ StoredAt state path k v
  unfolding stored_hash
  hashed_stored path k v only (g, reached, s, held, same) =
      let (e, is) = only g k s reached held in
      elim (value_hash_binds blake3 v e (same ∙ ap (stored_hash blake3) is)) [
        | inl p ↦ inr (g, reached, subst (λ (t : Stored). Holds k t g) (is ∙ ap plain (sym p)) held)
        | inr c ↦ inl (inl c)
      ]

  -- A value that is read is that of a `KV` node.
  read_value_stored :
      (only : Bool) (e : Entry) (n : NodeType) (o a : Option Bytes) (v : Bytes)
      → e.node_type ≡ n
      → e.value ≡ o
      → e.ambiguous_value ≡ a
      → ItemsOnly only state e.path
      → TrueValue state e.path e.key n o
      → TrueHash blake3 state e.path e.key n a
      → read_value_of only e ≡ some v
      → Broken blake3 ⊎ StoredAt state e.path e.key v
  unfolding read_value_of
  read_value_stored only e kv (some w) a v hn ho ha is s t r =
      let same : some w ≡ some v = rw (read_value_of, hn, ho) at r in
      let value : w ≡ v = cc same in inr (subst (StoredAt state e.path e.key) value s)
  read_value_stored false e kv none a v hn ho ha is s t r = cc (rw (read_value_of, hn, ho) at r)
  read_value_stored true e kv none none v hn ho ha is s t r =
      cc (rw (read_value_of, hn, ho, ha) at r)
  read_value_stored true e kv none (some w) v hn ho ha is s t r =
      let same : some w ≡ some v = rw (read_value_of, hn, ho, ha) at r in
      let value : w ≡ v = cc same in
      hashed_stored e.path e.key v is (subst (HashedAt blake3 state e.path e.key) value t)
  read_value_stored only e kv_value_hash o a v hn ho ha is s t r = cc (rw (read_value_of, hn) at r)
  read_value_stored only e kv_value_hash_feature_type o a v hn ho ha is s t r =
      cc (rw (read_value_of, hn) at r)
  read_value_stored only e kv_ref_value_hash o a v hn ho ha is s t r =
      cc (rw (read_value_of, hn) at r)
  read_value_stored only e kv_digest o a v hn ho ha is s t r = cc (rw (read_value_of, hn) at r)

  entry_item-IsStored :
      (only : Bool) (path : List Bytes) (e : Entry) (it : ProvenItem)
      → ItemsOnly only state path
      → TrueEntry blake3 state e
      → entry_item only path e ≡ some it
      → Broken blake3 ⊎ IsStored state path it
  unfolding entry_item
  entry_item-IsStored only path e it is (s, t) h = elim (Bool-cases (paths_eq e.path path)) [
    | inr other ↦ cc (rw (entry_item, other) at h)
    | inl here ↦ elim (Option-cases (read_value_of only e)) [
      | inl nothing ↦ cc (rw (entry_item, here, nothing) at h)
      | inr (v, read) ↦
          let (key, element) =
            item_of_element path e.key v (try_deserialize v) it
              (rw (entry_item, here, read) at h) in
          rw (key, element, ← paths_eq-eq e.path path here)
            (read_value_stored only e e.node_type e.value e.ambiguous_value v refl refl refl
              (subst (ItemsOnly only state) (sym (paths_eq-eq e.path path here)) is) s t read)
    ]
  ]

  collect_items-IsStored :
      (only : Bool) (path : List Bytes) (es : List Entry)
      → ItemsOnly only state path
      → All (TrueEntry blake3 state) es
      → Broken blake3 ⊎ All (IsStored state path) (collect_items only path es)
  unfolding collect_items
  collect_items-IsStored only path [] is all = inr tt
  collect_items-IsStored only path (e ∷ es) is (one, all) =
      elim (Option-cases (entry_item only path e)) [
        | inl nothing ↦ rw (collect_items, nothing) (collect_items-IsStored only path es is all)
        | inr (it, found) ↦ elim (entry_item-IsStored only path e it is one found) [
          | inl bad ↦ inl bad
          | inr first ↦ elim (collect_items-IsStored only path es is all) [
            | inl bad ↦ inl bad
            | inr later ↦ inr (rw (collect_items, found) (first, later))
          ]
        ]
      ]

  module _ (digest_length : (x : Bytes) → length (blake3 x) ≡ 32) where
    pub proven_items-IsStored :
        (only : Bool) (input : Bytes) (path : List Bytes) (root_hash : Bytes)
        (items : List ProvenItem)
        → ClearTo (length path) state
        → ItemsOnly only state path
        → proven_items blake3 input path (some (grove_hash blake3 state)) only
          ≡ ok (root_hash, items)
        → Broken blake3 ⊎ All (IsStored state path) items
    unfolding proven_items check_root hash_equals
    proven_items-IsStored only input [] root_hash items clear is e = cc
    proven_items-IsStored only input (segment ∷ path) root_hash items clear is e =
        let ((h, results), r, e1) =
          >>=-eq-ok (verify_grovedb_proof blake3 true input none (some (segment ∷ path))) _ e in
        let (u, r1, e2) = >>=-eq-ok (check_root (some (grove_hash blake3 state)) h) _ e1 in
        let root : h ≡ grove_hash blake3 state =
          (bytes_eq_iff h (grove_hash blake3 state)).0 (ground (arith, r1)) in
        elim (verify_grovedb_proof-AllTrue blake3 digest_length state true input none
          (segment ∷ path) results clear (r ∙ ap (λ (x : Bytes). ok (x, results)) root)) [
            | inl bad ↦ inl bad
            | inr all ↦
                subst
                  (λ (xs : List ProvenItem).
                    Broken blake3 ⊎ All (IsStored state (segment ∷ path)) xs)
                  (ap (λ (p : Bytes × List ProvenItem). p.1) (ok-injective e2))
                  (collect_items-IsStored only (segment ∷ path) results is all)
          ]

    -- Let BLAKE3's hashes be of 32 bytes, and let the trusted root hash be that of a state in which, in
    -- the merk trees above the depth of the path, each element is not of 63 bytes and a reference does
    -- not read as a tree with a root key. When `verify_items_at_path` returns for that root hash, the
    -- state holds every item that it returns, with its element bytes, under the item's key in the merk
    -- tree at the queried path; or BLAKE3 has a collision or an input whose hash is 32 zero bytes.
    pub verify_items_at_path-IsStored :
        (input : Bytes) (path : List Bytes) (root_hash : Bytes) (items : List ProvenItem)
        → ClearTo (length path) state
        → verify_items_at_path blake3 input path (some (grove_hash blake3 state))
          ≡ ok (root_hash, items)
        → Broken blake3 ⊎ All (IsStored state path) items
    unfolding verify_items_at_path
    verify_items_at_path-IsStored input path root_hash items clear e =
        proven_items-IsStored false input path root_hash items clear tt e

    -- Let BLAKE3's hashes be of 32 bytes, and let the trusted root hash be that of a state in which, in
    -- the merk trees above the depth of the path, each element is not of 63 bytes and a reference does
    -- not read as a tree with a root key; with `only_items_at_path`, let the merk tree at the path hold
    -- nothing but elements with nothing below them. When `verify_item_at_path` returns for that root
    -- hash, the state holds the element of the item that it returns under the queried key, in the merk
    -- tree at the queried path, and elements of 63 bytes are no exception; or BLAKE3 has a collision or
    -- an input whose hash is 32 zero bytes.
    pub verify_item_at_path-StoredAt :
        (only : Bool) (input : Bytes) (path : List Bytes) (key root_hash : Bytes) (it : ProvenItem)
        → ClearTo (length path) state
        → ItemsOnly only state path
        → verify_item_at_path blake3 input path key (some (grove_hash blake3 state)) only
          ≡ ok (root_hash, it)
        → Broken blake3 ⊎ StoredAt state path key it.element
    unfolding verify_item_at_path
    verify_item_at_path-StoredAt only input path key root_hash it clear is e =
        let ((h, items), r, e1) =
          >>=-eq-ok (proven_items blake3 input path (some (grove_hash blake3 state)) only) _ e in
        elim (proven_items-IsStored only input path h items clear is r) [
          | inl bad ↦ inl bad
          | inr all ↦ elim (Option-cases (find_item key items)) [
            | inl nothing ↦ cc (rw nothing at e1)
            | inr (found, first) ↦
                let (same, stored) = found_item (IsStored state path) key items found all first in
                let it_is : found ≡ it =
                  ap (λ (p : Bytes × ProvenItem). p.1) (ok-injective (rw first at e1)) in
                inr (
                  subst (λ (x : ProvenItem). StoredAt state path key x.element) it_is
                    (subst (λ (k : Bytes). StoredAt state path k found.element) same stored))
          ]
        ]
