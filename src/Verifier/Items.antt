-- ===== src/Verifier/Items.antt =====
-- src/willow/grovedb/verifier.py: the items that a proof proves at a path.
pub mod Proven
pub mod Sound
use willow_sdk_python.Prelude.{
  ℕ, ◌≡◌, refl, ap, ◌∙◌, sym, arith, Bool, true, false, not, ◌&&◌, ◌||◌, Option, none, some, List,
  [], ◌∷◌, ◌++◌, Bytes, All, length, ◌==◌, bytes_eq, bytes_eq_iff, Bool-cases, Option-cases, inl,
  inr, if◌then◌else◌,
}
use willow_sdk_python.Prelude.Result.{
  Result, ok, err, ◌>>=◌, ◌>>◌, >>=-eq-ok, ok-injective, no_path, root_mismatch, not_proven,
}
use willow_sdk_python.Hash.{hash_equals}
use willow_sdk_python.Element.{
  Element, item, reference, tree, sum_item, sum_tree, big_sum_tree, count_tree, count_sum_tree,
}
use willow_sdk_python.Merk.Executor.{
  NodeType, kv, kv_value_hash, kv_value_hash_feature_type, kv_ref_value_hash, kv_digest,
}
use willow_sdk_python.Verifier.{Entry, try_deserialize}
use willow_sdk_python.Verifier.Recursion.{verify_grovedb_proof}

-- `ProvenItem`, with its path.
pub record ProvenItem : Type 0 where
  pub path : List Bytes
  pub key : Bytes
  pub value : Bytes
  pub element : Bytes
  pub flags : Option Bytes

-- `a == b` on paths
unfoldable pub paths_eq : List Bytes → List Bytes → Bool
paths_eq [] [] = true
paths_eq [] (b ∷ bs) = false
paths_eq (a ∷ as') [] = false
paths_eq (a ∷ as') (b ∷ bs) = bytes_eq a b && paths_eq as' bs

pub paths_eq-eq : (a b : List Bytes) → paths_eq a b ≡ true → a ≡ b
unfolding paths_eq
paths_eq-eq [] [] e = cc
paths_eq-eq [] (b ∷ bs) e = cc
paths_eq-eq (a ∷ as') [] e = cc
paths_eq-eq (a ∷ as') (b ∷ bs) e = elim (Bool-cases (bytes_eq a b)) [
  | inl same ↦ cc ((bytes_eq_iff a b).0 same, paths_eq-eq as' bs (rw same at e))
  | inr differ ↦ cc (rw differ at e)
]

-- The item that an element's bytes hold.
unfoldable pub item_of : List Bytes → Bytes → (value : Bytes) → Option Element → Option ProvenItem
item_of path key value (some (item payload flags)) =
    some (record { path = path; key = key; value = payload; element = value; flags = flags })
item_of path key value e = none

-- The value that the loop reads: of a `KV` node alone.
unfoldable pub read_value_of : (only_items_at_path : Bool) → Entry → Option Bytes
read_value_of only_items_at_path entry = elim entry.node_type [
  | kv ↦ elim entry.value [
    | some value ↦ some value
    | none ↦ if only_items_at_path then entry.ambiguous_value else none
  ]
  | _ ↦ none
]

unfoldable pub entry_item : (only_items_at_path : Bool) → List Bytes → Entry → Option ProvenItem
unfolding paths_eq read_value_of item_of
entry_item only_items_at_path segments entry =
    if not (paths_eq entry.path segments)
    then none
    else elim (read_value_of only_items_at_path entry) [
      | none ↦ none
      | some value ↦ item_of segments entry.key value (try_deserialize value)
    ]

-- The loop over the results.
unfoldable pub collect_items :
    (only_items_at_path : Bool) → List Bytes → List Entry → List ProvenItem
unfolding entry_item
collect_items only segments [] = []
collect_items only segments (entry ∷ entries) =
    let later = collect_items only segments entries in
    elim (entry_item only segments entry) [ none ↦ later | some found ↦ found ∷ later ]

-- The check against the expected root, where there is one.
unfoldable pub check_root : Option Bytes → Bytes → Result (Unit {0})
check_root none root_hash = ok tt
check_root (some expected) root_hash =
    if hash_equals root_hash expected then ok tt else err root_mismatch

module _ (blake3 : Bytes → Bytes) where
  -- `_proven_items`, without its reasons for the keys that are left out.
  unfoldable pub proven_items :
      Bytes
      → (segments : List Bytes) → (expected_root_hash : Option Bytes) → (only_items_at_path : Bool)
      → Result (Bytes × List ProvenItem)
  unfolding collect_items check_root
  proven_items proof_bytes [] expected_root_hash only_items_at_path = err no_path
  proven_items proof_bytes (segment ∷ path) expected_root_hash only_items_at_path = do
    (root_hash, results) ← verify_grovedb_proof blake3 true proof_bytes none (some (segment ∷ path))
    check_root expected_root_hash root_hash
    ok (root_hash, collect_items only_items_at_path (segment ∷ path) results)

  unfoldable pub verify_items_at_path :
      Bytes
      → (path : List Bytes) → (expected_root_hash : Option Bytes) → Result (Bytes × List ProvenItem)
  unfolding proven_items
  verify_items_at_path proof_bytes path expected_root_hash =
      proven_items proof_bytes path expected_root_hash false

-- The loop of `verify_item_at_path`.
unfoldable pub find_item : (key : Bytes) → List ProvenItem → Option ProvenItem
find_item key [] = none
find_item key (it ∷ items) = if bytes_eq it.key key then some it else find_item key items

module _ (blake3 : Bytes → Bytes) where
  -- Without the wording of why no item is proven.
  unfoldable pub verify_item_at_path :
      Bytes
      → (path : List Bytes) → (key : Bytes) → (expected_root_hash : Option Bytes)
      → (only_items_at_path : Bool) → Result (Bytes × ProvenItem)
  unfolding proven_items find_item
  verify_item_at_path proof_bytes path key expected_root_hash only_items_at_path = do
    (root_hash, items) ← proven_items blake3 proof_bytes path expected_root_hash only_items_at_path
    elim (find_item key items) [ none ↦ err not_proven | some it ↦ ok (root_hash, it) ]
