-- ===== src/Merk/State.antt =====
-- The state that a GroveDB root stands for: merk trees of keys and elements, an element of which may
-- hold a merk tree of its own. It is what a node keeps and hashes; the code of the SDK has no such type.
pub mod Binds
pub mod Layer
use willow_sdk_python.Prelude.{
  ◌++◌, ℕ, ◌≡◌, refl, ◌⊎◌, inl, inr, List, [], ◌∷◌, Bytes, length, Bool, true,
}
use willow_sdk_python.Hash.{value_hash, combine_hash, node_hash, kv_digest_to_kv_hash, null_hash}
use willow_sdk_python.Hash.Binding.{Collision}

mutual
  pub data Grove : Type 0 where
    empty : Grove
    entry : (key : Bytes) → (stored : Stored) → (left right : Grove) → Grove

  -- An element with nothing below it, a reference with the bytes it refers to, or a subtree.
  pub data Stored : Type 0 where
    plain : (element : Bytes) → Stored
    reference : (element referenced : Bytes) → Stored
    subtree : (element : Bytes) → Grove → Stored

-- The element's bytes.
abbrev pub element_of : Stored → Bytes
element_of (plain e) = e
element_of (reference e v) = e
element_of (subtree e g) = e

-- A merk tree has an entry.
abbrev pub Holds : Bytes → Stored → Grove → Type 0
Holds k v empty = ⊥
Holds k v (entry key stored left right) =
    ((k ≡ key) × (v ≡ stored)) ⊎ (Holds k v left ⊎ Holds k v right)

-- The merk tree at a path, from the root's down.
pub data Reaches (g : Grove) : List Bytes → Grove → Type 0 where
  top : Reaches g [] g
  into :
      (path : List Bytes) (key element : Bytes) (at below : Grove)
      → Reaches g path at
      → Holds key (subtree element below) at
      → Reaches g (path ++ (key ∷ [])) below

module _ (blake3 : Bytes → Bytes) where
  unfoldable mutual
    pub grove_hash : Grove → Bytes
    grove_hash empty = null_hash
    grove_hash (entry key stored left right) =
        node_hash blake3 (kv_digest_to_kv_hash blake3 key (stored_hash stored)) (grove_hash left)
          (grove_hash right)

    pub stored_hash : Stored → Bytes
    stored_hash (plain e) = value_hash blake3 e
    stored_hash (reference e v) = combine_hash blake3 (value_hash blake3 e) (value_hash blake3 v)
    stored_hash (subtree e g) = combine_hash blake3 (value_hash blake3 e) (grove_hash g)

  -- BLAKE3 has a collision, or an input whose hash is 32 zero bytes.
  abbrev pub Broken : Type 0
  Broken = Collision blake3 ⊎ ((x : Bytes) × (blake3 x ≡ null_hash))
