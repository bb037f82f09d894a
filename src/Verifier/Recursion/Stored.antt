-- ===== src/Verifier/Recursion/Stored.antt =====
-- src/willow/grovedb/verifier.py: what a hash that a layer binds says of the entry of a state that has
-- this hash.
use willow_sdk_python.Prelude.{
  ℕ, zero, suc, ◌≡◌, ◌≢◌, ap, sym, ◌∙◌, true, false, Option, none, some, List, Bytes, length, ◌⊎◌,
  inl, inr, subst,
}
use willow_sdk_python.Hash.{value_hash, combine_hash}
use willow_sdk_python.Hash.Binding.{value_hash_binds, combine_hash_binds}
use willow_sdk_python.Hash.Ambiguity.{value_hash-combine_hash}
use willow_sdk_python.Merk.Executor.{
  NodeType, kv, kv_value_hash, kv_value_hash_feature_type, kv_ref_value_hash, kv_digest,
}
use willow_sdk_python.Merk.State.{
  Grove, empty, entry, Stored, plain, reference, subtree, Holds, Reaches, grove_hash, stored_hash,
  Broken,
}
use willow_sdk_python.Merk.State.Binds.{length-grove_hash}
use willow_sdk_python.Verifier.{Entry, try_deserialize, is_rooted}

-- What the format tells apart, of every entry in the merk trees of a state down to some number of
-- levels: an element is not of 63 bytes, as two hashes with the length byte of a value hash are not,
-- and a reference does not read as a tree that has a root key.
unfoldable mutual
  pub ClearTo : (levels : ℕ) → Grove → Type 0
  ClearTo zero g = Unit {0}
  ClearTo (suc n) empty = Unit {0}
  ClearTo (suc n) (entry k s l r) = Clear n s × ClearTo (suc n) l × ClearTo (suc n) r

  pub Clear : (levels : ℕ) → Stored → Type 0
  Clear n (plain e) = length e ≢ 63
  Clear n (reference e v) = (length e ≢ 63) × (is_rooted (try_deserialize e) ≡ false)
  Clear n (subtree e g) = (length e ≢ 63) × ClearTo n g

pub Holds-Clear :
    (n : ℕ) (k : Bytes) (s : Stored) (g : Grove) → ClearTo (suc n) g → Holds k s g → Clear n s
unfolding ClearTo
Holds-Clear n k s empty c h = absurd h
Holds-Clear n k s (entry key stored l r) (c, cl, cr) (inl (same, is_it)) =
    subst (Clear n) (sym is_it) c
Holds-Clear n k s (entry key stored l r) (c, cl, cr) (inr (inl h)) = Holds-Clear n k s l cl h
Holds-Clear n k s (entry key stored l r) (c, cl, cr) (inr (inr h)) = Holds-Clear n k s r cr h

-- The state holds an element under a key of the merk tree at a path.
abbrev pub StoredAt : Grove → List Bytes → (key element : Bytes) → Type 0
StoredAt state path k e = (g : Grove) × Reaches state path g × Holds k (plain e) g

-- An entry of the state has the value hash of a value under a key.
abbrev pub HashedAt : (Bytes → Bytes) → Grove → List Bytes → (key value : Bytes) → Type 0
HashedAt blake3 state path k v =
    (g : Grove) × Reaches state path g
    × (s : Stored) × Holds k s g
    × (value_hash blake3 v ≡ stored_hash blake3 s)

-- What an entry from a `KV` node says of the state: its value is there, and an entry that is there has
-- the hash of its ambiguous value.
abbrev pub TrueValue : Grove → List Bytes → (key : Bytes) → NodeType → Option Bytes → Type 0
TrueValue state path key kv (some v) = StoredAt state path key v
TrueValue state path key n o = Unit {0}

abbrev pub TrueHash :
    (Bytes → Bytes) → Grove → List Bytes → (key : Bytes) → NodeType → Option Bytes → Type 0
TrueHash blake3 state path key kv (some v) = HashedAt blake3 state path key v
TrueHash blake3 state path key n o = Unit {0}

abbrev pub TrueEntry : (Bytes → Bytes) → Grove → Entry → Type 0
TrueEntry blake3 state e =
    TrueValue state e.path e.key e.node_type e.value
    × TrueHash blake3 state e.path e.key e.node_type e.ambiguous_value

pub TrueValue-none :
    (state : Grove) (path : List Bytes) (key : Bytes) (n : NodeType)
    → TrueValue state path key n none
TrueValue-none state path key kv = tt
TrueValue-none state path key kv_value_hash = tt
TrueValue-none state path key kv_value_hash_feature_type = tt
TrueValue-none state path key kv_ref_value_hash = tt
TrueValue-none state path key kv_digest = tt

module _ (blake3 : Bytes → Bytes) (digest_length : (x : Bytes) → length (blake3 x) ≡ 32) where
  pub length-value_hash : (v : Bytes) → length (value_hash blake3 v) ≡ 32
  unfolding value_hash
  length-value_hash v = digest_length _

  -- A `KV` value of other than 63 bytes is an element that has nothing below it.
  pub kv_value_stored :
      (v : Bytes) (s : Stored)
      → length v ≢ 63
      → value_hash blake3 v ≡ stored_hash blake3 s
      → Broken blake3 ⊎ (s ≡ plain v)
  unfolding stored_hash Clear
  kv_value_stored v (plain e) n same = elim (value_hash_binds blake3 v e same) [
    | inl p ↦ inr (ap plain (sym p))
    | inr c ↦ inl (inl c)
  ]
  kv_value_stored v (reference e w) n same =
      elim (value_hash-combine_hash blake3 v _ _ (length-value_hash e) (length-value_hash w) same) [
        | inl p ↦ absurd (n p)
        | inr c ↦ inl (inl c)
      ]
  kv_value_stored v (subtree e g) n same =
      elim (value_hash-combine_hash blake3 v _ _ (length-value_hash e)
        (length-grove_hash blake3 digest_length g) same) [
          | inl p ↦ absurd (n p)
          | inr c ↦ inl (inl c)
        ]

  -- A value with a lower hash, bound to an entry, is a subtree of that hash.
  pub combined_stored :
      (n : ℕ) (v h : Bytes) (s : Stored)
      → length h ≡ 32
      → Clear n s
      → is_rooted (try_deserialize v) ≡ true
      → combine_hash blake3 (value_hash blake3 v) h ≡ stored_hash blake3 s
      → Broken blake3 ⊎ ((g : Grove) × (s ≡ subtree v g) × (h ≡ grove_hash blake3 g) × ClearTo n g)
  unfolding stored_hash Clear
  combined_stored n v h (plain e) size clear rooted same =
      elim (value_hash-combine_hash blake3 e _ _ (length-value_hash v) size (sym same)) [
        | inl p ↦ absurd (clear p)
        | inr c ↦ inl (inl c)
      ]
  combined_stored n v h (reference e w) size (long, unrooted) rooted same =
      elim (combine_hash_binds blake3 _ h _ _ (length-value_hash v ∙ sym (length-value_hash e))
        same) [
          | inr c ↦ inl (inl c)
          | inl (values, lower) ↦ elim (value_hash_binds blake3 v e values) [
            | inl p ↦ absurd (cc (rw p at rooted, unrooted))
            | inr c ↦ inl (inl c)
          ]
        ]
  combined_stored n v h (subtree e g) size (long, under) rooted same =
      elim (combine_hash_binds blake3 _ h _ _ (length-value_hash v ∙ sym (length-value_hash e))
        same) [
          | inr c ↦ inl (inl c)
          | inl (values, lower) ↦ elim (value_hash_binds blake3 v e values) [
            | inl p ↦ inr (g, ap (λ (x : Bytes). subtree x g) (sym p), lower, under)
            | inr c ↦ inl (inl c)
          ]
        ]

  -- The hash in a reference's node does not combine two hashes.
  pub reference_not_combined :
      (n : ℕ) (p x a b : Bytes) (s : Stored)
      → length p ≡ 32
      → length a ≡ 32
      → length b ≡ 32
      → Clear n s
      → combine_hash blake3 p x ≡ stored_hash blake3 s
      → combine_hash blake3 a b ≡ p
      → length x ≡ 32
      → Broken blake3
  unfolding stored_hash Clear
  reference_not_combined n p x a b (plain e) hp ha hb clear same lower hx =
      elim (value_hash-combine_hash blake3 e p x hp hx (sym same)) [
        | inl q ↦ absurd (clear q)
        | inr c ↦ inl c
      ]
  reference_not_combined n p x a b (reference e w) hp ha hb clear same lower hx =
      elim (combine_hash_binds blake3 p x _ _ (hp ∙ sym (length-value_hash e)) same) [
        | inr c ↦ inl c
        | inl (first, second) ↦
            elim (value_hash-combine_hash blake3 e a b ha hb (sym (lower ∙ first))) [
              | inl q ↦ absurd (clear.0 q)
              | inr c ↦ inl c
            ]
      ]
  reference_not_combined n p x a b (subtree e g) hp ha hb (clear, under) same lower hx =
      elim (combine_hash_binds blake3 p x _ _ (hp ∙ sym (length-value_hash e)) same) [
        | inr c ↦ inl c
        | inl (first, second) ↦
            elim (value_hash-combine_hash blake3 e a b ha hb (sym (lower ∙ first))) [
              | inl q ↦ absurd (clear q)
              | inr c ↦ inl c
            ]
      ]
