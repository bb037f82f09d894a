-- ===== src/LightClient/Sound.antt =====
-- src/willow/light_client/verifier.py, `ProofVerifier`: its successes against the state whose root hash
-- is trusted.
use willow_sdk_python.Prelude.{
  ℕ, suc, ◌≤◌, ◌≡◌, refl, ap, sym, ◌∙◌, arith, subst, Bool, true, false, Option, none, some,
  Option-cases, List, [], ◌∷◌, Bytes, All, map, length, bytes_eq, bytes_eq_iff, Bool-cases, ◌⊎◌,
  inl, inr, if◌then◌else◌,
}
use willow_sdk_python.Prelude.Result.{Result, ok, err, ok-injective, >>=-eq-ok}
use willow_sdk_python.Element.{item}
use willow_sdk_python.Merk.State.{Grove, grove_hash, Broken}
use willow_sdk_python.Verifier.{Entry, try_deserialize}
use willow_sdk_python.Verifier.Quick.{quick_verify}
use willow_sdk_python.Verifier.Recursion.Stored.{ClearTo, StoredAt}
use willow_sdk_python.Verifier.Items.{
  ProvenItem, verify_items_at_path, verify_item_at_path, find_item, proven_items,
}
use willow_sdk_python.Verifier.Items.Proven.{IsProven, verify_items_at_path-IsProven}
use willow_sdk_python.Verifier.Items.Sound.{
  IsStored, verify_items_at_path-IsStored, verify_item_at_path-StoredAt, found_item,
}
use willow_sdk_python.LightClient.{
  succeeded, failed, raised, not_an_item, QueryProof, VerificationResult, remove, match_all,
  value_of, payloads_of, match_at, match_root, query_path, verify_payloads, verify_query_proof,
  verify_inclusion_proof,
}

-- How often a byte string stands in a list.
unfoldable pub count : Bytes → List Bytes → ℕ
count v [] = 0
count v (b ∷ bs) = (let later = count v bs in if bytes_eq b v then suc later else later)

count-remove :
    (v p : Bytes) (xs ys : List Bytes) → remove p xs ≡ some ys → count v xs ≡ count v (p ∷ ys)
unfolding remove count
count-remove v p [] ys e = cc
count-remove v p (x ∷ xs) ys e = elim (Bool-cases (bytes_eq x p)) [
  | inl same ↦
      let tail : xs ≡ ys = cc (rw (remove, same) at e) in rw ((bytes_eq_iff x p).0 same, tail) refl
  | inr apart ↦ elim (Option-cases (remove p xs)) [
    | inl missing ↦ cc (rw (remove, apart, missing) at e)
    | inr (zs, found) ↦
        let shape : x ∷ zs ≡ ys = cc (rw (remove, apart, found) at e) in
        subst (λ (l : List Bytes). count v (x ∷ xs) ≡ count v (p ∷ l)) shape
          (ground (arith, count-remove v p xs zs found))
  ]
]

-- Payloads that are all matched stand in the values at least as often.
match_all-count :
    (v : Bytes) (ps xs : List Bytes) → match_all ps xs ≡ true → count v ps ≤ count v xs
unfolding match_all count
match_all-count v [] xs e = omega arith
match_all-count v (p ∷ ps) xs e = elim (Option-cases (remove p xs)) [
  | inl missing ↦ cc (rw (match_all, missing) at e)
  | inr (ys, found) ↦
      ground
        (arith, match_all-count v ps ys (rw (match_all, found) at e), count-remove v p xs ys found)
]

-- An item's bytes are in the state under its key, and read as an item with its value.
abbrev pub IsItem : Grove → List Bytes → ProvenItem → Type 0
IsItem state path it =
    StoredAt state path it.key it.element
    × (try_deserialize it.element ≡ some (item it.value it.flags))

both :
    (state : Grove) (path : List Bytes) (results : List Entry) (items : List ProvenItem)
    → All (IsStored state path) items
    → All (IsProven results path) items
    → All (IsItem state path) items
both state path results [] s p = tt
both state path results (it ∷ items) (s, ss) (p, ps) =
    ((s, p.reads), both state path results items ss ps)

-- What a success means: with no payload, that the proof has the trusted root hash; with payloads, that
-- the items which the proof proves at the path, each in the state, have every payload as the value of at
-- least as many of them as it is given times.
abbrev pub Backs :
    (Bytes → Bytes) → Grove → (proof_bytes : Bytes) → List Bytes → (payloads : List Bytes) → Type 0
Backs blake3 state proof_bytes path [] =
    quick_verify blake3 proof_bytes ≡ ok (grove_hash blake3 state)
Backs blake3 state proof_bytes path (p ∷ ps) =
    (items : List ProvenItem) × (verify_items_at_path blake3 proof_bytes path
        (some (grove_hash blake3 state))
      ≡ ok (grove_hash blake3 state, items))
    × All (IsItem state path) items
    × ((v : Bytes) → count v (p ∷ ps) ≤ count v (map value_of items))

module _ (blake3 : Bytes → Bytes) (state : Grove)
    (digest_length : (x : Bytes) → length (blake3 x) ≡ 32) where
  items_back :
      (proof : QueryProof) (path : List Bytes) (p : Bytes) (ps : List Bytes)
      (x : Result (Bytes × List ProvenItem))
      → ClearTo (length path) state
      → verify_items_at_path blake3 proof.proof path (some (grove_hash blake3 state)) ≡ x
      → (elim x as (λ _. Bool) [
        | err e ↦ false
        | ok (root, items) ↦ match_all (p ∷ ps) (map value_of items)
      ])
        ≡ true
      → Broken blake3 ⊎ Backs blake3 state proof.proof path (p ∷ ps)
  items_back proof path p ps (err e) clear same matched = cc
  items_back proof path p ps (ok (root, items)) clear same matched =
      elim (verify_items_at_path-IsStored blake3 state digest_length proof.proof path root items
        clear same) [
          | inl bad ↦ inl bad
          | inr stored ↦
              let (trusted, results, verified, proven) =
                verify_items_at_path-IsProven blake3 proof.proof path _ root items same in
              inr (
                items,
                same ∙ ap (λ (h : Bytes). ok (h, items)) trusted,
                both state path results items stored proven,
                (λ v. match_all-count v (p ∷ ps) _ matched),
              )
        ]

  success_of :
      (b : Bool) (proof : QueryProof)
      → (if b then succeeded proof.height else failed not_an_item proof.height).success ≡ true
      → b ≡ true
  success_of true proof e = refl
  success_of false proof e = e

  run_items :
      (proof : QueryProof) (payloads path : List Bytes) (x : Result (Bytes × List ProvenItem))
      → (elim x as (λ _. VerificationResult) [
        | err e ↦ failed raised proof.height
        | ok (root, items) ↦
            if match_all payloads (map value_of items)
            then succeeded proof.height
            else failed not_an_item proof.height
      ]).success
        ≡ true
      → (elim x as (λ _. Bool) [
        | err e ↦ false
        | ok (root, items) ↦ match_all payloads (map value_of items)
      ])
        ≡ true
  run_items proof payloads path (err x) e = e
  run_items proof payloads path (ok (root, items)) e =
      success_of (match_all payloads (map value_of items)) proof e

  match_at-Backs :
      (proof : QueryProof) (p : Bytes) (ps path : List Bytes) (q : Result (Option (List Bytes)))
      → q ≡ ok (some path)
      → ClearTo (length path) state
      → (match_at blake3 proof (grove_hash blake3 state) (p ∷ ps) q).success ≡ true
      → Broken blake3 ⊎ Backs blake3 state proof.proof path (p ∷ ps)
  unfolding match_at
  match_at-Backs proof p ps path (err x) at clear e = cc
  match_at-Backs proof p ps path (ok none) at clear e = cc
  match_at-Backs proof p ps path (ok (some [])) at clear e = cc
  match_at-Backs proof p ps path (ok (some (s ∷ segments))) at clear e =
      let same : s ∷ segments ≡ path = cc in
      subst (λ (l : List Bytes). Broken blake3 ⊎ Backs blake3 state proof.proof l (p ∷ ps)) same
        (items_back proof (s ∷ segments) p ps
          (verify_items_at_path blake3 proof.proof (s ∷ segments) (some (grove_hash blake3 state)))
          (subst (λ (l : List Bytes). ClearTo (length l) state) (sym same) clear) refl
          (run_items proof (p ∷ ps) path _ e))

  match_root-eq :
      (proof : QueryProof) (trusted : Bytes) (x : Result Bytes)
      → (match_root blake3 proof trusted x).success ≡ true
      → x ≡ ok trusted
  unfolding match_root
  match_root-eq proof trusted (err e) s = cc
  match_root-eq proof trusted (ok root) s = elim (Bool-cases (bytes_eq root trusted)) [
    | inl same ↦ ap ok ((bytes_eq_iff root trusted).0 same)
    | inr differ ↦ cc (rw differ at s)
  ]

  by_payloads :
      (proof : QueryProof) (path payloads : List Bytes)
      → query_path proof.path_query ≡ ok (some path)
      → ClearTo (length path) state
      → (verify_payloads blake3 proof (grove_hash blake3 state) payloads).success ≡ true
      → Broken blake3 ⊎ Backs blake3 state proof.proof path payloads
  unfolding verify_payloads
  by_payloads proof path [] at clear same = inr (match_root-eq proof _ _ same)
  by_payloads proof path (p ∷ ps) at clear same =
      match_at-Backs proof p ps path (query_path proof.path_query) at clear same

  -- Let BLAKE3's hashes be of 32 bytes, and let the trusted hash be that of a state in which, in the merk
  -- trees above the depth of the query's path, each element is not of 63 bytes and a reference does not
  -- read as a tree with a root key. When `verify_query_proof` succeeds with payloads,
  -- `verify_items_at_path` returns for the proof, the query's path and the trusted hash; the state holds
  -- each of the items that it returns at the path, with its element bytes under its key; and every
  -- payload is the value of at least as many of these items as it is given times; or BLAKE3 has a
  -- collision or an input whose hash is 32 zero bytes. When it succeeds with no payload, `quick_verify`
  -- returns the trusted hash for the proof.
  pub verify_query_proof-Backs :
      (proof : QueryProof) (given : Option (List Bytes)) (path : List Bytes)
      → query_path proof.path_query ≡ ok (some path)
      → ClearTo (length path) state
      → (verify_query_proof blake3 proof (grove_hash blake3 state) given).success ≡ true
      → Broken blake3 ⊎ Backs blake3 state proof.proof path (payloads_of proof given)
  unfolding verify_query_proof
  verify_query_proof-Backs proof given path at clear e =
      by_payloads proof path (payloads_of proof given) at clear e

  reads_as :
      (key input : Bytes) (path : List Bytes) (root : Bytes) (it : ProvenItem)
      → verify_item_at_path blake3 input path key (some (grove_hash blake3 state)) false
        ≡ ok (root, it)
      → try_deserialize it.element ≡ some (item it.value it.flags)
  unfolding verify_item_at_path verify_items_at_path
  reads_as key input path root it same =
      let ((h, items), r, e1) =
        >>=-eq-ok (proven_items blake3 input path (some (grove_hash blake3 state)) false) _ same in
      let (trusted, results, verified, proven) =
        verify_items_at_path-IsProven blake3 input path _ h items r in
      elim (Option-cases (find_item key items)) [
        | inl nothing ↦ cc (rw nothing at e1)
        | inr (found, first) ↦
            let it_is : found ≡ it =
              ap (λ (p : Bytes × ProvenItem). p.1) (ok-injective (rw first at e1)) in
            subst (λ (i : ProvenItem). try_deserialize i.element ≡ some (item i.value i.flags))
              it_is (found_item (IsProven results path) key items found proven first).1.reads
      ]

  -- Let BLAKE3's hashes be of 32 bytes, and let the trusted root hash be that of a state in which, in the
  -- merk trees above the depth of the path, each element is not of 63 bytes and a reference does not read
  -- as a tree with a root key. When `verify_inclusion_proof` returns true, the state holds under the key,
  -- in the merk tree at the path, an element that reads as an item with the value; or BLAKE3 has a
  -- collision or an input whose hash is 32 zero bytes.
  pub verify_inclusion_proof-StoredAt :
      (key value input : Bytes) (path : List Bytes)
      → ClearTo (length path) state
      → verify_inclusion_proof blake3 key value input (grove_hash blake3 state) path ≡ true
      → Broken blake3
        ⊎ ((element : Bytes) × (flags : Option Bytes) × StoredAt state path key element
            × (try_deserialize element ≡ some (item value flags)))
  unfolding verify_inclusion_proof
  verify_inclusion_proof-StoredAt key value input path clear e =
      go (verify_item_at_path blake3 input path key (some (grove_hash blake3 state)) false) refl e
    where
      go :
          (x : Result (Bytes × ProvenItem))
          → verify_item_at_path blake3 input path key (some (grove_hash blake3 state)) false ≡ x
          → (elim x as (λ _. Bool) [ err e ↦ false | ok (root, it) ↦ bytes_eq it.value value ])
            ≡ true
          → Broken blake3
            ⊎ ((element : Bytes) × (flags : Option Bytes) × StoredAt state path key element
                × (try_deserialize element ≡ some (item value flags)))
      go (err x) same matched = cc
      go (ok (root, it)) same matched =
          elim (verify_item_at_path-StoredAt blake3 state digest_length false input path key root it
            clear tt same) [
              | inl bad ↦ inl bad
              | inr stored ↦ inr (
                it.element,
                it.flags,
                stored,
                reads_as key input path root it same
                    ∙ ap (λ (v : Bytes). some (item v it.flags))
                        ((bytes_eq_iff it.value value).0 matched),
              )
            ]
