-- ===== src/Prelude/Dict.antt =====
-- Python's `dict` as an association list, and the sets of numbers it keeps.
use text.Mathlib.Text.{◌==◌ as str_eq}
use text.Mathlib.TextEquality.{eq_iff}
use Prim.Native.String.{String}
use willow_sdk_python.Prelude.{
  ℕ, ◌≡◌, ◌↔◌, refl, Bool, true, false, Option, none, some, List, [], ◌∷◌, arith, bytes_eq,
  bytes_eq_iff, Bytes, if◌then◌else◌, ==_iff, ◌||◌, ◌&&◌, ◌++◌,
}
use willow_sdk_python.Prelude.{◌==◌ as nat_eq}

-- Equality of keys.
pub record Key {ℓ} (K : Type ℓ) : Type ℓ where
  pub is_same : K → K → Bool
  pub is_same_iff : (j k : K) → (is_same j k ≡ true) ↔ (j ≡ k)

infix 50 ◌==◌
abbrev pub ◌==◌ {ℓ} : {K : Type ℓ} ⦃e : Key K⦄ → K → K → Bool
◌==◌ ⦃e⦄ = e.is_same

instance abbrev pub nat_key : Key ℕ
nat_key = record { is_same = nat_eq; is_same_iff = ==_iff }

instance abbrev pub string_key : Key String
string_key = record { is_same = str_eq; is_same_iff = eq_iff }

instance abbrev pub bytes_key : Key Bytes
bytes_key = record { is_same = bytes_eq; is_same_iff = bytes_eq_iff }

abbrev pub Dict {ℓ κ} : Type ℓ → Type κ → Type (ℓ ⊔ κ)
Dict K V = List (K × V)

-- A set of numbers, by its members.
unfoldable pub contains : ℕ → List ℕ → Bool
contains n [] = false
contains n (m ∷ s) = nat_eq m n || contains n s

unfoldable pub filter {ℓ} : {A : Type ℓ} → (A → Bool) → List A → List A
filter p [] = []
filter p (x ∷ xs) = let rest = filter p xs in if p x then x ∷ rest else rest

module _ {ℓ κ} {K : Type ℓ} {V : Type κ} ⦃e : Key K⦄ where
  -- `d.get(k)`
  unfoldable pub get : K → Dict K V → Option V
  get k [] = none
  get k ((j, v) ∷ d) = if j == k then some v else get k d

  -- `d[k] = v`; a key that is there keeps its place.
  unfoldable pub put : K → V → Dict K V → Dict K V
  put k v [] = (k, v) ∷ []
  put k v ((j, w) ∷ d) = if j == k then (k, v) ∷ d else (j, w) ∷ put k v d

  -- `d.pop(k, None)`
  unfoldable pub remove : K → Dict K V → Dict K V
  remove k [] = []
  remove k ((j, w) ∷ d) = let rest = remove k d in if j == k then rest else (j, w) ∷ rest

  pub get-put :
      (k j : K) (v : V) (d : Dict K V) → get j (put k v d) ≡ (if k == j then some v else get j d)
  unfolding get put
  get-put k j v [] = refl
  get-put k j v ((i, w) ∷ d) =
      ground (arith, e.is_same_iff k j, e.is_same_iff i k, e.is_same_iff i j, get-put k j v d)

  pub get-remove :
      (k j : K) (d : Dict K V) → get j (remove k d) ≡ (if k == j then none else get j d)
  unfolding get remove
  get-remove k j [] = ground arith
  get-remove k j ((i, w) ∷ d) =
      ground (arith, e.is_same_iff k j, e.is_same_iff i k, e.is_same_iff i j, get-remove k j d)

pub contains-filter :
    (p : ℕ → Bool) (n : ℕ) (s : List ℕ) → contains n (filter p s) ≡ (p n && contains n s)
unfolding contains filter
contains-filter p n [] = ground arith
contains-filter p n (m ∷ s) = ground (arith, contains-filter p n s)

pub contains-append : (n : ℕ) (s t : List ℕ) → contains n (s ++ t) ≡ (contains n s || contains n t)
unfolding contains
contains-append n [] t = refl
contains-append n (m ∷ s) t = ground (arith, contains-append n s t)

-- A comprehension over `d.items()` that keeps the entries with `p`, on a dictionary of one entry
-- for each key.
module _ {κ} {V : Type κ} where
  -- No key twice.
  abbrev pub IsUnique : Dict ℕ V → Type κ
  IsUnique [] = Unit {κ}
  IsUnique ((k, v) ∷ d) = (get k d ≡ none) × IsUnique d

  abbrev pub keep_some : (ℕ × V → Bool) → ℕ → Option V → Option V
  keep_some p k none = none
  keep_some p k (some v) = if p (k, v) then some v else none

  pub get-filter :
      (p : ℕ × V → Bool) (k : ℕ) (d : Dict ℕ V)
      → IsUnique d
      → get k (filter p d) ≡ keep_some p k (get k d)
  unfolding get filter
  get-filter p k [] u = refl
  get-filter p k ((j, v) ∷ d) (h, u) = ground (arith, get-filter p k d u)

  pub filter-IsUnique : (p : ℕ × V → Bool) (d : Dict ℕ V) → IsUnique d → IsUnique (filter p d)
  unfolding get filter
  filter-IsUnique p [] u = tt
  filter-IsUnique p ((j, v) ∷ d) (h, u) = ground (arith, get-filter p j d u, filter-IsUnique p d u)

  pub put-IsUnique : (k : ℕ) (v : V) (d : Dict ℕ V) → IsUnique d → IsUnique (put k v d)
  unfolding get put
  put-IsUnique k v [] u = ground arith
  put-IsUnique k v ((j, w) ∷ d) (h, u) = ground (arith, get-put k j v d, put-IsUnique k v d u)

  pub remove-IsUnique : (k : ℕ) (d : Dict ℕ V) → IsUnique d → IsUnique (remove k d)
  unfolding get remove
  remove-IsUnique k [] u = tt
  remove-IsUnique k ((j, w) ∷ d) (h, u) = ground (arith, get-remove k j d, remove-IsUnique k d u)
