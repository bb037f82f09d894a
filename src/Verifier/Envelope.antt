-- ===== src/Verifier/Envelope.antt =====
-- src/willow/grovedb/verifier.py, `check_envelope`: the layers of a proof against the queried path.
use willow_sdk_python.Prelude.{
  ℕ, zero, suc, length, ◌≡◌, arith, true, some, List, [], ◌∷◌, Bytes, ◌==◌, ==_iff, bytes_eq,
  bytes_eq_iff, Bool-cases, Option-cases, inl, inr,
}
use willow_sdk_python.Prelude.Result.{ok}
use willow_sdk_python.Hash.{bytes_to_hex}
use willow_sdk_python.Bincode.{LayerProof, layer, Layers, no_layers, below, GroveDbProof}
use willow_sdk_python.Verifier.{
  get_layer, count_layers, check_path, check_prove_options, check_envelope,
}

-- The layers go down the path, one to a segment, and no other layer is there.
pub data Descends : LayerProof → List Bytes → Type 0 where
  arrived : (merk : Bytes) → Descends (layer merk no_layers) []
  down :
      (merk segment : Bytes) (l : LayerProof) (path : List Bytes)
      → Descends l path
      → Descends (layer merk (below (bytes_to_hex segment) l no_layers)) (segment ∷ path)

-- The layers go down some number of levels at most.
unfoldable mutual
  pub Fits : (levels : ℕ) → LayerProof → Type 0
  Fits n (layer merk ls) = FitAll n ls

  pub FitAll : (levels : ℕ) → Layers → Type 0
  FitAll n no_layers = Unit {0}
  FitAll zero (below key l ls) = ⊥
  FitAll (suc n) (below key l ls) = Fits n l × FitAll (suc n) ls

pub Descends-Fits : (l : LayerProof) (path : List Bytes) → Descends l path → Fits (length path) l
unfolding Fits
Descends-Fits l path (arrived merk) = tt
Descends-Fits l path (down merk segment lower later d) = (Descends-Fits lower later d, tt)

-- The one layer, if it is found under the segment.
only_layer :
    (key : Bytes) (ls : Layers) (l : LayerProof)
    → get_layer key ls ≡ some l
    → (count_layers ls == 1) ≡ true
    → ls ≡ below key l no_layers
unfolding get_layer
only_layer key no_layers l found one = cc
only_layer key (below other m no_layers) l found one = elim (Bool-cases (bytes_eq other key)) [
  | inl same ↦ cc (rw same at found, (bytes_eq_iff other key).0 same)
  | inr apart ↦ cc (rw apart at found)
]
only_layer key (below other m (below third n ls)) l found one = absurd (ground arith)

check_path-Descends :
    (l : LayerProof) (path : List Bytes) → check_path l path ≡ ok tt → Descends l path
unfolding check_path
check_path-Descends (layer merk no_layers) [] e = arrived merk
check_path-Descends (layer merk (below key l ls)) [] e = absurd (ground arith)
check_path-Descends (layer merk ls) (segment ∷ path) e =
    elim (Option-cases (get_layer (bytes_to_hex segment) ls)) [
      | inl missing ↦ cc (rw (check_path, missing) at e)
      | inr (l, found) ↦ elim (Bool-cases (count_layers ls == 1)) [
        | inl one ↦ rw (only_layer (bytes_to_hex segment) ls l found one) (
            down merk segment l path
              (check_path-Descends l path (rw (check_path, found, one) at e)))
        | inr more ↦ cc (rw (check_path, found, more) at e)
      ]
    ]

-- An envelope that passes the check is of version 0 with the default prove option, and its layers go
-- down exactly the queried path: one layer under each segment in turn, and no layer beside or below.
pub check_envelope-Descends :
    (proof : GroveDbProof) (path : List Bytes)
    → check_envelope proof path ≡ ok tt
    → (proof.version ≡ 0)
      × (proof.proof.prove_options.decrease_limit_on_empty_sub_query_result ≡ true)
      × Descends proof.proof.root_layer path
unfolding check_envelope check_prove_options
check_envelope-Descends proof path e = elim (Bool-cases (proof.version == 0)) [
  | inl zero' ↦
      elim (Bool-cases proof.proof.prove_options.decrease_limit_on_empty_sub_query_result) [
        | inl default ↦ (
          (==_iff proof.version 0).0 zero',
          default,
          check_path-Descends proof.proof.root_layer path (rw (zero', default) at e),
        )
        | inr other ↦ cc (rw (zero', other) at e)
      ]
  | inr other ↦ cc (rw other at e)
]
