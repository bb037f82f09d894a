-- ===== src/Bincode/Encode.antt =====
-- The encodings that src/willow/grovedb/bincode.py reads, as bincode's standard configuration writes
-- them.
use willow_sdk_python.Prelude.{
  ℕ, suc, ◌^◌, ◌≤◌, ◌<◌, Bool, true, false, [], ◌∷◌, ◌++◌, Bytes, length, ltb, max, if◌then◌else◌,
}
use willow_sdk_python.Prelude.Int.{ℤ}
use willow_sdk_python.Prelude.Words.{to_big}
use willow_sdk_python.Varint.Zigzag.{zigzag_code}
use willow_sdk_python.Hash.{bytes_to_hex}
use willow_sdk_python.Bincode.{LayerProof, Layers, layer, no_layers, put_layer}

-- How many bytes the wide form of a number has.
unfoldable pub width_of : ℕ → ℕ
width_of n =
    if ltb n (2 ^ 16) then 2 else if ltb n (2 ^ 32) then 4 else if ltb n (2 ^ 64) then 8 else 16

abbrev pub mark_of : ℕ → ℕ
mark_of n =
    if ltb n (2 ^ 16)
    then 251
    else if ltb n (2 ^ 32)
    then 252
    else if ltb n (2 ^ 64)
    then 253
    else 254

unfoldable pub put_varint : ℕ → Bytes
unfolding width_of
put_varint n = if ltb n 251 then n ∷ [] else mark_of n ∷ to_big (width_of n) n

unfoldable pub put_bytes : Bytes → Bytes
unfolding put_varint
put_bytes b = put_varint (length b) ++ b

unfoldable pub put_bool : Bool → Bytes
put_bool true = 1 ∷ []
put_bool false = 0 ∷ []

unfoldable pub put_signed : ℤ → Bytes
unfolding put_varint
put_signed z = put_varint (zigzag_code z)

-- A layer and the layers below it, by their keys.
mutual
  pub data ProofTree : Type 0 where
    node : (merk_proof : Bytes) → (children : Children) → ProofTree

  pub data Children : Type 0 where
    none' : Children
    child : (key : Bytes) → ProofTree → Children → Children

abbrev pub count_children : Children → ℕ
count_children none' = 0
count_children (child key t ts) = suc (count_children ts)

unfoldable mutual
  pub put_tree : ProofTree → Bytes
  put_tree (node merk ts) = put_bytes merk ++ (put_varint (count_children ts) ++ put_children ts)

  pub put_children : Children → Bytes
  put_children none' = []
  put_children (child key t ts) = put_bytes key ++ (put_tree t ++ put_children ts)

-- The layers that a tree stands for: a later key takes the place of an equal one.
unfoldable mutual
  pub layer_of : ProofTree → LayerProof
  layer_of (node merk ts) = layer merk (layers_of ts no_layers)

  pub layers_of : Children → Layers → Layers
  layers_of none' ls = ls
  layers_of (child key t ts) ls = layers_of ts (put_layer (bytes_to_hex key) (layer_of t) ls)

unfoldable mutual
  pub depth : ProofTree → ℕ
  depth (node merk ts) = suc (depth_below ts)

  pub depth_below : Children → ℕ
  depth_below none' = 0
  depth_below (child key t ts) = max (depth t) (depth_below ts)

-- Lengths and counts within the reader's limits.
abbrev mutual
  pub IsTree : ProofTree → Type 0
  IsTree (node merk ts) = (length merk ≤ 1_000_000_000) × (count_children ts < 2 ^ 64) × AreTrees ts

  pub AreTrees : Children → Type 0
  AreTrees none' = Unit {0}
  AreTrees (child key t ts) = (length key ≤ 1_000_000_000) × IsTree t × AreTrees ts
