-- ===== src/Element.antt =====
-- src/willow/grovedb/element.py: the elements stored in a merk tree, read from their bytes.
pub mod Encode
pub mod RoundTrip
use willow_sdk_python.Prelude.{
  ℕ, zero, suc, ◌+◌, ◌*◌, ◌^◌, Bool, true, false, not, ◌||◌, Option, none, some, List, [], ◌∷◌,
  ◌++◌, Bytes, length, ltb, leb, ◌==◌, if◌then◌else◌,
}
use willow_sdk_python.Prelude.Int.{ℤ}
use willow_sdk_python.Prelude.Result.{Result, ok, err, bad_element, bad_reference}
use willow_sdk_python.Cursor.{Cursor, Read, ◌>>=◌, ◌>>◌, pure, raise, refuse_if, start, read_u8}
use willow_sdk_python.Bincode.{read_option_tag, read_varint, read_signed_varint, read_bytes, at_end}

pub data Element : Type 0 where
  item : (value : Bytes) → (flags : Option Bytes) → Element
  reference :
      (path : List Bytes)
      → (flags : Option Bytes) → (reference_type : ℕ) → (height max_hop : Option ℕ) → Element
  tree : (root_key flags : Option Bytes) → Element
  sum_item : (value : ℤ) → (flags : Option Bytes) → Element
  sum_tree : (root_key : Option Bytes) → (sum_value : ℤ) → (flags : Option Bytes) → Element
  big_sum_tree : (root_key : Option Bytes) → (sum_value : ℤ) → (flags : Option Bytes) → Element
  count_tree : (root_key : Option Bytes) → (count : ℕ) → (flags : Option Bytes) → Element
  count_sum_tree :
      (root_key : Option Bytes) → (count : ℕ) → (sum : ℤ) → (flags : Option Bytes) → Element

-- `x if reader.read_option_tag() else None`
unfoldable pub read_option : {A : Type 0} → Read A → Read (Option A)
read_option m = do
  present ← read_option_tag
  if present then (do value ← m; pure (some value)) else pure none

unfoldable pub read_option_bytes : Read (Option Bytes)
unfolding read_option
read_option_bytes = read_option read_bytes

-- The comprehension over `range(reader.read_varint())`.
unfoldable pub read_each : (count : ℕ) → Read (List Bytes)
read_each zero = pure []
read_each (suc count) = do segment ← read_bytes; later ← read_each count; pure (segment ∷ later)

unfoldable pub read_segments : Read (List Bytes)
unfolding read_each
read_segments = do count ← read_varint 8; read_each count

abbrev pub has_height : ℕ → Bool
has_height variant = variant == 1 || (variant == 2 || variant == 3)

abbrev pub has_key : ℕ → Bool
has_key variant = variant == 4 || variant == 6

-- A reference path: its variant, its height and its segments.
pub record ReferencePath : Type 0 where
  pub variant : ℕ
  pub height : Option ℕ
  pub segments : List Bytes

unfoldable pub read_height : Bool → Read (Option ℕ)
read_height true = do height ← read_u8; pure (some height)
read_height false = pure none

unfoldable pub read_path : Bool → Read (List Bytes)
unfolding read_segments
read_path true = do key ← read_bytes; pure (key ∷ [])
read_path false = read_segments

unfoldable pub read_reference_path_type : Read ReferencePath
unfolding read_height read_path
read_reference_path_type = do
  variant ← read_varint 4
  refuse_if (leb 7 variant) bad_reference
  height ← read_height (has_height variant)
  segments ← read_path (has_key variant)
  pure (record { variant = variant; height = height; segments = segments })

-- One reader for each element type, after its discriminant.
unfoldable pub read_item : Read Element
read_item = do value ← read_bytes; flags ← read_option_bytes; pure (item value flags)

unfoldable pub read_reference : Read Element
read_reference = do
  path ← read_reference_path_type
  max_hop ← read_option read_u8
  flags ← read_option_bytes
  pure (reference path.segments flags path.variant path.height max_hop)

unfoldable pub read_tree : Read Element
read_tree = do root_key ← read_option_bytes; flags ← read_option_bytes; pure (tree root_key flags)

unfoldable pub read_sum_item : Read Element
read_sum_item = do
  value ← read_signed_varint 8
  flags ← read_option_bytes
  pure (sum_item value flags)

unfoldable pub read_sum_tree : Read Element
read_sum_tree = do
  root_key ← read_option_bytes
  sum_value ← read_signed_varint 8
  flags ← read_option_bytes
  pure (sum_tree root_key sum_value flags)

unfoldable pub read_big_sum_tree : Read Element
read_big_sum_tree = do
  root_key ← read_option_bytes
  sum_value ← read_signed_varint 16
  flags ← read_option_bytes
  pure (big_sum_tree root_key sum_value flags)

unfoldable pub read_count_tree : Read Element
read_count_tree = do
  root_key ← read_option_bytes
  count ← read_varint 8
  flags ← read_option_bytes
  pure (count_tree root_key count flags)

unfoldable pub read_count_sum_tree : Read Element
read_count_sum_tree = do
  root_key ← read_option_bytes
  count ← read_varint 8
  sum ← read_signed_varint 8
  flags ← read_option_bytes
  pure (count_sum_tree root_key count sum flags)

-- The chain of tests on the discriminant.
unfoldable pub read_body : (element_type : ℕ) → Read Element
read_body element_type =
    if element_type == 0
    then read_item
    else if element_type == 1
    then read_reference
    else if element_type == 2
    then read_tree
    else if element_type == 3
    then read_sum_item
    else if element_type == 4
    then read_sum_tree
    else if element_type == 5
    then read_big_sum_tree
    else if element_type == 6
    then read_count_tree
    else if element_type == 7
    then read_count_sum_tree
    else raise bad_element

unfoldable pub read_element : Read Element
unfolding read_body
read_element = do element_type ← read_varint 4; read_body element_type

unfoldable pub deserialize_element : Bytes → Result Element
deserialize_element input = at_end (read_element (start input))

unfoldable pub is_tree_element : Element → Bool
is_tree_element (item v f) = false
is_tree_element (reference p f r h m) = false
is_tree_element (sum_item v f) = false
is_tree_element e = true

abbrev pub is_present : Option Bytes → Bool
is_present none = false
is_present (some k) = true

unfoldable pub has_root_key : Element → Bool
has_root_key (tree k f) = is_present k
has_root_key (sum_tree k s f) = is_present k
has_root_key (big_sum_tree k s f) = is_present k
has_root_key (count_tree k c f) = is_present k
has_root_key (count_sum_tree k c s f) = is_present k
has_root_key e = false

pub data FeatureType : Type 0 where
  basic_merk_node summed_merk_node big_summed_merk_node counted_merk_node counted_summed_merk_node :
      FeatureType

unfoldable pub get_tree_feature_type : Element → Option FeatureType
get_tree_feature_type (tree k f) = some basic_merk_node
get_tree_feature_type (sum_tree k s f) = some summed_merk_node
get_tree_feature_type (big_sum_tree k s f) = some big_summed_merk_node
get_tree_feature_type (count_tree k c f) = some counted_merk_node
get_tree_feature_type (count_sum_tree k c s f) = some counted_summed_merk_node
get_tree_feature_type e = none
