-- ===== src/Element/Encode.antt =====
-- The encodings of elements that src/willow/grovedb/element.py reads, as bincode's standard
-- configuration writes them.
use willow_sdk_python.Prelude.{
  ℕ, ◌^◌, ◌≤◌, ◌<◌, ◌≡◌, Bool, true, false, Option, none, some, List, [], ◌∷◌, ◌++◌, Bytes, length,
}
use willow_sdk_python.Varint.Zigzag.{zigzag_code}
use willow_sdk_python.Bincode.Encode.{put_varint, put_bytes, put_signed}
use willow_sdk_python.Element.{
  Element, item, reference, tree, sum_item, sum_tree, big_sum_tree, count_tree, count_sum_tree,
  has_height, has_key,
}

unfoldable pub put_option_bytes : Option Bytes → Bytes
unfolding put_bytes
put_option_bytes none = 0 ∷ []
put_option_bytes (some b) = 1 ∷ put_bytes b

unfoldable pub put_option_u8 : Option ℕ → Bytes
put_option_u8 none = 0 ∷ []
put_option_u8 (some n) = 1 ∷ n ∷ []

unfoldable pub put_each : List Bytes → Bytes
put_each [] = []
put_each (b ∷ bs) = put_bytes b ++ put_each bs

-- The height, where there is one, stands bare.
abbrev pub put_height : Option ℕ → Bytes
put_height none = []
put_height (some n) = n ∷ []

-- One key stands bare, a list of segments behind its count.
unfoldable pub put_path : (keyed : Bool) → List Bytes → Bytes
unfolding put_each
put_path true path = put_each path
put_path false path = put_varint (length path) ++ put_each path

unfoldable pub put_element : Element → Bytes
unfolding put_option_bytes put_option_u8 put_path
put_element (item value flags) = put_varint 0 ++ (put_bytes value ++ put_option_bytes flags)
put_element (reference path flags variant height max_hop) =
    put_varint 1
    ++ ((put_varint variant ++ (put_height height ++ put_path (has_key variant) path))
        ++ (put_option_u8 max_hop ++ put_option_bytes flags))
put_element (tree root_key flags) =
    put_varint 2 ++ (put_option_bytes root_key ++ put_option_bytes flags)
put_element (sum_item value flags) = put_varint 3 ++ (put_signed value ++ put_option_bytes flags)
put_element (sum_tree root_key sum flags) =
    put_varint 4 ++ (put_option_bytes root_key ++ (put_signed sum ++ put_option_bytes flags))
put_element (big_sum_tree root_key sum flags) =
    put_varint 5 ++ (put_option_bytes root_key ++ (put_signed sum ++ put_option_bytes flags))
put_element (count_tree root_key count flags) =
    put_varint 6 ++ (put_option_bytes root_key ++ (put_varint count ++ put_option_bytes flags))
put_element (count_sum_tree root_key count sum flags) =
    put_varint 7
    ++ (put_option_bytes root_key
        ++ (put_varint count ++ (put_signed sum ++ put_option_bytes flags)))

-- Lengths within the reader's limit.
abbrev pub IsShort : Bytes → Type 0
IsShort b = length b ≤ 1_000_000_000

abbrev pub IsShortOption : Option Bytes → Type 0
IsShortOption none = Unit {0}
IsShortOption (some b) = IsShort b

abbrev pub AreShort : List Bytes → Type 0
AreShort [] = Unit {0}
AreShort (b ∷ bs) = IsShort b × AreShort bs

-- A reference has a height exactly in the variants 1, 2 and 3, and one key in 4 and 6.
abbrev pub IsHeight : Bool → Option ℕ → Type 0
IsHeight true none = ⊥
IsHeight true (some n) = Unit {0}
IsHeight false none = Unit {0}
IsHeight false (some n) = ⊥

abbrev pub IsPath : Bool → List Bytes → Type 0
IsPath true path = length path ≡ 1
IsPath false path = length path < 2 ^ 64

-- The elements that the encoding is for: numbers of their widths, and lengths within the limits.
abbrev pub IsElement : Element → Type 0
IsElement (item value flags) = IsShort value × IsShortOption flags
IsElement (reference path flags variant height max_hop) =
    (variant < 7)
    × IsHeight (has_height variant) height
    × IsPath (has_key variant) path
    × AreShort path
    × IsShortOption flags
IsElement (tree root_key flags) = IsShortOption root_key × IsShortOption flags
IsElement (sum_item value flags) = (zigzag_code value < 2 ^ 64) × IsShortOption flags
IsElement (sum_tree root_key sum flags) =
    IsShortOption root_key × (zigzag_code sum < 2 ^ 64) × IsShortOption flags
IsElement (big_sum_tree root_key sum flags) =
    IsShortOption root_key × (zigzag_code sum < 2 ^ 128) × IsShortOption flags
IsElement (count_tree root_key count flags) =
    IsShortOption root_key × (count < 2 ^ 64) × IsShortOption flags
IsElement (count_sum_tree root_key count sum flags) =
    IsShortOption root_key × (count < 2 ^ 64) × (zigzag_code sum < 2 ^ 64) × IsShortOption flags
