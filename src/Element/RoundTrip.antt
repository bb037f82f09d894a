-- ===== src/Element/RoundTrip.antt =====
-- src/willow/grovedb/element.py, `deserialize_element`, on the encodings of Element/Encode.
use willow_sdk_python.Prelude.{
  ℕ, ◌^◌, ◌≤◌, ◌<◌, ◌≡◌, refl, ap, ◌∙◌, arith, Bool, true, false, Option, none, some, List, [], ◌∷◌,
  ◌++◌, Bytes, length, append-nil, ltb, leb, if◌then◌else◌,
}
use willow_sdk_python.Prelude.Int.{ℤ}
use willow_sdk_python.Prelude.Result.{ok, err, trailing_bytes}
use willow_sdk_python.Varint.Zigzag.{zigzag_code}
use willow_sdk_python.Cursor.{Read, ◌>>=◌, pure, start, read_u8}
use willow_sdk_python.Cursor.Reads.{Reads, Reads-pure, Reads-bind, Reads-refuse_if, Reads-read_u8}
use willow_sdk_python.Bincode.{read_varint, read_signed_varint, read_bytes, at_end}
use willow_sdk_python.Bincode.Encode.{put_varint, put_bool, put_signed, width_of}
use willow_sdk_python.Bincode.Integers.{
  Reads-code, Reads-u64, Reads-read_varint, Reads-read_bytes, Reads-read_option_tag,
  Reads-read_signed_varint, width_of-le-eight,
}
use willow_sdk_python.Bincode.RoundTrip.{at_end-run}
use willow_sdk_python.Element.{
  Element, item, reference, tree, sum_item, sum_tree, big_sum_tree, count_tree, count_sum_tree,
  has_height, has_key, read_option, read_option_bytes, read_each, read_segments, read_height,
  read_path, read_reference_path_type, read_item, read_reference, read_tree, read_sum_item,
  read_sum_tree, read_big_sum_tree, read_count_tree, read_count_sum_tree, read_body, read_element,
  deserialize_element,
}
use willow_sdk_python.Element.Encode.{
  put_option_bytes, put_option_u8, put_each, put_height, put_path, put_element, IsShortOption,
  AreShort, IsHeight, IsPath, IsElement,
}

-- The last step of each reader.
Reads-last :
    {A B : Type 0} (m : Read A) (f : A → B) {a : A} {code : Bytes}
    → Reads m a code
    → Reads (m >>= λ x. pure (f x)) (f a) code
Reads-last m f {a} {code} h = Reads-code (append-nil code) (Reads-bind m _ h (Reads-pure (f a)))

Reads-option_some :
    {A : Type 0} (m : Read A) {a : A} {code : Bytes}
    → Reads m a code
    → Reads (read_option m) (some a) (1 ∷ code)
unfolding read_option put_bool
Reads-option_some m h = Reads-bind _ _ (Reads-read_option_tag true) (Reads-last m some h)

Reads-option_none : {A : Type 0} (m : Read A) → Reads (read_option m) none (0 ∷ [])
unfolding read_option put_bool
Reads-option_none m = Reads-bind _ _ (Reads-read_option_tag false) (Reads-pure none)

Reads-option_bytes :
    (o : Option Bytes) → IsShortOption o → Reads read_option_bytes o (put_option_bytes o)
unfolding read_option_bytes put_option_bytes
Reads-option_bytes none h = Reads-option_none read_bytes
Reads-option_bytes (some b) h = Reads-option_some read_bytes (Reads-read_bytes b h)

Reads-option_u8 : (o : Option ℕ) → Reads (read_option read_u8) o (put_option_u8 o)
unfolding put_option_u8
Reads-option_u8 none = Reads-option_none read_u8
Reads-option_u8 (some n) = Reads-option_some read_u8 (Reads-read_u8 n)

Reads-each :
    (path : List Bytes) → AreShort path → Reads (read_each (length path)) path (put_each path)
unfolding read_each put_each
Reads-each [] h = Reads-pure []
Reads-each (b ∷ bs) (h, hs) =
    Reads-bind _ _ (Reads-read_bytes b h)
      (Reads-last (read_each (length bs)) (λ later. b ∷ later) (Reads-each bs hs))

Reads-height :
    (tall : Bool) (o : Option ℕ) → IsHeight tall o → Reads (read_height tall) o (put_height o)
unfolding read_height
Reads-height true none h = absurd h
Reads-height true (some n) h = Reads-last read_u8 some (Reads-read_u8 n)
Reads-height false none h = Reads-pure none
Reads-height false (some n) h = absurd h

Reads-path :
    (keyed : Bool) (path : List Bytes)
    → IsPath keyed path
    → AreShort path
    → Reads (read_path keyed) path (put_path keyed path)
unfolding read_path put_path put_each read_segments
Reads-path true [] h s = absurd (omega arith)
Reads-path true (b ∷ []) h (short, end) =
    Reads-bind _ _ (Reads-read_bytes b short) (Reads-pure (b ∷ []))
Reads-path true (b ∷ c ∷ bs) h s = absurd (omega arith)
Reads-path false path h s = Reads-bind _ _ (Reads-u64 (length path) h) (Reads-each path s)

Reads-signed : (z : ℤ) → zigzag_code z < 2 ^ 64 → Reads (read_signed_varint 8) z (put_signed z)
Reads-signed z h = Reads-read_signed_varint 8 z (omega arith) (width_of-le-eight (zigzag_code z) h)

width_of-le-sixteen : (n : ℕ) → width_of n ≤ 16
unfolding width_of
width_of-le-sixteen n = ground arith

Reads-signed_wide :
    (z : ℤ) → zigzag_code z < 2 ^ 128 → Reads (read_signed_varint 16) z (put_signed z)
Reads-signed_wide z h =
    Reads-read_signed_varint 16 z (omega arith) (width_of-le-sixteen (zigzag_code z))

width_of-small : (n : ℕ) → n < 251 → width_of n ≤ 4
unfolding width_of
width_of-small n h = ground arith

-- A discriminant, and the body that it calls for.
Reads-variant :
    {A : Type 0} (n : ℕ) (f : ℕ → Read A) {a : A} {code : Bytes}
    → n < 251
    → Reads (f n) a code
    → Reads (read_varint 4 >>= f) a (put_varint n ++ code)
Reads-variant n f small h =
    Reads-bind _ f (Reads-read_varint 4 n (omega arith) (width_of-small n small)) h

Reads-reference_path :
    (path : List Bytes) (variant : ℕ) (height : Option ℕ)
    → variant < 7
    → IsHeight (has_height variant) height
    → IsPath (has_key variant) path
    → AreShort path
    → Reads read_reference_path_type
        (record { variant = variant; height = height; segments = path })
        (put_varint variant ++ (put_height height ++ put_path (has_key variant) path))
unfolding read_reference_path_type
Reads-reference_path path variant height known tall keyed short =
    Reads-variant variant _ (omega arith) (
      Reads-bind _ _ (Reads-refuse_if (leb 7 variant) _ (ground arith)) (
        Reads-bind _ _ (Reads-height (has_height variant) height tall) (
          Reads-last (read_path (has_key variant))
            (λ segments. record { variant = variant; height = height; segments = segments })
            (Reads-path (has_key variant) path keyed short))))

Reads-element : (e : Element) → IsElement e → Reads read_element e (put_element e)
unfolding read_element put_element read_body read_item read_reference read_tree read_sum_item
    read_sum_tree read_big_sum_tree read_count_tree read_count_sum_tree
Reads-element (item value flags) (hv, hf) =
    Reads-variant 0 _ (omega arith)
      (Reads-bind _ _ (Reads-read_bytes value hv) (Reads-last _ _ (Reads-option_bytes flags hf)))
Reads-element (reference path flags variant height max_hop) (known, tall, keyed, short, hf) =
    Reads-variant 1 _ (omega arith) (
      Reads-bind _ _ (Reads-reference_path path variant height known tall keyed short)
        (Reads-bind _ _ (Reads-option_u8 max_hop) (Reads-last _ _ (Reads-option_bytes flags hf))))
Reads-element (tree root_key flags) (hk, hf) =
    Reads-variant 2 _ (omega arith) (
      Reads-bind _ _ (Reads-option_bytes root_key hk)
        (Reads-last _ _ (Reads-option_bytes flags hf)))
Reads-element (sum_item value flags) (hv, hf) =
    Reads-variant 3 _ (omega arith)
      (Reads-bind _ _ (Reads-signed value hv) (Reads-last _ _ (Reads-option_bytes flags hf)))
Reads-element (sum_tree root_key sum flags) (hk, hs, hf) = Reads-variant 4 _ (omega arith) (
    Reads-bind _ _ (Reads-option_bytes root_key hk)
      (Reads-bind _ _ (Reads-signed sum hs) (Reads-last _ _ (Reads-option_bytes flags hf))))
Reads-element (big_sum_tree root_key sum flags) (hk, hs, hf) = Reads-variant 5 _ (omega arith) (
    Reads-bind _ _ (Reads-option_bytes root_key hk)
      (Reads-bind _ _ (Reads-signed_wide sum hs) (Reads-last _ _ (Reads-option_bytes flags hf))))
Reads-element (count_tree root_key count flags) (hk, hc, hf) = Reads-variant 6 _ (omega arith) (
    Reads-bind _ _ (Reads-option_bytes root_key hk)
      (Reads-bind _ _ (Reads-u64 count hc) (Reads-last _ _ (Reads-option_bytes flags hf))))
Reads-element (count_sum_tree root_key count sum flags) (hk, hc, hs, hf) =
    Reads-variant 7 _ (omega arith) (
      Reads-bind _ _ (Reads-option_bytes root_key hk) (
        Reads-bind _ _ (Reads-u64 count hc)
          (Reads-bind _ _ (Reads-signed sum hs) (Reads-last _ _ (Reads-option_bytes flags hf)))))

-- An element of the widths and lengths that the format allows is read back from its encoding, and
-- the encoding with any bytes behind it is refused.
pub deserialize_element-put_element :
    (e : Element) (tail : Bytes)
    → IsElement e
    → deserialize_element (put_element e ++ tail)
      ≡ (if ltb 0 (length tail) then err trailing_bytes else ok e)
unfolding deserialize_element
deserialize_element-put_element e tail h =
    ap at_end ((Reads-element e h).run (start (put_element e ++ tail)) tail (omega arith) refl)
    ∙ at_end-run e (put_element e) tail
