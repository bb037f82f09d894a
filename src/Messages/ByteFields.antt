-- ===== src/Messages/ByteFields.antt =====
-- src/willow/signed_messages.py, `_hex` and `_byte_values`: the bytes of a byte field and their hex text.
use willow_sdk_python.Prelude.{
  ℕ, ◌/◌, ◌%◌, ◌<◌, ◌≤◌, ◌≡◌, sym, ap, ◌∙◌, subst, arith, Option, none, some, Option-cases, List,
  [], ◌∷◌, Bytes, IsByte, All, length, ltb, ltb→lt, ◌==◌, Bool-cases, inl, inr,
}
use willow_sdk_python.Prelude.Int.{ℤ, pos, negsuc}
use willow_sdk_python.Prelude.Result.{ok, ok-injective, >>=-eq-ok}
use willow_sdk_python.Hash.{bytes_to_hex, from_hex, hex_value, is_space, hex_digit}
use willow_sdk_python.Hash.Hex.{from_hex-bytes_to_hex}
use willow_sdk_python.Messages.{ByteField, hex, raw, from_ints, byte_values, hex_of, strip_prefix}
use willow_sdk_python.Messages.Lines.{Without}

hex_value-lt : (c d : ℕ) → hex_value c ≡ some d → d < 16
unfolding hex_value
hex_value-lt c d e = ground (arith, e)

-- What the held digit is below.
abbrev Held : Option ℕ → Type 0
Held none = Unit {0}
Held (some high) = high < 16

from_hex-IsByte :
    (held : Option ℕ) (s bs : Bytes) → Held held → from_hex held s ≡ ok bs → All IsByte bs
unfolding from_hex
from_hex-IsByte none [] bs h e = subst (All IsByte) (ok-injective e) tt
from_hex-IsByte (some high) [] bs h e = cc
from_hex-IsByte none (c ∷ s) bs h e = elim (Bool-cases (is_space c)) [
  | inl space ↦ from_hex-IsByte none s bs tt (rw (from_hex, space) at e)
  | inr other ↦ elim (Option-cases (hex_value c)) [
    | inl bad ↦ cc (rw (from_hex, other, bad) at e)
    | inr (d, value) ↦
        from_hex-IsByte (some d) s bs (hex_value-lt c d value) (rw (from_hex, other, value) at e)
  ]
]
from_hex-IsByte (some high) (c ∷ s) bs h e = elim (Option-cases (hex_value c)) [
  | inl bad ↦ cc (rw (from_hex, bad) at e)
  | inr (d, value) ↦
      let (later, r, e') = >>=-eq-ok (from_hex none s) _ (rw (from_hex, value) at e) in
      let low = hex_value-lt c d value in
      subst (All IsByte) (ok-injective e')
        (omega (arith, h, low), from_hex-IsByte none s later tt r)
]

from_ints-IsByte : (ns : List ℤ) (bs : Bytes) → from_ints ns ≡ ok bs → All IsByte bs
unfolding from_ints
from_ints-IsByte [] bs e = subst (All IsByte) (ok-injective e) tt
from_ints-IsByte (negsuc n ∷ ns) bs e = cc
from_ints-IsByte (pos n ∷ ns) bs e = elim (Bool-cases (ltb n 256)) [
  | inl small ↦
      let (later, r, e') = >>=-eq-ok (from_ints ns) _ (rw (from_ints, small) at e) in
      subst (All IsByte) (ok-injective e') (ltb→lt n 256 small, from_ints-IsByte ns later r)
  | inr large ↦ cc (rw (from_ints, large) at e)
]

-- A byte field that is read gives bytes.
pub byte_values-IsByte : (f : ByteField) (bs : Bytes) → byte_values f ≡ ok bs → All IsByte bs
unfolding byte_values
byte_values-IsByte (hex text) bs e = from_hex-IsByte none (strip_prefix text) bs tt e
byte_values-IsByte (raw ns) bs e = from_ints-IsByte ns bs e

pub bytes_to_hex-injective :
    (a b : Bytes) → All IsByte a → All IsByte b → bytes_to_hex a ≡ bytes_to_hex b → a ≡ b
bytes_to_hex-injective a b ha hb e =
    ok-injective
      (sym (from_hex-bytes_to_hex a ha) ∙ ap (from_hex none) e ∙ from_hex-bytes_to_hex b hb)

hex_digit_large : (n : ℕ) → 48 ≤ hex_digit n
hex_digit_large n = ground arith

-- No hex digit is a code point below 48, such as a line break.
pub bytes_to_hex-Without : (c : ℕ) (bs : Bytes) → c < 48 → Without c (bytes_to_hex bs)
unfolding bytes_to_hex
bytes_to_hex-Without c [] h = tt
bytes_to_hex-Without c (b ∷ bs) h = (
  (λ e. absurd (omega (arith, h, e, hex_digit_large (b / 16)))),
  ((λ e. absurd (omega (arith, h, e, hex_digit_large (b % 16)))), bytes_to_hex-Without c bs h),
)

-- What `_hex` shows.
pub hex_of-bytes_to_hex :
    (f : ByteField) (n : ℕ) (shown : Bytes)
    → hex_of f n ≡ ok shown
    → (bs : Bytes) × (byte_values f ≡ ok bs) × (shown ≡ bytes_to_hex bs) × All IsByte bs
unfolding hex_of
hex_of-bytes_to_hex f n shown e =
    let (bs, r, e') = >>=-eq-ok (byte_values f) _ e in
    elim (Bool-cases (length bs == n)) [
      | inl fits ↦ (bs, r, sym (ok-injective (rw fits at e')), byte_values-IsByte f bs r)
      | inr other ↦ cc (rw other at e')
    ]
