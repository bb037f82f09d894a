-- ===== src/Bincode/Integers.antt =====
-- src/willow/grovedb/bincode.py: the integers, lengths and flags of `BincodeReader`.
use willow_sdk_python.Prelude.{
  ℕ, ◌%◌, ◌^◌, ◌≤◌, ◌<◌, ◌≡◌, refl, sym, arith, Bool, true, false, some, [], Bytes, length,
  append-nil, subst, ltb, ◌==◌, le→ltb, Bool-cases, inl, inr,
}
use willow_sdk_python.Prelude.Int.{ℤ}
use willow_sdk_python.Prelude.Words.{to_big, from_big, from_big-to_big, length-to_big}
use willow_sdk_python.Varint.{zigzag}
use willow_sdk_python.Varint.Zigzag.{zigzag_code, zigzag-zigzag_code, zigzag_even, zigzag_odd}
use willow_sdk_python.Cursor.{Read, pure, read_u8, read_raw_bytes}
use willow_sdk_python.Cursor.Reads.{
  Reads, Reads-pure, Reads-bind, Reads-refuse_if, Reads-read_u8, Reads-read_raw_bytes,
}
use willow_sdk_python.Bincode.{
  read_bool, read_option_tag, width_of_mark, read_wide, read_varint, unzigzag, read_signed_varint,
  read_bytes,
}
use willow_sdk_python.Bincode.Encode.{
  width_of, mark_of, put_varint, put_bytes, put_bool, put_signed,
}

width_of_mark-mark_of : (n : ℕ) → width_of_mark (mark_of n) ≡ some (width_of n)
unfolding width_of
width_of_mark-mark_of n = ground arith

mark_of-wide : (n : ℕ) → ltb (mark_of n) 251 ≡ false
mark_of-wide n = ground arith

width_of-fits : (n : ℕ) → n < 256 ^ 16 → n < 256 ^ width_of n
unfolding width_of
width_of-fits n h = ground arith

pub Reads-code {ℓ} :
    {A : Type ℓ} {m : Read A} {a : A} {c d : Bytes} → c ≡ d → Reads m a c → Reads m a d
Reads-code {m = m} {a = a} e h = subst (Reads m a) e h

Reads-read_wide :
    (max_bytes n : ℕ)
    → n < 256 ^ 16
    → width_of n ≤ max_bytes
    → Reads (read_wide max_bytes (some (width_of n))) n (to_big (width_of n) n)
unfolding read_wide
Reads-read_wide max_bytes n fits narrow =
    let raw : Reads (read_raw_bytes (width_of n)) (to_big (width_of n) n) (to_big (width_of n) n) =
      subst (λ (k : ℕ). Reads (read_raw_bytes k) (to_big (width_of n) n) (to_big (width_of n) n))
        (length-to_big (width_of n) n) (Reads-read_raw_bytes (to_big (width_of n) n)) in
    let value : Reads (pure (from_big (to_big (width_of n) n))) n [] =
      rw (from_big-to_big (width_of n) n (width_of-fits n fits)) (Reads-pure n) in
    Reads-code (append-nil (to_big (width_of n) n)) (
      Reads-bind _ _ (Reads-refuse_if (ltb max_bytes (width_of n)) _ (le→ltb _ _ narrow))
        (Reads-bind _ _ raw value))

-- Every number below 2 ^ 128 is read back from its form, if that form is at most `max_bytes` wide.
pub Reads-read_varint :
    (max_bytes n : ℕ)
    → n < 256 ^ 16
    → width_of n ≤ max_bytes
    → Reads (read_varint max_bytes) n (put_varint n)
unfolding read_varint put_varint
Reads-read_varint max_bytes n fits narrow = elim (Bool-cases (ltb n 251)) [
  | inl small ↦ rw small (Reads-bind read_u8 _ (Reads-read_u8 n) (rw small (Reads-pure n)))
  | inr wide ↦ rw wide (
      Reads-bind read_u8 _ (Reads-read_u8 (mark_of n)) (
        rw (mark_of-wide n)
          (rw (width_of_mark-mark_of n) (Reads-read_wide max_bytes n fits narrow))))
]

pub width_of-le-eight : (n : ℕ) → n < 2 ^ 64 → width_of n ≤ 8
unfolding width_of
width_of-le-eight n h = ground arith

-- Lengths, counts and every number of 64 bits.
pub Reads-u64 : (n : ℕ) → n < 2 ^ 64 → Reads (read_varint 8) n (put_varint n)
Reads-u64 n h = Reads-read_varint 8 n (omega arith) (width_of-le-eight n h)

-- A byte string with its length in front.
pub Reads-read_bytes : (b : Bytes) → length b ≤ 1_000_000_000 → Reads read_bytes b (put_bytes b)
unfolding read_bytes put_bytes
Reads-read_bytes b h = Reads-bind (read_varint 8) _ (Reads-u64 (length b) (omega arith)) (
    Reads-bind _ _ (Reads-refuse_if _ _ (le→ltb 1_000_000_000 (length b) h))
      (Reads-read_raw_bytes b))

pub Reads-read_bool : (b : Bool) → Reads read_bool b (put_bool b)
unfolding read_bool put_bool
Reads-read_bool true =
    Reads-bind read_u8 _ (Reads-read_u8 1)
      (Reads-bind _ _ (Reads-refuse_if _ _ refl) (Reads-pure true))
Reads-read_bool false =
    Reads-bind read_u8 _ (Reads-read_u8 0)
      (Reads-bind _ _ (Reads-refuse_if _ _ refl) (Reads-pure false))

pub Reads-read_option_tag : (b : Bool) → Reads read_option_tag b (put_bool b)
unfolding read_option_tag put_bool
Reads-read_option_tag true =
    Reads-bind read_u8 _ (Reads-read_u8 1)
      (Reads-bind _ _ (Reads-refuse_if _ _ refl) (Reads-pure true))
Reads-read_option_tag false =
    Reads-bind read_u8 _ (Reads-read_u8 0)
      (Reads-bind _ _ (Reads-refuse_if _ _ refl) (Reads-pure false))

-- The two zigzag readings of the SDK, by bit operations in varint.py and by parity in bincode.py,
-- are one function.
pub unzigzag-zigzag : (n : ℕ) → unzigzag n ≡ zigzag n
unfolding unzigzag
unzigzag-zigzag n = elim (Bool-cases (n % 2 == 0)) [
  | inl even ↦ rw even (sym (zigzag_even n (ground arith)))
  | inr odd ↦ rw odd (sym (zigzag_odd n (ground arith)))
]

-- A signed integer is read back from its zigzag form, if that form is at most `max_bytes` wide.
pub Reads-read_signed_varint :
    (max_bytes : ℕ) (z : ℤ)
    → zigzag_code z < 256 ^ 16
    → width_of (zigzag_code z) ≤ max_bytes
    → Reads (read_signed_varint max_bytes) z (put_signed z)
unfolding read_signed_varint put_signed
Reads-read_signed_varint max_bytes z fits narrow =
    let value : Reads (pure (unzigzag (zigzag_code z))) z [] =
      rw (unzigzag-zigzag (zigzag_code z), zigzag-zigzag_code z) (Reads-pure z) in
    Reads-code (append-nil (put_varint (zigzag_code z))) (
      Reads-bind (read_varint max_bytes) _ (Reads-read_varint max_bytes (zigzag_code z) fits narrow)
        value)
