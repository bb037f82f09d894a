-- ===== src/Hash/Hex.antt =====
-- src/willow/grovedb/hash.py: `bytes_to_hex`, `hex_to_bytes`, `hash_to_hex` and `hex_to_hash`.
use willow_sdk_python.Prelude.{
  ℕ, ◌+◌, ◌*◌, ◌/◌, ◌%◌, ◌<◌, ◌≡◌, ◌≢◌, refl, ap, ◌∙◌, arith, [], ◌∷◌, Bytes, IsByte, All, length,
  true, false, none, some, ◌==◌, ◌⊎◌, inl, inr, if◌then◌else◌,
}
use willow_sdk_python.Prelude.Result.{ok, err, ◌>>=◌, bad_hex_length}
use willow_sdk_python.Hash.{
  hex_digit, hex_value, bytes_to_hex, hash_to_hex, strip_marks, clean_hex, from_hex, hex_to_bytes,
  hex_to_hash, is_space,
}

-- A text without the mark's letter is left alone.
mutual
  unfolding strip_marks

  strip_marks_none : (x : ℕ) (s : Bytes) → All (λ c. c ≢ x) s → strip_marks x false s ≡ s
  strip_marks_none x [] all = refl
  strip_marks_none x (c ∷ s) (h, all) =
      ground (arith, strip_marks_none x s all, strip_marks_held x s all)

  strip_marks_held : (x : ℕ) (s : Bytes) → All (λ c. c ≢ x) s → strip_marks x true s ≡ b'0' ∷ s
  strip_marks_held x [] all = refl
  strip_marks_held x (c ∷ s) (h, all) =
      ground (arith, strip_marks_none x s all, strip_marks_held x s all)

-- No hex digit is the letter of a mark.
pub hex_digit-ne : (n x : ℕ) → n < 16 → (x ≡ b'x') ⊎ (x ≡ b'X') → hex_digit n ≢ x
hex_digit-ne n x h m = ground arith

bytes_to_hex-ne :
    (x : ℕ) (bs : Bytes)
    → (x ≡ b'x') ⊎ (x ≡ b'X')
    → All IsByte bs
    → All (λ c. c ≢ x) (bytes_to_hex bs)
unfolding bytes_to_hex
bytes_to_hex-ne x [] m all = tt
bytes_to_hex-ne x (b ∷ bs) m (hb, all) =
    let high = hex_digit-ne (b / 16) x (omega arith) m in
    let low = hex_digit-ne (b % 16) x (omega arith) m in (high, (low, bytes_to_hex-ne x bs m all))

clean_hex-bytes_to_hex :
    (bs : Bytes) → All IsByte bs → clean_hex (bytes_to_hex bs) ≡ bytes_to_hex bs
unfolding clean_hex
clean_hex-bytes_to_hex bs all =
    rw (strip_marks_none b'x' _ (bytes_to_hex-ne b'x' bs (inl refl) all))
      (strip_marks_none b'X' _ (bytes_to_hex-ne b'X' bs (inr refl) all))

hex_value-hex_digit : (n : ℕ) → n < 16 → hex_value (hex_digit n) ≡ some n
unfolding hex_value
hex_value-hex_digit n h = ground arith

hex_digit_not_space : (n : ℕ) → n < 16 → is_space (hex_digit n) ≡ false
unfolding is_space
hex_digit_not_space n h = ground arith

halves : (b : ℕ) → b / 16 * 16 + b % 16 ≡ b
halves b = omega arith

from_hex_first :
    (c high : ℕ) (s : Bytes)
    → is_space c ≡ false
    → hex_value c ≡ some high
    → from_hex none (c ∷ s) ≡ from_hex (some high) s
unfolding from_hex
from_hex_first c high s gap value = rw (gap, value)

from_hex_second :
    (c high low : ℕ) (s : Bytes)
    → hex_value c ≡ some low
    → from_hex (some high) (c ∷ s) ≡ (do later ← from_hex none s; ok ((high * 16 + low) ∷ later))
unfolding from_hex
from_hex_second c high low s value = rw (value, from_hex)

from_hex_pair :
    (c d high low : ℕ) (s bs : Bytes)
    → is_space c ≡ false
    → hex_value c ≡ some high
    → hex_value d ≡ some low
    → from_hex none s ≡ ok bs
    → from_hex none (c ∷ d ∷ s) ≡ ok ((high * 16 + low) ∷ bs)
from_hex_pair c d high low s bs gap first second later =
    from_hex_first c high (d ∷ s) gap first ∙ from_hex_second d high low s second ∙ rw later

pub from_hex-bytes_to_hex : (bs : Bytes) → All IsByte bs → from_hex none (bytes_to_hex bs) ≡ ok bs
unfolding bytes_to_hex
from_hex-bytes_to_hex [] all = unfold from_hex in refl
from_hex-bytes_to_hex (b ∷ bs) (hb, all) =
    let high : b / 16 < 16 = omega arith in
    let low : b % 16 < 16 = omega arith in
    from_hex_pair (hex_digit (b / 16)) (hex_digit (b % 16)) (b / 16) (b % 16) (bytes_to_hex bs) bs
      (hex_digit_not_space (b / 16) high) (hex_value-hex_digit (b / 16) high)
      (hex_value-hex_digit (b % 16) low) (from_hex-bytes_to_hex bs all)
    ∙ ap (λ (d : ℕ). ok (d ∷ bs)) (halves b)

-- `hex_to_bytes` reads back the hex text of any numbers below 256.
pub hex_to_bytes-bytes_to_hex :
    (bs : Bytes) → All IsByte bs → hex_to_bytes (bytes_to_hex bs) ≡ ok bs
unfolding hex_to_bytes
hex_to_bytes-bytes_to_hex bs all = rw (clean_hex-bytes_to_hex bs all) (from_hex-bytes_to_hex bs all)

length-bytes_to_hex : (bs : Bytes) → length (bytes_to_hex bs) ≡ length bs * 2
unfolding bytes_to_hex
length-bytes_to_hex [] = omega arith
length-bytes_to_hex (b ∷ bs) = omega (arith, length-bytes_to_hex bs)

-- Of numbers below 256, `hex_to_hash` reads back the hex text if they are 32, and refuses that of any
-- other number of them.
pub hex_to_hash-hash_to_hex :
    (h : Bytes)
    → All IsByte h
    → hex_to_hash (hash_to_hex h) ≡ (if length h == 32 then ok h else err bad_hex_length)
unfolding hex_to_hash hash_to_hex
hex_to_hash-hash_to_hex h all =
    rw (clean_hex-bytes_to_hex h all, from_hex-bytes_to_hex h all)
      (ground (arith, length-bytes_to_hex h))
