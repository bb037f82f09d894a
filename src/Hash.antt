-- ===== src/Hash.antt =====
-- src/willow/grovedb/hash.py: the hashes of a merk tree, over BLAKE3 as a parameter, and hex text
-- as its character codes.
pub mod Binding
pub mod Ambiguity
pub mod Hex
use willow_sdk_python.Prelude.{
  ℕ, zero, suc, ◌+◌, ◌-◌, ◌*◌, ◌/◌, ◌%◌, List, [], ◌∷◌, ◌++◌, Bytes, length, replicate, bytes_eq,
  ltb, leb, ◌==◌, if◌then◌else◌, Bool, true, false, not, ◌&&◌, ◌||◌, Option, none, some,
}
use willow_sdk_python.Prelude.Result.{Result, ok, err, ◌>>=◌, bad_hex_length, bad_hex}
use willow_sdk_python.Varint.{varint_bytes}

abbrev pub hash_length : ℕ
hash_length = 32

abbrev pub null_hash : Bytes
null_hash = replicate 32 0

module _ (blake3 : Bytes → Bytes) where
  unfoldable pub blake3_hash : Bytes → Bytes
  blake3_hash input = blake3 input

  unfoldable pub value_hash : Bytes → Bytes
  unfolding blake3_hash
  value_hash value = blake3_hash (varint_bytes (length value) ++ value)

  unfoldable pub kv_hash : Bytes → Bytes → Bytes
  unfolding blake3_hash
  kv_hash key value = blake3_hash (varint_bytes (length key) ++ (key ++ value_hash value))

  unfoldable pub kv_digest_to_kv_hash : Bytes → Bytes → Bytes
  unfolding blake3_hash
  kv_digest_to_kv_hash key val_hash = blake3_hash (varint_bytes (length key) ++ (key ++ val_hash))

  unfoldable pub node_hash : Bytes → Bytes → Bytes → Bytes
  unfolding blake3_hash
  node_hash kv left right = blake3_hash (kv ++ (left ++ right))

  unfoldable pub combine_hash : Bytes → Bytes → Bytes
  unfolding blake3_hash
  combine_hash a b = blake3_hash (a ++ b)

unfoldable pub hash_equals : Bytes → Bytes → Bool
hash_equals a b = if not (length a == length b) then false else bytes_eq a b

unfoldable pub is_null_hash : Bytes → Bool
unfolding hash_equals
is_null_hash h = hash_equals h null_hash

-- One lower-case hex digit, as Python's `bytes.hex` writes it.
abbrev pub hex_digit : ℕ → ℕ
hex_digit n = if ltb n 10 then n + b'0' else n - 10 + b'a'

-- `b.hex()`
unfoldable pub bytes_to_hex : Bytes → Bytes
bytes_to_hex [] = []
bytes_to_hex (b ∷ bs) = hex_digit (b / 16) ∷ hex_digit (b % 16) ∷ bytes_to_hex bs

unfoldable pub hash_to_hex : Bytes → Bytes
unfolding bytes_to_hex
hash_to_hex h = bytes_to_hex h

-- `s.replace("0" + x, "")`; the flag says that a "0" is held back until the next character is seen.
unfoldable pub strip_marks : (x : ℕ) → (held : Bool) → Bytes → Bytes
strip_marks x false [] = []
strip_marks x true [] = b'0' ∷ []
strip_marks x false (c ∷ s) =
    let later = strip_marks x false s in
    let hold = strip_marks x true s in if c == b'0' then hold else c ∷ later
strip_marks x true (c ∷ s) =
    let later = strip_marks x false s in
    let hold = strip_marks x true s in
    if c == x then later else if c == b'0' then b'0' ∷ hold else b'0' ∷ c ∷ later

unfoldable pub hex_value : ℕ → Option ℕ
hex_value c =
    if leb b'0' c && leb c b'9'
    then some (c - b'0')
    else if leb b'a' c && leb c b'f'
    then some (c - b'a' + 10)
    else if leb b'A' c && leb c b'F'
    then some (c - b'A' + 10)
    else none

-- ASCII white space, which `bytes.fromhex` skips between bytes.
unfoldable pub is_space : ℕ → Bool
is_space c = c == 32 || (leb 9 c && leb c 13)

-- `bytes.fromhex(s)`; the high digit of a byte is held until its low digit is read.
unfoldable pub from_hex : (held : Option ℕ) → Bytes → Result Bytes
unfolding hex_value is_space
from_hex none [] = ok []
from_hex (some high) [] = err bad_hex
from_hex none (c ∷ s) =
    let skip = from_hex none s in
    if is_space c
    then skip
    else elim (hex_value c) [ none ↦ err bad_hex | some d ↦ from_hex (some d) s ]
from_hex (some high) (c ∷ s) = elim (hex_value c) [
  | none ↦ err bad_hex
  | some low ↦ do later ← from_hex none s; ok ((high * 16 + low) ∷ later)
]

unfoldable pub clean_hex : Bytes → Bytes
unfolding strip_marks
clean_hex text = strip_marks b'X' false (strip_marks b'x' false text)

unfoldable pub hex_to_bytes : Bytes → Result Bytes
unfolding from_hex clean_hex
hex_to_bytes text = from_hex none (clean_hex text)

unfoldable pub hex_to_hash : Bytes → Result Bytes
unfolding from_hex clean_hex
hex_to_hash text =
    let clean = clean_hex text in
    if not (length clean == hash_length * 2) then err bad_hex_length else from_hex none clean
