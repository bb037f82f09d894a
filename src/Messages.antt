-- ===== src/Messages.antt =====
-- src/willow/signed_messages.py: the messages that data, file, key grant and node removal transactions
-- are signed over. A text is the list of its code points; SHA-256 is a parameter.
--
-- The fields come with the types that the functions' signatures name; a value of another type, which
-- raises `TypeError`, has no counterpart.
pub mod Labels
pub mod ByteFields
pub mod Decimal
pub mod Grants
pub mod Lines
pub mod Writes
pub mod Binding
pub mod Print
pub mod Opened
pub mod Distinct
pub mod Plain
pub mod Revoke
use willow_sdk_python.Prelude.{
  ℕ, zero, suc, ◌+◌, ◌-◌, ◌*◌, ◌/◌, ◌%◌, ◌^◌, Bool, true, false, not, ◌&&◌, ◌||◌, Option, none,
  some, List, [], ◌∷◌, ◌++◌, Bytes, length, ltb, leb, ◌==◌, bytes_eq, take, drop, if◌then◌else◌,
}
use willow_sdk_python.Prelude.Int.{ℤ, pos, negsuc}
use willow_sdk_python.Prelude.Result.{
  Result, ok, err, ◌>>=◌, ◌>>◌, line_break, not_unsigned, wrong_length, bad_byte, bad_text, bad_did,
  bad_subgrove, no_sender,
}
use willow_sdk_python.Hash.{bytes_to_hex, from_hex}
use willow_sdk_python.Messages.Labels.*

-- `"\n" in value`, and `":" in value`
unfoldable pub has_code : ℕ → Bytes → Bool
has_code c [] = false
has_code c (d ∷ text) = d == c || has_code c text

-- `f"{label}: {value}"`
abbrev pub line : (label value : Bytes) → Bytes
line label value = label ++ (58 ∷ 32 ∷ value)

-- `_field`
unfoldable pub field : (label value : Bytes) → Result Bytes
unfolding has_code
field label value = if has_code 10 value then err line_break else ok (line label value)

abbrev pub u32_max : ℕ
u32_max = 4294967295

abbrev pub u64_max : ℕ
u64_max = 18446744073709551615

-- `_unsigned`
unfoldable pub unsigned : ℤ → (maximum : ℕ) → Result ℕ
unsigned (pos n) maximum = if leb n maximum then ok n else err not_unsigned
unsigned (negsuc n) maximum = err not_unsigned

-- A number in decimal. The fuel is one more than the number, which has fewer digits.
unfoldable pub digits : (fuel : ℕ) → ℕ → Bytes
digits zero n = []
digits (suc fuel) n = elim (ltb n 10) [
  | true ↦ (n + 48) ∷ []
  | false ↦ digits fuel (n / 10) ++ ((n % 10 + 48) ∷ [])
]

unfoldable pub decimal : ℕ → Bytes
unfolding digits
decimal n = digits (suc n) n

-- A byte field: hex text, or the numbers of a byte string or of a list.
pub data ByteField : Type 0 where
  hex : Bytes → ByteField
  raw : List ℤ → ByteField

-- `value[2:] if value.startswith(("0x", "0X")) else value`
unfoldable pub strip_prefix : Bytes → Bytes
strip_prefix [] = []
strip_prefix (c ∷ []) = c ∷ []
strip_prefix (c ∷ d ∷ text) = if c == 48 && (d == 120 || d == 88) then text else c ∷ d ∷ text

-- `bytes(value)`, which raises for a number that is not a byte.
unfoldable pub from_ints : List ℤ → Result Bytes
from_ints [] = ok []
from_ints (negsuc n ∷ ns) = err bad_byte
from_ints (pos n ∷ ns) =
    if ltb n 256 then (do later ← from_ints ns; ok (n ∷ later)) else err bad_byte

-- `_byte_values` with no length, and the first part of `_hex`
unfoldable pub byte_values : ByteField → Result Bytes
unfolding strip_prefix from_ints from_hex
byte_values (hex text) = from_hex none (strip_prefix text)
byte_values (raw ns) = from_ints ns

-- `_hex`
unfoldable pub hex_of : ByteField → (length : ℕ) → Result Bytes
unfolding byte_values bytes_to_hex
hex_of value n = do
  bytes ← byte_values value
  if length bytes == n then ok (bytes_to_hex bytes) else err wrong_length

-- One code point in UTF-8; a surrogate raises.
unfoldable pub utf8_char : ℕ → Result Bytes
utf8_char c =
    if ltb c 0x80
    then ok (c ∷ [])
    else if ltb c 0x800
    then ok ((0xc0 + c / 64) ∷ (0x80 + c % 64) ∷ [])
    else if leb 0xd800 c && leb c 0xdfff
    then err bad_text
    else if ltb c 0x10000
    then ok ((0xe0 + c / 4096) ∷ (0x80 + c / 64 % 64) ∷ (0x80 + c % 64) ∷ [])
    else ok
        ((0xf0 + c / 262144) ∷ (0x80 + c / 4096 % 64) ∷ (0x80 + c / 64 % 64) ∷ (0x80 + c % 64) ∷ [])

-- `text.encode("utf-8")`
unfoldable pub utf8 : Bytes → Result Bytes
unfolding utf8_char
utf8 [] = ok []
utf8 (c ∷ text) = do first ← utf8_char c; later ← utf8 text; ok (first ++ later)

pub data DataField : Type 0 where
  text : Bytes → DataField
  bytes : Bytes → DataField

unfoldable pub data_bytes : DataField → Result Bytes
unfolding utf8
data_bytes (text t) = utf8 t
data_bytes (bytes b) = ok b

-- `"\n".join(lines)`
unfoldable pub join_lines : List Bytes → Bytes
join_lines [] = []
join_lines (l ∷ []) = l
join_lines (l ∷ m ∷ ls) = l ++ (10 ∷ join_lines (m ∷ ls))

-- The arguments of `store_data_message`.
pub record StoreData : Type 0 where
  pub subgrove_id : Bytes
  pub key : Bytes
  pub owner_did : Bytes
  pub payload : DataField
  pub nonce : ℤ

module _ (sha256 : Bytes → Bytes) where
  unfoldable pub store_data_message : StoreData → Result Bytes
  unfolding data_bytes field unsigned decimal join_lines
  store_data_message a = do
    payload ← data_bytes a.payload
    subgrove ← field subgrove_label a.subgrove_id
    key ← field key_label a.key
    owner ← field owner_label a.owner_did
    nonce ← unsigned a.nonce u64_max
    ok (
        join_lines (
          store_data_kind
          ∷ subgrove
          ∷ key
          ∷ owner
          ∷ line data_hash_label (bytes_to_hex (sha256 payload))
          ∷ line nonce_label (decimal nonce)
          ∷ []))

-- The arguments of `store_file_manifest_message`.
pub record StoreFileManifest : Type 0 where
  pub subgrove_id : Bytes
  pub file_key : Bytes
  pub owner_did : Bytes
  pub filename : Bytes
  pub content_type : Bytes
  pub total_size : ℤ
  pub content_hash : ByteField
  pub chunk_count : ℤ
  pub chunk_size : ℤ
  pub chunk_merkle_root : ByteField
  pub nonce : ℤ
  pub encryption : Option (ℤ × ByteField)

unfoldable pub encryption_line : Option (ℤ × ByteField) → Result Bytes
unfolding unsigned hex_of decimal
encryption_line none = ok (line encryption_label none_text)
encryption_line (some (key_epoch, nonce)) = do
  epoch ← unsigned key_epoch u64_max
  shown ← hex_of nonce 24
  ok (line encryption_label (decimal epoch ++ (58 ∷ shown)))

unfoldable pub store_file_manifest_message : StoreFileManifest → Result Bytes
unfolding encryption_line field unsigned hex_of decimal join_lines
store_file_manifest_message a = do
  encryption ← encryption_line a.encryption
  subgrove ← field subgrove_label a.subgrove_id
  key ← field key_label a.file_key
  owner ← field owner_label a.owner_did
  filename ← field filename_label a.filename
  content_type ← field content_type_label a.content_type
  total_size ← unsigned a.total_size u64_max
  content_hash ← hex_of a.content_hash 32
  chunk_count ← unsigned a.chunk_count u32_max
  chunk_size ← unsigned a.chunk_size u32_max
  chunk_merkle_root ← hex_of a.chunk_merkle_root 32
  nonce ← unsigned a.nonce u64_max
  ok (
      join_lines (
        store_file_manifest_kind
        ∷ subgrove
        ∷ key
        ∷ owner
        ∷ filename
        ∷ content_type
        ∷ line total_size_label (decimal total_size)
        ∷ line content_hash_label content_hash
        ∷ line chunk_count_label (decimal chunk_count)
        ∷ line chunk_size_label (decimal chunk_size)
        ∷ line chunk_merkle_root_label chunk_merkle_root
        ∷ encryption
        ∷ line nonce_label (decimal nonce)
        ∷ []))

-- The arguments of `delete_file_manifest_message`.
pub record DeleteFileManifest : Type 0 where
  pub subgrove_id : Bytes
  pub file_key : Bytes
  pub owner_did : Bytes
  pub nonce : ℤ

unfoldable pub delete_file_manifest_message : DeleteFileManifest → Result Bytes
unfolding field unsigned decimal join_lines
delete_file_manifest_message a = do
  subgrove ← field subgrove_label a.subgrove_id
  key ← field key_label a.file_key
  owner ← field owner_label a.owner_did
  nonce ← unsigned a.nonce u64_max
  ok (
      join_lines (
        delete_file_manifest_kind ∷ subgrove ∷ key ∷ owner ∷ line nonce_label (decimal nonce) ∷ []))

-- The arguments of `unregister_storage_node_message`.
pub record UnregisterStorageNode : Type 0 where
  pub node_did : Bytes
  pub nonce : ℤ

unfoldable pub unregister_storage_node_message : UnregisterStorageNode → Result Bytes
unfolding field unsigned decimal join_lines
unregister_storage_node_message a = do
  node ← field node_label a.node_did
  nonce ← unsigned a.nonce u64_max
  ok (join_lines (unregister_storage_node_kind ∷ node ∷ line nonce_label (decimal nonce) ∷ []))
