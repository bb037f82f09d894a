-- ===== src/Completeness.antt =====
-- src/willow/completeness.py: the commitment over the matched logs of a block, and its check.
-- keccak-256 (package eth_hash) is a parameter.
pub mod Encoding
pub mod Binding
pub mod Complete
use willow_sdk_python.Prelude.{
  ℕ, zero, suc, ◌+◌, ◌*◌, ◌^◌, ◌<◌, Bool, true, false, not, Option, none, some, List, [], ◌∷◌, ◌++◌,
  map, Bytes, length, ltb, leb, ◌==◌, bytes_eq, if◌then◌else◌,
}
use willow_sdk_python.Prelude.Words.{to_big}
use willow_sdk_python.Prelude.Result.{Result, ok, err, ◌>>=◌, bad_hex, wrong_length, too_large}
use willow_sdk_python.Hash.{from_hex}

-- b"WILLOW_CRYPTO_EVENTS_V1"
abbrev pub domain_tag : Bytes
domain_tag =
    87 ∷ 73 ∷ 76 ∷ 76 ∷ 79 ∷ 87 ∷ 95 ∷ 67 ∷ 82 ∷ 89 ∷ 80 ∷ 84 ∷ 79 ∷ 95 ∷ 69 ∷ 86 ∷ 69 ∷ 78 ∷ 84
    ∷ 83 ∷ 95 ∷ 86 ∷ 49 ∷ []

-- A value given as hex text, by its character codes, or as bytes.
pub data HexOrBytes : Type 0 where
  hex : Bytes → HexOrBytes
  raw : Bytes → HexOrBytes

-- `value[2:] if value.startswith("0x") else value`
unfoldable pub strip_0x : Bytes → Bytes
strip_0x [] = []
strip_0x (c ∷ []) = c ∷ []
strip_0x (c ∷ d ∷ text) =
    if c == b'0' then (if d == b'x' then text else c ∷ d ∷ text) else c ∷ d ∷ text

-- The length check of `_to_bytes`.
unfoldable pub of_length : Option ℕ → Bytes → Result Bytes
of_length none out = ok out
of_length (some n) out = if not (length out == n) then err wrong_length else ok out

unfoldable pub to_bytes : HexOrBytes → (expected : Option ℕ) → Result Bytes
unfolding strip_0x of_length from_hex
to_bytes (hex text) expected = do out ← from_hex none (strip_0x text); of_length expected out
to_bytes (raw out) expected = of_length expected out

pub record Log : Type 0 where
  pub address : HexOrBytes
  pub topics : List HexOrBytes
  pub payload : HexOrBytes

-- `[_to_bytes(t, length=32) for t in topics]`
unfoldable pub topics_bytes : List HexOrBytes → Result (List Bytes)
unfolding to_bytes
topics_bytes [] = ok []
topics_bytes (t ∷ ts) = do topic ← to_bytes t (some 32); later ← topics_bytes ts; ok (topic ∷ later)

unfoldable pub concat : List Bytes → Bytes
concat [] = []
concat (b ∷ bs) = b ++ concat bs

-- `n.to_bytes(width, "big")`, which raises where `n` does not fit.
unfoldable pub to_bytes_big : (width : ℕ) → ℕ → Result Bytes
unfolding to_big
to_bytes_big width n = if ltb n (256 ^ width) then ok (to_big width n) else err too_large

unfoldable pub canonical_bytes : Log → Result Bytes
unfolding to_bytes topics_bytes concat to_bytes_big
canonical_bytes log = do
  address ← to_bytes log.address (some 20)
  topics ← topics_bytes log.topics
  payload ← to_bytes log.payload none
  topic_count ← to_bytes_big 4 (length topics)
  payload_length ← to_bytes_big 4 (length payload)
  ok (address ++ (topic_count ++ (concat topics ++ (payload_length ++ payload))))

-- The loop over the logs.
unfoldable pub logs_bytes : List Log → Result Bytes
unfolding canonical_bytes
logs_bytes [] = ok []
logs_bytes (log ∷ logs) = do
  first ← canonical_bytes log
  later ← logs_bytes logs
  ok (first ++ later)

-- What the commitment is the hash of.
unfoldable pub preimage : ℕ → List Log → Result Bytes
unfolding logs_bytes to_bytes_big
preimage block_number logs = if leb (2 ^ 64) block_number then err too_large else do
  block ← to_bytes_big 8 block_number
  count ← to_bytes_big 8 (length logs)
  events ← logs_bytes logs
  ok (domain_tag ++ (block ++ (count ++ events)))

module _ (keccak : Bytes → Bytes) where
  unfoldable pub canonical_event_set_hash : ℕ → List Log → Result Bytes
  unfolding preimage
  canonical_event_set_hash block_number logs = do
    buffer ← preimage block_number logs
    ok (keccak buffer)

  unfoldable pub verify_served_events : HexOrBytes → ℕ → List Log → Result Bool
  unfolding canonical_event_set_hash to_bytes
  verify_served_events commitment block_number logs = do
    anchor ← to_bytes commitment (some 32)
    computed ← canonical_event_set_hash block_number logs
    ok (bytes_eq computed anchor)
