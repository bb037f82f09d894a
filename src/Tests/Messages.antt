-- ===== src/Tests/Messages.antt =====
-- src/willow/signed_messages.py on small requests, with a constant in place of SHA-256.
use willow_sdk_python.Prelude.{
  ℕ, ◌≡◌, refl, ◌⊎◌, arith, [], ◌∷◌, ◌++◌, Bytes, IsByte, All, replicate,
}
use willow_sdk_python.Prelude.Int.{pos}
use willow_sdk_python.Prelude.Result.{ok, err, line_break}
use willow_sdk_python.Hash.{bytes_to_hex}
use willow_sdk_python.Hash.Binding.{Collision}
use willow_sdk_python.Messages.Labels.{
  store_data_kind, subgrove_label, key_label, owner_label, data_hash_label, nonce_label,
  revoke_subgrove_key_kind,
}
use willow_sdk_python.Messages.{
  line, field, decimal, text, bytes, StoreData, store_data_message, join_lines, utf8,
}
use willow_sdk_python.Messages.Grants.{RevokeSubgroveKey, revoke_subgrove_key_message}
use willow_sdk_python.Messages.Writes.{store_data}
use willow_sdk_python.Messages.Distinct.{written, message_binds}
use willow_sdk_python.Messages.Revoke.{revoke_subgrove_key_message_binds}

abbrev zeros : Bytes → Bytes
zeros b = replicate 32 0

zeros_are_bytes : (x : Bytes) → All IsByte (zeros x)
zeros_are_bytes x = go 32
  where
    go : (n : ℕ) → All IsByte (replicate n 0)
    go ℕ.zero = tt
    go (ℕ.suc n) = (omega arith, go n)

decimal_1024 : decimal 1024 ≡ 49 ∷ 48 ∷ 50 ∷ 52 ∷ []
unfolding decimal
decimal_1024 = refl

-- The euro sign in UTF-8.
utf8_euro : utf8 (0x20ac ∷ []) ≡ ok (0xe2 ∷ 0x82 ∷ 0xac ∷ [])
unfolding utf8
utf8_euro = refl

field_break : field key_label (97 ∷ 10 ∷ []) ≡ err line_break
unfolding field
field_break = refl

-- One write, its data given as a text and as bytes.
abbrev as_text : StoreData
as_text = record {
  subgrove_id = 115 ∷ [];
  key = 107 ∷ [];
  owner_did = 111 ∷ [];
  payload = text (97 ∷ []);
  nonce = pos 12;
}

abbrev as_bytes : StoreData
as_bytes = record {
  subgrove_id = 115 ∷ [];
  key = 107 ∷ [];
  owner_did = 111 ∷ [];
  payload = bytes (97 ∷ []);
  nonce = pos 12;
}

abbrev stored_text : Bytes
stored_text = join_lines (
    store_data_kind
    ∷ line subgrove_label (115 ∷ [])
    ∷ line key_label (107 ∷ [])
    ∷ line owner_label (111 ∷ [])
    ∷ line data_hash_label (bytes_to_hex (zeros (97 ∷ [])))
    ∷ line nonce_label (49 ∷ 50 ∷ [])
    ∷ [])

as_text_message : store_data_message zeros as_text ≡ ok stored_text
unfolding store_data_message
as_text_message = refl

as_bytes_message : store_data_message zeros as_bytes ≡ ok stored_text
unfolding store_data_message
as_bytes_message = refl

message_binds_example :
    (written zeros store_data as_text ≡ written zeros store_data as_bytes) ⊎ Collision zeros
message_binds_example =
    message_binds zeros zeros_are_bytes store_data store_data as_text as_bytes stored_text
      as_text_message as_bytes_message

-- "did:willow:a"
abbrev did_a : Bytes
did_a = 100 ∷ 105 ∷ 100 ∷ 58 ∷ 119 ∷ 105 ∷ 108 ∷ 108 ∷ 111 ∷ 119 ∷ 58 ∷ 97 ∷ []

abbrev revocation : RevokeSubgroveKey
revocation = record {
  subgrove_id = 115 ∷ [];
  revokee_did = did_a;
  sender_did = did_a;
  nonce = pos 7;
}

abbrev revoked_text : Bytes
revoked_text =
    revoke_subgrove_key_kind ++ (58 ∷ 115 ∷ 58 ∷ (did_a ++ (58 ∷ (did_a ++ (58 ∷ 55 ∷ [])))))

revocation_message : revoke_subgrove_key_message revocation ≡ ok revoked_text
unfolding revoke_subgrove_key_message
revocation_message = refl

revoke_subgrove_key_message_binds_example :
    (revocation.subgrove_id ≡ revocation.subgrove_id)
    × (revocation.revokee_did ≡ revocation.revokee_did)
    × (revocation.sender_did ≡ revocation.sender_did)
    × (revocation.nonce ≡ revocation.nonce)
revoke_subgrove_key_message_binds_example =
    revoke_subgrove_key_message_binds revocation revocation revoked_text revocation_message
      revocation_message
