-- ===== src/Messages/Grants.antt =====
-- src/willow/signed_messages.py: the messages of key grants, rotations and revocations, with the rules
-- that the node has for them.
use willow_sdk_python.Prelude.{
  ℕ, Bool, true, not, ◌&&◌, ◌||◌, List, [], ◌∷◌, ◌++◌, Bytes, length, ltb, leb, ◌==◌, bytes_eq,
  take, drop, if◌then◌else◌,
}
use willow_sdk_python.Prelude.Int.{ℤ}
use willow_sdk_python.Prelude.Result.{
  Result, ok, err, ◌>>=◌, ◌>>◌, bad_did, bad_subgrove, no_sender, bad_grant,
}
use willow_sdk_python.Hash.{bytes_to_hex}
use willow_sdk_python.Messages.Labels.{
  did_prefix, grantee_label, grantee_key_label, key_epoch_label, ephemeral_key_label,
  encrypted_key_label, granted_by_label, granted_at_label, subgrove_label, sender_label,
  nonce_label, grant_subgrove_key_kind, rotate_subgrove_key_kind, revoke_subgrove_key_kind,
  new_epoch_label, grants_label,
}
use willow_sdk_python.Messages.{
  ByteField, has_code, line, field, unsigned, u32_max, u64_max, decimal, byte_values, join_lines,
}

-- A grant's fields, as the caller gives them.
pub record GivenGrant : Type 0 where
  pub grantee_did : Bytes
  pub key_epoch : ℤ
  pub grantee_public_key_id : Bytes
  pub ephemeral_public_key : ByteField
  pub encrypted_key : ByteField
  pub granted_by : Bytes
  pub granted_at : ℤ

-- The grant in the transaction.
pub record KeyGrant : Type 0 where
  pub grantee_did : Bytes
  pub key_epoch : ℕ
  pub grantee_public_key_id : Bytes
  pub ephemeral_public_key : Bytes
  pub encrypted_key : Bytes
  pub granted_by : Bytes
  pub granted_at : ℕ

-- `_key_grant`
unfoldable pub key_grant : GivenGrant → Result KeyGrant
unfolding unsigned byte_values
key_grant g = do
  key_epoch ← unsigned g.key_epoch u32_max
  ephemeral ← byte_values g.ephemeral_public_key
  encrypted ← byte_values g.encrypted_key
  granted_at ← unsigned g.granted_at u64_max
  ok (record {
    grantee_did = g.grantee_did;
    key_epoch = key_epoch;
    grantee_public_key_id = g.grantee_public_key_id;
    ephemeral_public_key = ephemeral;
    encrypted_key = encrypted;
    granted_by = g.granted_by;
    granted_at = granted_at;
  })

-- `[A-Za-z0-9_-]`
abbrev pub is_did_char : ℕ → Bool
is_did_char c =
    (leb 65 c && leb c 90)
    || (leb 97 c && leb c 122)
    || (leb 48 c && leb c 57)
    || c == 95
    || c == 45

unfoldable pub all_did_chars : Bytes → Bool
all_did_chars [] = true
all_did_chars (c ∷ text) = is_did_char c && all_did_chars text

-- `_DID.fullmatch(value)`
unfoldable pub is_did : Bytes → Bool
unfolding all_did_chars
is_did value =
    bytes_eq (take 11 value) did_prefix && (ltb 11 (length value) && all_did_chars (drop 11 value))

-- `_did_rule`
unfoldable pub did_rule : Bytes → Result (Unit {0})
unfolding is_did
did_rule value = if is_did value && leb (length value) 128 then ok tt else err bad_did

-- `_key_subgrove_rule`
unfoldable pub key_subgrove_rule : Bytes → Result (Unit {0})
unfolding has_code
key_subgrove_rule subgrove_id =
    if length subgrove_id == 0
    then err bad_subgrove
    else if has_code 58 subgrove_id
    then err bad_subgrove
    else ok tt

-- `_grant_rules`
unfoldable pub grant_rules : KeyGrant → Result (Unit {0})
unfolding did_rule
grant_rules g = do
  did_rule g.grantee_did
  if not (length g.ephemeral_public_key == 32)
      then err bad_grant
      else if leb 1 (length g.encrypted_key) && leb (length g.encrypted_key) 128
      then ok tt
      else err bad_grant

-- `_grant_lines`
unfoldable pub grant_lines : KeyGrant → Result (List Bytes)
unfolding field decimal bytes_to_hex
grant_lines g = do
  grantee ← field grantee_label g.grantee_did
  grantee_key ← field grantee_key_label g.grantee_public_key_id
  granted_by ← field granted_by_label g.granted_by
  ok (
      grantee
      ∷ grantee_key
      ∷ line key_epoch_label (decimal g.key_epoch)
      ∷ line ephemeral_key_label (bytes_to_hex g.ephemeral_public_key)
      ∷ line encrypted_key_label (bytes_to_hex g.encrypted_key)
      ∷ granted_by
      ∷ line granted_at_label (decimal g.granted_at)
      ∷ [])

-- The arguments of `grant_subgrove_key_message`.
pub record GrantSubgroveKey : Type 0 where
  pub subgrove_id : Bytes
  pub sender_did : Bytes
  pub grant : GivenGrant
  pub nonce : ℤ

unfoldable pub grant_subgrove_key_message : GrantSubgroveKey → Result Bytes
unfolding key_grant field grant_lines unsigned decimal key_subgrove_rule grant_rules join_lines
grant_subgrove_key_message a = do
  g ← key_grant a.grant
  subgrove ← field subgrove_label a.subgrove_id
  sender ← field sender_label a.sender_did
  lines ← grant_lines g
  nonce ← unsigned a.nonce u64_max
  key_subgrove_rule a.subgrove_id
  if length a.sender_did == 0 then err no_sender else do
    grant_rules g
    ok (
        join_lines (
          grant_subgrove_key_kind
          ∷ subgrove
          ∷ sender
          ∷ (lines ++ (line nonce_label (decimal nonce) ∷ []))))

-- The loops of `rotate_subgrove_key_message` over its grants.
unfoldable pub key_grants : List GivenGrant → Result (List KeyGrant)
unfolding key_grant
key_grants [] = ok []
key_grants (g ∷ gs) = do first ← key_grant g; later ← key_grants gs; ok (first ∷ later)

unfoldable pub grants_lines : List KeyGrant → Result (List Bytes)
unfolding grant_lines
grants_lines [] = ok []
grants_lines (g ∷ gs) = do first ← grant_lines g; later ← grants_lines gs; ok (first ++ later)

unfoldable pub all_grant_rules : List KeyGrant → Result (Unit {0})
unfolding grant_rules
all_grant_rules [] = ok tt
all_grant_rules (g ∷ gs) = do grant_rules g; all_grant_rules gs

-- The arguments of `rotate_subgrove_key_message`.
pub record RotateSubgroveKey : Type 0 where
  pub subgrove_id : Bytes
  pub sender_did : Bytes
  pub new_epoch : ℤ
  pub new_grants : List GivenGrant
  pub nonce : ℤ

unfoldable pub rotate_subgrove_key_message : RotateSubgroveKey → Result Bytes
unfolding field unsigned key_grants grants_lines key_subgrove_rule all_grant_rules decimal
    join_lines
rotate_subgrove_key_message a = do
  subgrove ← field subgrove_label a.subgrove_id
  sender ← field sender_label a.sender_did
  new_epoch ← unsigned a.new_epoch u32_max
  grants ← key_grants a.new_grants
  lines ← grants_lines grants
  nonce ← unsigned a.nonce u64_max
  key_subgrove_rule a.subgrove_id
  if not (leb 1 (length grants) && leb (length grants) 1000) then err bad_grant else do
    all_grant_rules grants
    ok (
        join_lines (
          rotate_subgrove_key_kind
          ∷ subgrove
          ∷ sender
          ∷ line new_epoch_label (decimal new_epoch)
          ∷ line grants_label (decimal (length a.new_grants))
          ∷ (lines ++ (line nonce_label (decimal nonce) ∷ []))))

-- The arguments of `revoke_subgrove_key_message`.
pub record RevokeSubgroveKey : Type 0 where
  pub subgrove_id : Bytes
  pub revokee_did : Bytes
  pub sender_did : Bytes
  pub nonce : ℤ

unfoldable pub revoke_subgrove_key_message : RevokeSubgroveKey → Result Bytes
unfolding unsigned decimal key_subgrove_rule did_rule
revoke_subgrove_key_message a = do
  nonce ← unsigned a.nonce u64_max
  key_subgrove_rule a.subgrove_id
  did_rule a.revokee_did
  did_rule a.sender_did
  ok (
      revoke_subgrove_key_kind
      ++ (58
          ∷ (a.subgrove_id
              ++ (58 ∷ (a.revokee_did ++ (58 ∷ (a.sender_did ++ (58 ∷ decimal nonce))))))))
