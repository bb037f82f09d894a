-- ===== src/Messages/Print.antt =====
-- The lines that the documentation of src/willow/signed_messages.py lists for a write of each kind, and
-- that they determine the write.
use willow_sdk_python.Prelude.{
  ℕ, Option, none, some, List, [], ◌∷◌, ◌++◌, Bytes, IsByte, All, length,
}
use willow_sdk_python.Hash.{bytes_to_hex}
use willow_sdk_python.Messages.Labels.{
  subgrove_label, key_label, owner_label, data_hash_label, nonce_label, filename_label,
  content_type_label, total_size_label, content_hash_label, chunk_count_label, chunk_size_label,
  chunk_merkle_root_label, encryption_label, none_text, sender_label, grantee_label,
  grantee_key_label, key_epoch_label, ephemeral_key_label, encrypted_key_label, granted_by_label,
  granted_at_label, node_label, new_epoch_label, grants_label, store_data_kind,
  store_file_manifest_kind, delete_file_manifest_kind, unregister_storage_node_kind,
  grant_subgrove_key_kind, rotate_subgrove_key_kind,
}
use willow_sdk_python.Messages.{line, decimal}
use willow_sdk_python.Messages.Lines.{Plain}
use willow_sdk_python.Messages.Grants.{KeyGrant}
use willow_sdk_python.Messages.Writes.{
  Kind, store_data, store_file_manifest, delete_file_manifest, unregister_storage_node,
  grant_subgrove_key, rotate_subgrove_key, Write, store_data_write, file_write, file_deletion,
  node_removal, grant_write, rotation,
}

abbrev pub kind_text : Kind → Bytes
kind_text store_data = store_data_kind
kind_text store_file_manifest = store_file_manifest_kind
kind_text delete_file_manifest = delete_file_manifest_kind
kind_text unregister_storage_node = unregister_storage_node_kind
kind_text grant_subgrove_key = grant_subgrove_key_kind
kind_text rotate_subgrove_key = rotate_subgrove_key_kind

abbrev pub encryption_text : Option (ℕ × Bytes) → Bytes
encryption_text none = none_text
encryption_text (some (epoch, nonce)) = decimal epoch ++ (58 ∷ bytes_to_hex nonce)

abbrev pub lines_of_grant : KeyGrant → List Bytes
lines_of_grant g =
    line grantee_label g.grantee_did
    ∷ line grantee_key_label g.grantee_public_key_id
    ∷ line key_epoch_label (decimal g.key_epoch)
    ∷ line ephemeral_key_label (bytes_to_hex g.ephemeral_public_key)
    ∷ line encrypted_key_label (bytes_to_hex g.encrypted_key)
    ∷ line granted_by_label g.granted_by
    ∷ line granted_at_label (decimal g.granted_at)
    ∷ []

abbrev pub lines_of_grants : List KeyGrant → List Bytes
lines_of_grants [] = []
lines_of_grants (g ∷ gs) = lines_of_grant g ++ lines_of_grants gs

-- Texts with no line break, and bytes.
abbrev pub IsGrant : KeyGrant → Type 0
IsGrant g =
    Plain g.grantee_did
    × Plain g.grantee_public_key_id
    × Plain g.granted_by
    × All IsByte g.ephemeral_public_key
    × All IsByte g.encrypted_key

abbrev pub IsEncryption : Option (ℕ × Bytes) → Type 0
IsEncryption none = Unit {0}
IsEncryption (some (epoch, nonce)) = All IsByte nonce

abbrev pub IsWrite : (k : Kind) → Write k → Type 0
IsWrite store_data (store_data_write s k o p n) = Plain s × Plain k × Plain o
IsWrite store_file_manifest (file_write s k o f c t h cc' cs r e n) =
    Plain s × Plain k × Plain o × Plain f × Plain c × All IsByte h × All IsByte r × IsEncryption e
IsWrite delete_file_manifest (file_deletion s k o n) = Plain s × Plain k × Plain o
IsWrite unregister_storage_node (node_removal d n) = Plain d
IsWrite grant_subgrove_key (grant_write s d g n) = Plain s × Plain d × IsGrant g
IsWrite rotate_subgrove_key (rotation s d e gs n) = Plain s × Plain d × All IsGrant gs

module _ (sha256 : Bytes → Bytes) where
  abbrev pub lines_of : (k : Kind) → Write k → List Bytes
  lines_of store_data (store_data_write s k o p n) =
      line subgrove_label s
      ∷ line key_label k
      ∷ line owner_label o
      ∷ line data_hash_label (bytes_to_hex (sha256 p))
      ∷ line nonce_label (decimal n)
      ∷ []
  lines_of store_file_manifest (file_write s k o f c t h count size r e n) =
      line subgrove_label s
      ∷ line key_label k
      ∷ line owner_label o
      ∷ line filename_label f
      ∷ line content_type_label c
      ∷ line total_size_label (decimal t)
      ∷ line content_hash_label (bytes_to_hex h)
      ∷ line chunk_count_label (decimal count)
      ∷ line chunk_size_label (decimal size)
      ∷ line chunk_merkle_root_label (bytes_to_hex r)
      ∷ line encryption_label (encryption_text e)
      ∷ line nonce_label (decimal n)
      ∷ []
  lines_of delete_file_manifest (file_deletion s k o n) =
      line subgrove_label s
      ∷ line key_label k
      ∷ line owner_label o
      ∷ line nonce_label (decimal n)
      ∷ []
  lines_of unregister_storage_node (node_removal d n) =
      line node_label d ∷ line nonce_label (decimal n) ∷ []
  lines_of grant_subgrove_key (grant_write s d g n) =
      line subgrove_label s
      ∷ line sender_label d
      ∷ (lines_of_grant g ++ (line nonce_label (decimal n) ∷ []))
  lines_of rotate_subgrove_key (rotation s d e gs n) =
      line subgrove_label s
      ∷ line sender_label d
      ∷ line new_epoch_label (decimal e)
      ∷ line grants_label (decimal (length gs))
      ∷ (lines_of_grants gs ++ (line nonce_label (decimal n) ∷ []))
