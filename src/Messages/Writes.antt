-- ===== src/Messages/Writes.antt =====
-- The writes that the messages of src/willow/signed_messages.py stand for: what a transaction of each
-- kind writes, as the functions' documentation lists it.
use willow_sdk_python.Prelude.{ℕ, Option, none, some, List, Bytes}
use willow_sdk_python.Prelude.Int.{ℤ}
use willow_sdk_python.Prelude.Result.{Result, ok, ◌>>=◌}
use willow_sdk_python.Messages.{
  ByteField, data_bytes, unsigned, u32_max, u64_max, byte_values, StoreData, store_data_message,
  StoreFileManifest, store_file_manifest_message, DeleteFileManifest, delete_file_manifest_message,
  UnregisterStorageNode, unregister_storage_node_message,
}
use willow_sdk_python.Messages.Grants.{
  KeyGrant, key_grant, key_grants, GrantSubgroveKey, grant_subgrove_key_message, RotateSubgroveKey,
  rotate_subgrove_key_message,
}

pub data Kind : Type 0 where
  store_data store_file_manifest delete_file_manifest unregister_storage_node grant_subgrove_key
        rotate_subgrove_key :
      Kind

pub data StoreDataWrite : Type 0 where
  store_data_write : (subgrove_id key owner_did payload : Bytes) (nonce : ℕ) → StoreDataWrite

pub data FileWrite : Type 0 where
  file_write :
      (subgrove_id file_key owner_did filename content_type : Bytes) (total_size : ℕ)
      (content_hash : Bytes) (chunk_count chunk_size : ℕ) (chunk_merkle_root : Bytes)
      (encryption : Option (ℕ × Bytes)) (nonce : ℕ)
      → FileWrite

pub data FileDeletion : Type 0 where
  file_deletion : (subgrove_id file_key owner_did : Bytes) (nonce : ℕ) → FileDeletion

pub data NodeRemoval : Type 0 where
  node_removal : (node_did : Bytes) (nonce : ℕ) → NodeRemoval

pub data GrantWrite : Type 0 where
  grant_write : (subgrove_id sender_did : Bytes) (grant : KeyGrant) (nonce : ℕ) → GrantWrite

pub data Rotation : Type 0 where
  rotation :
      (subgrove_id sender_did : Bytes) (new_epoch : ℕ) (grants : List KeyGrant) (nonce : ℕ)
      → Rotation

abbrev pub Request : Kind → Type 0
Request store_data = StoreData
Request store_file_manifest = StoreFileManifest
Request delete_file_manifest = DeleteFileManifest
Request unregister_storage_node = UnregisterStorageNode
Request grant_subgrove_key = GrantSubgroveKey
Request rotate_subgrove_key = RotateSubgroveKey

abbrev pub Write : Kind → Type 0
Write store_data = StoreDataWrite
Write store_file_manifest = FileWrite
Write delete_file_manifest = FileDeletion
Write unregister_storage_node = NodeRemoval
Write grant_subgrove_key = GrantWrite
Write rotate_subgrove_key = Rotation

abbrev pub encryption_of : Option (ℤ × ByteField) → Result (Option (ℕ × Bytes))
encryption_of none = ok none
encryption_of (some (key_epoch, nonce)) = do
  epoch ← unsigned key_epoch u64_max
  bytes ← byte_values nonce
  ok (some (epoch, bytes))

-- What a request writes.
abbrev pub write_of : (k : Kind) → Request k → Result (Write k)
write_of store_data a = do
  payload ← data_bytes a.payload
  nonce ← unsigned a.nonce u64_max
  ok (store_data_write a.subgrove_id a.key a.owner_did payload nonce)
write_of store_file_manifest a = do
  encryption ← encryption_of a.encryption
  total_size ← unsigned a.total_size u64_max
  content_hash ← byte_values a.content_hash
  chunk_count ← unsigned a.chunk_count u32_max
  chunk_size ← unsigned a.chunk_size u32_max
  chunk_merkle_root ← byte_values a.chunk_merkle_root
  nonce ← unsigned a.nonce u64_max
  ok (
      file_write a.subgrove_id a.file_key a.owner_did a.filename a.content_type total_size
        content_hash chunk_count chunk_size chunk_merkle_root encryption nonce)
write_of delete_file_manifest a = do
  nonce ← unsigned a.nonce u64_max
  ok (file_deletion a.subgrove_id a.file_key a.owner_did nonce)
write_of unregister_storage_node a = do
  nonce ← unsigned a.nonce u64_max
  ok (node_removal a.node_did nonce)
write_of grant_subgrove_key a = do
  g ← key_grant a.grant
  nonce ← unsigned a.nonce u64_max
  ok (grant_write a.subgrove_id a.sender_did g nonce)
write_of rotate_subgrove_key a = do
  new_epoch ← unsigned a.new_epoch u32_max
  grants ← key_grants a.new_grants
  nonce ← unsigned a.nonce u64_max
  ok (rotation a.subgrove_id a.sender_did new_epoch grants nonce)

module _ (sha256 : Bytes → Bytes) where
  -- The message of a request of any kind.
  abbrev pub message : (k : Kind) → Request k → Result Bytes
  message store_data a = store_data_message sha256 a
  message store_file_manifest a = store_file_manifest_message a
  message delete_file_manifest a = delete_file_manifest_message a
  message unregister_storage_node a = unregister_storage_node_message a
  message grant_subgrove_key a = grant_subgrove_key_message a
  message rotate_subgrove_key a = rotate_subgrove_key_message a
