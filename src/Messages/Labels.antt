-- ===== src/Messages/Labels.antt =====
-- src/willow/signed_messages.py: the kinds and the labels of the lines, by their character codes.
use willow_sdk_python.Prelude.{[], ◌∷◌, Bytes}

-- "StoreData"
abbrev pub store_data_kind : Bytes
store_data_kind = 83 ∷ 116 ∷ 111 ∷ 114 ∷ 101 ∷ 68 ∷ 97 ∷ 116 ∷ 97 ∷ []

-- "StoreFileManifest"
abbrev pub store_file_manifest_kind : Bytes
store_file_manifest_kind =
    83 ∷ 116 ∷ 111 ∷ 114 ∷ 101 ∷ 70 ∷ 105 ∷ 108 ∷ 101 ∷ 77 ∷ 97 ∷ 110 ∷ 105 ∷ 102 ∷ 101 ∷ 115 ∷ 116
    ∷ []

-- "DeleteFileManifest"
abbrev pub delete_file_manifest_kind : Bytes
delete_file_manifest_kind =
    68 ∷ 101 ∷ 108 ∷ 101 ∷ 116 ∷ 101 ∷ 70 ∷ 105 ∷ 108 ∷ 101 ∷ 77 ∷ 97 ∷ 110 ∷ 105 ∷ 102 ∷ 101 ∷ 115
    ∷ 116 ∷ []

-- "GrantSubgroveKey"
abbrev pub grant_subgrove_key_kind : Bytes
grant_subgrove_key_kind =
    71 ∷ 114 ∷ 97 ∷ 110 ∷ 116 ∷ 83 ∷ 117 ∷ 98 ∷ 103 ∷ 114 ∷ 111 ∷ 118 ∷ 101 ∷ 75 ∷ 101 ∷ 121 ∷ []

-- "UnregisterStorageNode"
abbrev pub unregister_storage_node_kind : Bytes
unregister_storage_node_kind =
    85 ∷ 110 ∷ 114 ∷ 101 ∷ 103 ∷ 105 ∷ 115 ∷ 116 ∷ 101 ∷ 114 ∷ 83 ∷ 116 ∷ 111 ∷ 114 ∷ 97 ∷ 103 ∷ 101
    ∷ 78 ∷ 111 ∷ 100 ∷ 101 ∷ []

-- "Subgrove"
abbrev pub subgrove_label : Bytes
subgrove_label = 83 ∷ 117 ∷ 98 ∷ 103 ∷ 114 ∷ 111 ∷ 118 ∷ 101 ∷ []

-- "Key"
abbrev pub key_label : Bytes
key_label = 75 ∷ 101 ∷ 121 ∷ []

-- "Owner"
abbrev pub owner_label : Bytes
owner_label = 79 ∷ 119 ∷ 110 ∷ 101 ∷ 114 ∷ []

-- "DataHash"
abbrev pub data_hash_label : Bytes
data_hash_label = 68 ∷ 97 ∷ 116 ∷ 97 ∷ 72 ∷ 97 ∷ 115 ∷ 104 ∷ []

-- "Nonce"
abbrev pub nonce_label : Bytes
nonce_label = 78 ∷ 111 ∷ 110 ∷ 99 ∷ 101 ∷ []

-- "Filename"
abbrev pub filename_label : Bytes
filename_label = 70 ∷ 105 ∷ 108 ∷ 101 ∷ 110 ∷ 97 ∷ 109 ∷ 101 ∷ []

-- "ContentType"
abbrev pub content_type_label : Bytes
content_type_label = 67 ∷ 111 ∷ 110 ∷ 116 ∷ 101 ∷ 110 ∷ 116 ∷ 84 ∷ 121 ∷ 112 ∷ 101 ∷ []

-- "TotalSize"
abbrev pub total_size_label : Bytes
total_size_label = 84 ∷ 111 ∷ 116 ∷ 97 ∷ 108 ∷ 83 ∷ 105 ∷ 122 ∷ 101 ∷ []

-- "ContentHash"
abbrev pub content_hash_label : Bytes
content_hash_label = 67 ∷ 111 ∷ 110 ∷ 116 ∷ 101 ∷ 110 ∷ 116 ∷ 72 ∷ 97 ∷ 115 ∷ 104 ∷ []

-- "ChunkCount"
abbrev pub chunk_count_label : Bytes
chunk_count_label = 67 ∷ 104 ∷ 117 ∷ 110 ∷ 107 ∷ 67 ∷ 111 ∷ 117 ∷ 110 ∷ 116 ∷ []

-- "ChunkSize"
abbrev pub chunk_size_label : Bytes
chunk_size_label = 67 ∷ 104 ∷ 117 ∷ 110 ∷ 107 ∷ 83 ∷ 105 ∷ 122 ∷ 101 ∷ []

-- "ChunkMerkleRoot"
abbrev pub chunk_merkle_root_label : Bytes
chunk_merkle_root_label =
    67 ∷ 104 ∷ 117 ∷ 110 ∷ 107 ∷ 77 ∷ 101 ∷ 114 ∷ 107 ∷ 108 ∷ 101 ∷ 82 ∷ 111 ∷ 111 ∷ 116 ∷ []

-- "Encryption"
abbrev pub encryption_label : Bytes
encryption_label = 69 ∷ 110 ∷ 99 ∷ 114 ∷ 121 ∷ 112 ∷ 116 ∷ 105 ∷ 111 ∷ 110 ∷ []

-- "Sender"
abbrev pub sender_label : Bytes
sender_label = 83 ∷ 101 ∷ 110 ∷ 100 ∷ 101 ∷ 114 ∷ []

-- "Grantee"
abbrev pub grantee_label : Bytes
grantee_label = 71 ∷ 114 ∷ 97 ∷ 110 ∷ 116 ∷ 101 ∷ 101 ∷ []

-- "GranteeKey"
abbrev pub grantee_key_label : Bytes
grantee_key_label = 71 ∷ 114 ∷ 97 ∷ 110 ∷ 116 ∷ 101 ∷ 101 ∷ 75 ∷ 101 ∷ 121 ∷ []

-- "KeyEpoch"
abbrev pub key_epoch_label : Bytes
key_epoch_label = 75 ∷ 101 ∷ 121 ∷ 69 ∷ 112 ∷ 111 ∷ 99 ∷ 104 ∷ []

-- "EphemeralKey"
abbrev pub ephemeral_key_label : Bytes
ephemeral_key_label = 69 ∷ 112 ∷ 104 ∷ 101 ∷ 109 ∷ 101 ∷ 114 ∷ 97 ∷ 108 ∷ 75 ∷ 101 ∷ 121 ∷ []

-- "EncryptedKey"
abbrev pub encrypted_key_label : Bytes
encrypted_key_label = 69 ∷ 110 ∷ 99 ∷ 114 ∷ 121 ∷ 112 ∷ 116 ∷ 101 ∷ 100 ∷ 75 ∷ 101 ∷ 121 ∷ []

-- "GrantedBy"
abbrev pub granted_by_label : Bytes
granted_by_label = 71 ∷ 114 ∷ 97 ∷ 110 ∷ 116 ∷ 101 ∷ 100 ∷ 66 ∷ 121 ∷ []

-- "GrantedAt"
abbrev pub granted_at_label : Bytes
granted_at_label = 71 ∷ 114 ∷ 97 ∷ 110 ∷ 116 ∷ 101 ∷ 100 ∷ 65 ∷ 116 ∷ []

-- "Node"
abbrev pub node_label : Bytes
node_label = 78 ∷ 111 ∷ 100 ∷ 101 ∷ []

-- "none"
abbrev pub none_text : Bytes
none_text = 110 ∷ 111 ∷ 110 ∷ 101 ∷ []

-- "did:willow:"
abbrev pub did_prefix : Bytes
did_prefix = 100 ∷ 105 ∷ 100 ∷ 58 ∷ 119 ∷ 105 ∷ 108 ∷ 108 ∷ 111 ∷ 119 ∷ 58 ∷ []

-- "RotateSubgroveKey"
abbrev pub rotate_subgrove_key_kind : Bytes
rotate_subgrove_key_kind =
    82 ∷ 111 ∷ 116 ∷ 97 ∷ 116 ∷ 101 ∷ 83 ∷ 117 ∷ 98 ∷ 103 ∷ 114 ∷ 111 ∷ 118 ∷ 101 ∷ 75 ∷ 101 ∷ 121
    ∷ []

-- "RevokeSubgroveKey"
abbrev pub revoke_subgrove_key_kind : Bytes
revoke_subgrove_key_kind =
    82 ∷ 101 ∷ 118 ∷ 111 ∷ 107 ∷ 101 ∷ 83 ∷ 117 ∷ 98 ∷ 103 ∷ 114 ∷ 111 ∷ 118 ∷ 101 ∷ 75 ∷ 101 ∷ 121
    ∷ []

-- "NewEpoch"
abbrev pub new_epoch_label : Bytes
new_epoch_label = 78 ∷ 101 ∷ 119 ∷ 69 ∷ 112 ∷ 111 ∷ 99 ∷ 104 ∷ []

-- "Grants"
abbrev pub grants_label : Bytes
grants_label = 71 ∷ 114 ∷ 97 ∷ 110 ∷ 116 ∷ 115 ∷ []
