-- ===== src/Messages/Opened.antt =====
-- src/willow/signed_messages.py: a message that is given is the text of the lines of what is written.
pub mod Keys
use willow_sdk_python.Prelude.{
  ℕ, ◌<◌, ◌≡◌, ◌≢◌, refl, ◌⊎◌, inl, inr, ap, sym, ◌∙◌, arith, true, false, not, ◌&&◌, Option, none,
  some, List, [], ◌∷◌, ◌++◌, Bytes, IsByte, All, All-imp, append-All, length, Bool-cases, leb, ◌==◌,
  if◌then◌else◌, subst, append_assoc,
}
use willow_sdk_python.Prelude.Int.{ℤ}
use willow_sdk_python.Prelude.Result.{Result, ok, err, ◌>>=◌, ok-injective, >>=-eq-ok, >>=-ok}
use willow_sdk_python.Hash.{bytes_to_hex}
use willow_sdk_python.Messages.Labels.{
  subgrove_label, key_label, owner_label, data_hash_label, nonce_label, filename_label,
  content_type_label, total_size_label, content_hash_label, chunk_count_label, chunk_size_label,
  chunk_merkle_root_label, encryption_label, none_text, sender_label, grantee_label,
  grantee_key_label, key_epoch_label, ephemeral_key_label, encrypted_key_label, granted_by_label,
  granted_at_label, node_label, new_epoch_label, grants_label, store_data_kind,
  store_file_manifest_kind, delete_file_manifest_kind, unregister_storage_node_kind,
  grant_subgrove_key_kind, rotate_subgrove_key_kind,
}
use willow_sdk_python.Messages.{
  ByteField, line, field, unsigned, u32_max, u64_max, decimal, byte_values, hex_of, data_bytes,
  join_lines, encryption_line, StoreData, store_data_message, StoreFileManifest,
  store_file_manifest_message, DeleteFileManifest, delete_file_manifest_message,
  UnregisterStorageNode, unregister_storage_node_message,
}
use willow_sdk_python.Messages.Lines.{Plain, AllPlain, field-line}
use willow_sdk_python.Messages.ByteFields.{byte_values-IsByte, hex_of-bytes_to_hex}
use willow_sdk_python.Messages.Grants.{
  GivenGrant, KeyGrant, key_grant, key_grants, key_subgrove_rule, grant_rules, all_grant_rules,
  grant_lines, grants_lines, GrantSubgroveKey, grant_subgrove_key_message, RotateSubgroveKey,
  rotate_subgrove_key_message,
}
use willow_sdk_python.Messages.Writes.{
  Kind, store_data, store_file_manifest, delete_file_manifest, unregister_storage_node,
  grant_subgrove_key, rotate_subgrove_key, Request, Write, store_data_write, file_write,
  file_deletion, node_removal, grant_write, rotation, encryption_of, write_of,
}
use willow_sdk_python.Messages.Print.{
  kind_text, encryption_text, lines_of_grant, lines_of_grants, IsGrant, IsEncryption, IsWrite,
  lines_of,
}

-- The line of an encryption that is given.
encryption_line-line :
    (e : Option (ℤ × ByteField)) (l : Bytes)
    → encryption_line e ≡ ok l
    → (x : Option (ℕ × Bytes)) × (encryption_of e ≡ ok x)
      × (l ≡ line encryption_label (encryption_text x))
      × IsEncryption x
unfolding encryption_line
encryption_line-line none l e = (none, refl, sym (ok-injective e), tt)
encryption_line-line (some (key_epoch, nonce)) l e =
    let (epoch, r1, e1) = >>=-eq-ok (unsigned key_epoch u64_max) _ e in
    let (shown, r2, e2) = >>=-eq-ok (hex_of nonce 24) _ e1 in
    let (b, read, same, is) = hex_of-bytes_to_hex nonce 24 shown r2 in
    (
      some (epoch, b),
      (>>=-ok _ r1 (>>=-ok _ read refl)),
      sym (ok-injective e2)
          ∙ ap (λ (t : Bytes). line encryption_label (decimal epoch ++ (58 ∷ t))) same,
      is,
    )

module _ (sha256 : Bytes → Bytes) where
  -- What a message that is given says of its request.
  pub record Opened (k : Kind) (a : Request k) (m : Bytes) : Type 0 where
    pub write : Write k
    pub written : write_of k a ≡ ok write
    pub shown : m ≡ join_lines (kind_text k ∷ lines_of sha256 k write)
    pub is_write : IsWrite k write

  pub store_data_message-Opened :
      (a : StoreData) (m : Bytes) → store_data_message sha256 a ≡ ok m → Opened store_data a m
  unfolding store_data_message
  store_data_message-Opened a m e =
      let (p, r1, e1) = >>=-eq-ok (data_bytes a.payload) _ e in
      let (s, r2, e2) = >>=-eq-ok (field subgrove_label a.subgrove_id) _ e1 in
      let (k, r3, e3) = >>=-eq-ok (field key_label a.key) _ e2 in
      let (o, r4, e4) = >>=-eq-ok (field owner_label a.owner_did) _ e3 in
      let (n, r5, e5) = >>=-eq-ok (unsigned a.nonce u64_max) _ e4 in
      let (is, vs) = field-line subgrove_label a.subgrove_id s r2 in
      let (ik, vk) = field-line key_label a.key k r3 in
      let (io, vo) = field-line owner_label a.owner_did o r4 in
      record {
        write = store_data_write a.subgrove_id a.key a.owner_did p n;
        written = (>>=-ok _ r1 (>>=-ok _ r5 refl));
        shown = sym (ok-injective e5) ∙ λ i. join_lines (
            store_data_kind
            ∷ is i
            ∷ ik i
            ∷ io i
            ∷ line data_hash_label (bytes_to_hex (sha256 p))
            ∷ line nonce_label (decimal n)
            ∷ []);
        is_write = (vs, vk, vo);
      }

  pub delete_file_manifest_message-Opened :
      (a : DeleteFileManifest) (m : Bytes)
      → delete_file_manifest_message a ≡ ok m
      → Opened delete_file_manifest a m
  unfolding delete_file_manifest_message
  delete_file_manifest_message-Opened a m e =
      let (s, r2, e2) = >>=-eq-ok (field subgrove_label a.subgrove_id) _ e in
      let (k, r3, e3) = >>=-eq-ok (field key_label a.file_key) _ e2 in
      let (o, r4, e4) = >>=-eq-ok (field owner_label a.owner_did) _ e3 in
      let (n, r5, e5) = >>=-eq-ok (unsigned a.nonce u64_max) _ e4 in
      let (is, vs) = field-line subgrove_label a.subgrove_id s r2 in
      let (ik, vk) = field-line key_label a.file_key k r3 in
      let (io, vo) = field-line owner_label a.owner_did o r4 in
      record {
        write = file_deletion a.subgrove_id a.file_key a.owner_did n;
        written = >>=-ok _ r5 refl;
        shown = sym (ok-injective e5) ∙ λ i.
            join_lines
              (delete_file_manifest_kind ∷ is i ∷ ik i ∷ io i ∷ line nonce_label (decimal n) ∷ []);
        is_write = (vs, vk, vo);
      }

  pub unregister_storage_node_message-Opened :
      (a : UnregisterStorageNode) (m : Bytes)
      → unregister_storage_node_message a ≡ ok m
      → Opened unregister_storage_node a m
  unfolding unregister_storage_node_message
  unregister_storage_node_message-Opened a m e =
      let (d, r1, e1) = >>=-eq-ok (field node_label a.node_did) _ e in
      let (n, r2, e2) = >>=-eq-ok (unsigned a.nonce u64_max) _ e1 in
      let (is, v) = field-line node_label a.node_did d r1 in
      record {
        write = node_removal a.node_did n;
        written = >>=-ok _ r2 refl;
        shown = sym (ok-injective e2) ∙ λ i.
            join_lines (unregister_storage_node_kind ∷ is i ∷ line nonce_label (decimal n) ∷ []);
        is_write = v;
      }

  file_manifest_parts :
      (a : StoreFileManifest) (e s k o f c h r : Bytes) (t count size n : ℕ)
      → encryption_line a.encryption ≡ ok e
      → field subgrove_label a.subgrove_id ≡ ok s
      → field key_label a.file_key ≡ ok k
      → field owner_label a.owner_did ≡ ok o
      → field filename_label a.filename ≡ ok f
      → field content_type_label a.content_type ≡ ok c
      → unsigned a.total_size u64_max ≡ ok t
      → hex_of a.content_hash 32 ≡ ok h
      → unsigned a.chunk_count u32_max ≡ ok count
      → unsigned a.chunk_size u32_max ≡ ok size
      → hex_of a.chunk_merkle_root 32 ≡ ok r
      → unsigned a.nonce u64_max ≡ ok n
      → Opened store_file_manifest a (
          join_lines (
            store_file_manifest_kind
            ∷ s
            ∷ k
            ∷ o
            ∷ f
            ∷ c
            ∷ line total_size_label (decimal t)
            ∷ line content_hash_label h
            ∷ line chunk_count_label (decimal count)
            ∷ line chunk_size_label (decimal size)
            ∷ line chunk_merkle_root_label r
            ∷ e
            ∷ line nonce_label (decimal n)
            ∷ []))
  file_manifest_parts a e s k o f c h r t count size n r1 r2 r3 r4 r5 r6 r7 r8 r9 r10 r11 r12 =
      let (x, read, ie, ve) = encryption_line-line a.encryption e r1 in
      let (is, vs) = field-line subgrove_label a.subgrove_id s r2 in
      let (ik, vk) = field-line key_label a.file_key k r3 in
      let (io, vo) = field-line owner_label a.owner_did o r4 in
      let (if', vf) = field-line filename_label a.filename f r5 in
      let (ic, vc) = field-line content_type_label a.content_type c r6 in
      let (hash, hash_read, ih, vh) = hex_of-bytes_to_hex a.content_hash 32 h r8 in
      let (root, root_read, ir, vr) = hex_of-bytes_to_hex a.chunk_merkle_root 32 r r11 in
      record {
        write =
            file_write a.subgrove_id a.file_key a.owner_did a.filename a.content_type t hash count
              size root x n;
        written = >>=-ok _ read (
            >>=-ok _ r7 (
              >>=-ok _ hash_read
                (>>=-ok _ r9 (>>=-ok _ r10 (>>=-ok _ root_read (>>=-ok _ r12 refl))))));
        shown = λ i. join_lines (
            store_file_manifest_kind
            ∷ is i
            ∷ ik i
            ∷ io i
            ∷ if' i
            ∷ ic i
            ∷ line total_size_label (decimal t)
            ∷ line content_hash_label (ih i)
            ∷ line chunk_count_label (decimal count)
            ∷ line chunk_size_label (decimal size)
            ∷ line chunk_merkle_root_label (ir i)
            ∷ ie i
            ∷ line nonce_label (decimal n)
            ∷ []);
        is_write = (vs, vk, vo, vf, vc, vh, vr, ve);
      }

  pub store_file_manifest_message-Opened :
      (a : StoreFileManifest) (m : Bytes)
      → store_file_manifest_message a ≡ ok m
      → Opened store_file_manifest a m
  unfolding store_file_manifest_message
  store_file_manifest_message-Opened a m e0 =
      let (e, r1, e1) = >>=-eq-ok (encryption_line a.encryption) _ e0 in
      let (s, r2, e2) = >>=-eq-ok (field subgrove_label a.subgrove_id) _ e1 in
      let (k, r3, e3) = >>=-eq-ok (field key_label a.file_key) _ e2 in
      let (o, r4, e4) = >>=-eq-ok (field owner_label a.owner_did) _ e3 in
      let (f, r5, e5) = >>=-eq-ok (field filename_label a.filename) _ e4 in
      let (c, r6, e6) = >>=-eq-ok (field content_type_label a.content_type) _ e5 in
      let (t, r7, e7) = >>=-eq-ok (unsigned a.total_size u64_max) _ e6 in
      let (h, r8, e8) = >>=-eq-ok (hex_of a.content_hash 32) _ e7 in
      let (count, r9, e9) = >>=-eq-ok (unsigned a.chunk_count u32_max) _ e8 in
      let (size, r10, e10) = >>=-eq-ok (unsigned a.chunk_size u32_max) _ e9 in
      let (r, r11, e11) = >>=-eq-ok (hex_of a.chunk_merkle_root 32) _ e10 in
      let (n, r12, e12) = >>=-eq-ok (unsigned a.nonce u64_max) _ e11 in
      subst (Opened store_file_manifest a) (ok-injective e12) (
        file_manifest_parts a e s k o f c h r t count size n r1 r2 r3 r4 r5 r6 r7 r8 r9 r10 r11 r12)
