-- ===== src/Messages/Plain.antt =====
-- src/willow/signed_messages.py: the lines of a write hold no line break.
use willow_sdk_python.Prelude.{
  ℕ, ◌≡◌, refl, inl, arith, false, Option, none, some, List, [], ◌∷◌, Bytes, All, append-All,
  length,
}
use willow_sdk_python.Hash.{bytes_to_hex}
use willow_sdk_python.Messages.Labels.{
  subgrove_label, key_label, owner_label, data_hash_label, nonce_label, filename_label,
  content_type_label, total_size_label, content_hash_label, chunk_count_label, chunk_size_label,
  chunk_merkle_root_label, encryption_label, none_text, sender_label, grantee_label,
  grantee_key_label, key_epoch_label, ephemeral_key_label, encrypted_key_label, granted_by_label,
  granted_at_label, node_label, new_epoch_label, grants_label, store_data_kind,
  store_file_manifest_kind, delete_file_manifest_kind, unregister_storage_node_kind,
  grant_subgrove_key_kind, rotate_subgrove_key_kind,
}
use willow_sdk_python.Messages.{has_code, line, decimal}
use willow_sdk_python.Messages.Decimal.{decimal-IsDigit}
use willow_sdk_python.Messages.Lines.{Plain, AllPlain, line-Plain, has_code-Without}
use willow_sdk_python.Messages.ByteFields.{bytes_to_hex-Without}
use willow_sdk_python.Messages.Grants.{KeyGrant}
use willow_sdk_python.Messages.Writes.{
  Kind, store_data, store_file_manifest, delete_file_manifest, unregister_storage_node,
  grant_subgrove_key, rotate_subgrove_key, Write, store_data_write, file_write, file_deletion,
  node_removal, grant_write, rotation,
}
use willow_sdk_python.Messages.Print.{
  kind_text, encryption_text, lines_of_grant, lines_of_grants, IsGrant, IsWrite, lines_of,
}
use willow_sdk_python.Messages.Binding.{digits-Without}

-- A line is plain if its label and value are; the label is tested.
labelled_line : (label v : Bytes) → has_code 10 label ≡ false → Plain v → Plain (line label v)
labelled_line label v e = line-Plain label v (has_code-Without 10 label e)

number_line : (label : Bytes) (n : ℕ) → has_code 10 label ≡ false → Plain (line label (decimal n))
number_line label n e =
    labelled_line label (decimal n) e (digits-Without 10 _ (inl (omega arith)) (decimal-IsDigit n))

hex_line : (label b : Bytes) → has_code 10 label ≡ false → Plain (line label (bytes_to_hex b))
hex_line label b e =
    labelled_line label (bytes_to_hex b) e (bytes_to_hex-Without 10 b (omega arith))

encryption_text-Plain : (e : Option (ℕ × Bytes)) → Plain (encryption_text e)
unfolding has_code
encryption_text-Plain none = has_code-Without 10 none_text refl
encryption_text-Plain (some (n, b)) =
    append-All _ (decimal n) _ (digits-Without 10 _ (inl (omega arith)) (decimal-IsDigit n))
      ((λ e. ground (arith, e)), bytes_to_hex-Without 10 b (omega arith))

grant-AllPlain : (g : KeyGrant) → IsGrant g → AllPlain (lines_of_grant g)
unfolding has_code
grant-AllPlain g (vd, vk, vb, x, y) = (
  labelled_line grantee_label g.grantee_did refl vd,
  (
    labelled_line grantee_key_label g.grantee_public_key_id refl vk,
    (
      number_line key_epoch_label g.key_epoch refl,
      (
        hex_line ephemeral_key_label g.ephemeral_public_key refl,
        (
          hex_line encrypted_key_label g.encrypted_key refl,
          (
            labelled_line granted_by_label g.granted_by refl vb,
            (number_line granted_at_label g.granted_at refl, tt),
          ),
        ),
      ),
    ),
  ),
)

grants-AllPlain : (gs : List KeyGrant) → All IsGrant gs → AllPlain (lines_of_grants gs)
grants-AllPlain [] all = tt
grants-AllPlain (g ∷ gs) (is, all) =
    append-All Plain (lines_of_grant g) _ (grant-AllPlain g is) (grants-AllPlain gs all)

pub kind_text-Plain : (k : Kind) → Plain (kind_text k)
unfolding has_code
kind_text-Plain store_data = has_code-Without 10 store_data_kind refl
kind_text-Plain store_file_manifest = has_code-Without 10 store_file_manifest_kind refl
kind_text-Plain delete_file_manifest = has_code-Without 10 delete_file_manifest_kind refl
kind_text-Plain unregister_storage_node = has_code-Without 10 unregister_storage_node_kind refl
kind_text-Plain grant_subgrove_key = has_code-Without 10 grant_subgrove_key_kind refl
kind_text-Plain rotate_subgrove_key = has_code-Without 10 rotate_subgrove_key_kind refl

module _ (sha256 : Bytes → Bytes) where
  pub lines_of-AllPlain : (k : Kind) (w : Write k) → IsWrite k w → AllPlain (lines_of sha256 k w)
  unfolding has_code
  lines_of-AllPlain store_data (store_data_write s k o p n) (vs, vk, vo) = (
    labelled_line subgrove_label s refl vs,
    (
      labelled_line key_label k refl vk,
      (
        labelled_line owner_label o refl vo,
        (hex_line data_hash_label (sha256 p) refl, (number_line nonce_label n refl, tt)),
      ),
    ),
  )
  lines_of-AllPlain store_file_manifest (file_write s k o f c t h count size r e n)
        (vs, vk, vo, vf, vc, vh, vr, ve) =
      (
        labelled_line subgrove_label s refl vs,
        (
          labelled_line key_label k refl vk,
          (
            labelled_line owner_label o refl vo,
            (
              labelled_line filename_label f refl vf,
              (
                labelled_line content_type_label c refl vc,
                (
                  number_line total_size_label t refl,
                  (
                    hex_line content_hash_label h refl,
                    (
                      number_line chunk_count_label count refl,
                      (
                        number_line chunk_size_label size refl,
                        (
                          hex_line chunk_merkle_root_label r refl,
                          (
                            labelled_line encryption_label (encryption_text e) refl
                                (encryption_text-Plain e),
                            (number_line nonce_label n refl, tt),
                          ),
                        ),
                      ),
                    ),
                  ),
                ),
              ),
            ),
          ),
        ),
      )
  lines_of-AllPlain delete_file_manifest (file_deletion s k o n) (vs, vk, vo) = (
    labelled_line subgrove_label s refl vs,
    (
      labelled_line key_label k refl vk,
      (labelled_line owner_label o refl vo, (number_line nonce_label n refl, tt)),
    ),
  )
  lines_of-AllPlain unregister_storage_node (node_removal d n) vd =
      (labelled_line node_label d refl vd, (number_line nonce_label n refl, tt))
  lines_of-AllPlain grant_subgrove_key (grant_write s d g n) (vs, vd, vg) = (
    labelled_line subgrove_label s refl vs,
    (
      labelled_line sender_label d refl vd,
      append-All Plain (lines_of_grant g) (line nonce_label (decimal n) ∷ []) (grant-AllPlain g vg)
          (number_line nonce_label n refl, tt),
    ),
  )
  lines_of-AllPlain rotate_subgrove_key (rotation s d x gs n) (vs, vd, vg) = (
    labelled_line subgrove_label s refl vs,
    (
      labelled_line sender_label d refl vd,
      (
        number_line new_epoch_label x refl,
        (
          number_line grants_label (length gs) refl,
          append-All Plain (lines_of_grants gs) (line nonce_label (decimal n) ∷ [])
              (grants-AllPlain gs vg) (number_line nonce_label n refl, tt),
        ),
      ),
    ),
  )
