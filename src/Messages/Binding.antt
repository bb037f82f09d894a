-- ===== src/Messages/Binding.antt =====
-- The writes of src/willow/signed_messages.py that have one message.
use willow_sdk_python.Prelude.{
  get_or, ◌<◌, ℕ, ◌≡◌, ◌≢◌, refl, ◌⊎◌, inl, inr, ap, ap₂, sym, arith, Option, none, some, List, [],
  ◌∷◌, ◌++◌, Bytes, IsByte, All, length,
}
use willow_sdk_python.Hash.{bytes_to_hex}
use willow_sdk_python.Hash.Binding.{Collision, same_input}
use willow_sdk_python.Messages.Labels.{
  subgrove_label, key_label, owner_label, data_hash_label, nonce_label, filename_label,
  content_type_label, total_size_label, content_hash_label, chunk_count_label, chunk_size_label,
  chunk_merkle_root_label, encryption_label, none_text, sender_label, grantee_label,
  grantee_key_label, key_epoch_label, ephemeral_key_label, encrypted_key_label, granted_by_label,
  granted_at_label, node_label, new_epoch_label, grants_label,
}
use willow_sdk_python.Messages.{line, decimal}
use willow_sdk_python.Messages.Decimal.{IsDigit, decimal-injective, decimal-IsDigit}
use willow_sdk_python.Messages.Lines.{Without, cut_at, line-injective}
use willow_sdk_python.Messages.ByteFields.{bytes_to_hex-injective}
use willow_sdk_python.Messages.Grants.{KeyGrant}
use willow_sdk_python.Messages.Writes.{
  Kind, store_data, store_file_manifest, delete_file_manifest, unregister_storage_node,
  grant_subgrove_key, rotate_subgrove_key, Write, store_data_write, file_write, file_deletion,
  node_removal, grant_write, rotation,
}
use willow_sdk_python.Messages.Print.{
  encryption_text, lines_of_grant, lines_of_grants, IsGrant, IsEncryption, IsWrite, lines_of,
}

same_line :
    (label u v : Bytes) (ls ms : List Bytes)
    → line label u ∷ ls ≡ line label v ∷ ms
    → (u ≡ v) × (ls ≡ ms)
same_line label u v ls ms e =
    let first : line label u ≡ line label v = cc in (line-injective label u v first, cc)

same_number :
    (label : Bytes) (n m : ℕ) (ls ms : List Bytes)
    → line label (decimal n) ∷ ls ≡ line label (decimal m) ∷ ms
    → (n ≡ m) × (ls ≡ ms)
same_number label n m ls ms e =
    let (same, later) = same_line label (decimal n) (decimal m) ls ms e in
    (decimal-injective n m same, later)

same_bytes :
    (label a b : Bytes) (ls ms : List Bytes)
    → All IsByte a
    → All IsByte b
    → line label (bytes_to_hex a) ∷ ls ≡ line label (bytes_to_hex b) ∷ ms
    → (a ≡ b) × (ls ≡ ms)
same_bytes label a b ls ms ha hb e =
    let (same, later) = same_line label (bytes_to_hex a) (bytes_to_hex b) ls ms e in
    (bytes_to_hex-injective a b ha hb same, later)

same_grant :
    (g h : KeyGrant) (ls ms : List Bytes)
    → IsGrant g
    → IsGrant h
    → lines_of_grant g ++ ls ≡ lines_of_grant h ++ ms
    → (g ≡ h) × (ls ≡ ms)
same_grant g h ls ms vg vh e0 =
    let (grantee, e1) = same_line grantee_label g.grantee_did h.grantee_did _ _ e0 in
    let (key, e2) =
      same_line grantee_key_label g.grantee_public_key_id h.grantee_public_key_id _ _ e1 in
    let (epoch, e3) = same_number key_epoch_label g.key_epoch h.key_epoch _ _ e2 in
    let (ephemeral, e4) =
      same_bytes ephemeral_key_label g.ephemeral_public_key h.ephemeral_public_key _ _ vg.3 vh.3
        e3 in
    let (encrypted, e5) =
      same_bytes encrypted_key_label g.encrypted_key h.encrypted_key _ _ vg.4 vh.4 e4 in
    let (by, e6) = same_line granted_by_label g.granted_by h.granted_by _ _ e5 in
    let (at, e7) = same_number granted_at_label g.granted_at h.granted_at _ _ e6 in
    (
      λ i. record {
        grantee_did = grantee i;
        key_epoch = epoch i;
        grantee_public_key_id = key i;
        ephemeral_public_key = ephemeral i;
        encrypted_key = encrypted i;
        granted_by = by i;
        granted_at = at i;
      },
      e7,
    )

same_grants :
    (gs hs : List KeyGrant) (ls ms : List Bytes)
    → length gs ≡ length hs
    → All IsGrant gs
    → All IsGrant hs
    → lines_of_grants gs ++ ls ≡ lines_of_grants hs ++ ms
    → (gs ≡ hs) × (ls ≡ ms)
same_grants [] [] ls ms size vg vh e = (refl, e)
same_grants [] (h ∷ hs) ls ms size vg vh e = absurd (omega (arith, size))
same_grants (g ∷ gs) [] ls ms size vg vh e = absurd (omega (arith, size))
same_grants (g ∷ gs) (h ∷ hs) ls ms size (vg, vgs) (vh, vhs) e =
    let (first, later) = same_grant g h _ _ vg vh e in
    let (rest, end) = same_grants gs hs ls ms (omega (arith, size)) vgs vhs later in
    (ap₂ ◌∷◌ first rest, end)

pub digits-Without : (c : ℕ) (t : Bytes) → (c < 48) ⊎ (57 < c) → All IsDigit t → Without c t
digits-Without c [] h all = tt
digits-Without c (d ∷ t) h ((low, high), all) =
    ((λ e. ground (arith, h, low, high, e)), digits-Without c t h all)

first_code : (c : ℕ) (t u : Bytes) → c ∷ t ≡ u → c ≡ get_or u 0 0
first_code c t u e = ap (λ (x : Bytes). get_or x 0 0) e

digits_not_none : (d t : Bytes) → All IsDigit d → d ++ (58 ∷ t) ≢ none_text
digits_not_none [] t all e = absurd (omega (arith, first_code 58 t none_text e))
digits_not_none (c ∷ d) t ((low, high), all) e =
    absurd (omega (arith, high, first_code c (d ++ (58 ∷ t)) none_text e))

not_none_text : (n : ℕ) (t : Bytes) → decimal n ++ (58 ∷ t) ≢ none_text
not_none_text n t = digits_not_none (decimal n) t (decimal-IsDigit n)

same_encryption :
    (e f : Option (ℕ × Bytes))
    → IsEncryption e
    → IsEncryption f
    → encryption_text e ≡ encryption_text f
    → e ≡ f
same_encryption none none ve vf same = refl
same_encryption none (some (n, b)) ve vf same = absurd (not_none_text n (bytes_to_hex b) (sym same))
same_encryption (some (n, b)) none ve vf same = absurd (not_none_text n (bytes_to_hex b) same)
same_encryption (some (n, a)) (some (m, b)) ve vf same =
    let (numbers, shown) =
      cut_at 58 (decimal n) _ (decimal m) _
        (digits-Without 58 _ (inr (omega arith)) (decimal-IsDigit n))
        (digits-Without 58 _ (inr (omega arith)) (decimal-IsDigit m)) same in
    let epochs = decimal-injective n m numbers in
    let bytes = bytes_to_hex-injective a b ve vf shown in λ i. some (epochs i, bytes i)

module _ (sha256 : Bytes → Bytes) (IsByte-sha256 : (x : Bytes) → All IsByte (sha256 x)) where
  -- Two writes of one kind that have the same lines are equal, or SHA-256 has a collision.
  pub lines_of_binds :
      (k : Kind) (w v : Write k)
      → IsWrite k w
      → IsWrite k v
      → lines_of sha256 k w ≡ lines_of sha256 k v
      → (w ≡ v) ⊎ Collision sha256
  lines_of_binds store_data (store_data_write s k o p n) (store_data_write s' k' o' p' n') vw vv
        e0 =
      let (es, e1) = same_line subgrove_label s s' _ _ e0 in
      let (ek, e2) = same_line key_label k k' _ _ e1 in
      let (eo, e3) = same_line owner_label o o' _ _ e2 in
      let (hash, e4) =
        same_bytes data_hash_label (sha256 p) (sha256 p') _ _ (IsByte-sha256 p) (IsByte-sha256 p')
          e3 in
      let (en, e5) = same_number nonce_label n n' _ _ e4 in
      elim (same_input sha256 p p' hash) [
        | inl ep ↦ inl (λ i. store_data_write (es i) (ek i) (eo i) (ep i) (en i))
        | inr c ↦ inr c
      ]
  lines_of_binds store_file_manifest (file_write s k o f c t h count size r e n)
        (file_write s' k' o' f' c' t' h' count' size' r' e' n') (vs, vk, vo, vf, vc, vh, vr, ve)
        (us, uk, uo, uf, uc, uh, ur, ue) e0 =
      let (es, e1) = same_line subgrove_label s s' _ _ e0 in
      let (ek, e2) = same_line key_label k k' _ _ e1 in
      let (eo, e3) = same_line owner_label o o' _ _ e2 in
      let (ef, e4) = same_line filename_label f f' _ _ e3 in
      let (ec, e5) = same_line content_type_label c c' _ _ e4 in
      let (et, e6) = same_number total_size_label t t' _ _ e5 in
      let (eh, e7) = same_bytes content_hash_label h h' _ _ vh uh e6 in
      let (ecount, e8) = same_number chunk_count_label count count' _ _ e7 in
      let (esize, e9) = same_number chunk_size_label size size' _ _ e8 in
      let (er, e10) = same_bytes chunk_merkle_root_label r r' _ _ vr ur e9 in
      let (text, e11) =
        same_line encryption_label (encryption_text e) (encryption_text e') _ _ e10 in
      let ee = same_encryption e e' ve ue text in
      let (en, e12) = same_number nonce_label n n' _ _ e11 in
      inl (λ i.
        file_write (es i) (ek i) (eo i) (ef i) (ec i) (et i) (eh i) (ecount i) (esize i) (er i)
          (ee i) (en i))
  lines_of_binds delete_file_manifest (file_deletion s k o n) (file_deletion s' k' o' n') vw vv e0 =
      let (es, e1) = same_line subgrove_label s s' _ _ e0 in
      let (ek, e2) = same_line key_label k k' _ _ e1 in
      let (eo, e3) = same_line owner_label o o' _ _ e2 in
      let (en, e4) = same_number nonce_label n n' _ _ e3 in
      inl (λ i. file_deletion (es i) (ek i) (eo i) (en i))
  lines_of_binds unregister_storage_node (node_removal d n) (node_removal d' n') vw vv e0 =
      let (ed, e1) = same_line node_label d d' _ _ e0 in
      let (en, e2) = same_number nonce_label n n' _ _ e1 in inl (λ i. node_removal (ed i) (en i))
  lines_of_binds grant_subgrove_key (grant_write s d g n) (grant_write s' d' g' n') (vs, vd, vg)
        (us, ud, ug) e0 =
      let (es, e1) = same_line subgrove_label s s' _ _ e0 in
      let (ed, e2) = same_line sender_label d d' _ _ e1 in
      let (eg, e3) = same_grant g g' _ _ vg ug e2 in
      let (en, e4) = same_number nonce_label n n' _ _ e3 in
      inl (λ i. grant_write (es i) (ed i) (eg i) (en i))
  lines_of_binds rotate_subgrove_key (rotation s d x gs n) (rotation s' d' x' gs' n') (vs, vd, vg)
        (us, ud, ug) e0 =
      let (es, e1) = same_line subgrove_label s s' _ _ e0 in
      let (ed, e2) = same_line sender_label d d' _ _ e1 in
      let (ex, e3) = same_number new_epoch_label x x' _ _ e2 in
      let (size, e4) = same_number grants_label (length gs) (length gs') _ _ e3 in
      let (eg, e5) = same_grants gs gs' _ _ size vg ug e4 in
      let (en, e6) = same_number nonce_label n n' _ _ e5 in
      inl (λ i. rotation (es i) (ed i) (ex i) (eg i) (en i))
