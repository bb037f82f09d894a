-- ===== src/Messages/Opened/Keys.antt =====
-- src/willow/signed_messages.py: the messages of grants and rotations as the lines of what is written.
use willow_sdk_python.Prelude.{
  suc, ℕ, ◌≡◌, refl, ap, sym, ◌∙◌, not, ◌&&◌, List, [], ◌∷◌, ◌++◌, Bytes, IsByte, All, length, leb,
  ◌==◌, subst,
}
use willow_sdk_python.Prelude.Result.{
  past_check, no_sender, bad_grant, ok, ok-injective, >>=-eq-ok, >>=-ok,
}
use willow_sdk_python.Hash.{bytes_to_hex}
use willow_sdk_python.Messages.Labels.{
  subgrove_label, nonce_label, sender_label, grantee_label, grantee_key_label, key_epoch_label,
  ephemeral_key_label, encrypted_key_label, granted_by_label, granted_at_label, new_epoch_label,
  grants_label, grant_subgrove_key_kind, rotate_subgrove_key_kind,
}
use willow_sdk_python.Messages.{
  line, field, unsigned, u32_max, u64_max, decimal, byte_values, join_lines,
}
use willow_sdk_python.Messages.Lines.{Plain, field-line}
use willow_sdk_python.Messages.ByteFields.{byte_values-IsByte}
use willow_sdk_python.Messages.Grants.{
  GivenGrant, KeyGrant, key_grant, key_grants, key_subgrove_rule, grant_rules, all_grant_rules,
  grant_lines, grants_lines, GrantSubgroveKey, grant_subgrove_key_message, RotateSubgroveKey,
  rotate_subgrove_key_message,
}
use willow_sdk_python.Messages.Writes.{
  grant_subgrove_key, rotate_subgrove_key, grant_write, rotation,
}
use willow_sdk_python.Messages.Print.{lines_of_grant, lines_of_grants, IsGrant}
use willow_sdk_python.Messages.Opened.{Opened}

grant_lines-lines :
    (g : KeyGrant) (ls : List Bytes)
    → grant_lines g ≡ ok ls
    → (ls ≡ lines_of_grant g)
      × Plain g.grantee_did
      × Plain g.grantee_public_key_id
      × Plain g.granted_by
unfolding grant_lines
grant_lines-lines g ls e0 =
    let (d, r1, e1) = >>=-eq-ok (field grantee_label g.grantee_did) _ e0 in
    let (k, r2, e2) = >>=-eq-ok (field grantee_key_label g.grantee_public_key_id) _ e1 in
    let (b, r3, e3) = >>=-eq-ok (field granted_by_label g.granted_by) _ e2 in
    let (id', vd) = field-line grantee_label g.grantee_did d r1 in
    let (ik, vk) = field-line grantee_key_label g.grantee_public_key_id k r2 in
    let (ib, vb) = field-line granted_by_label g.granted_by b r3 in
    (
      sym (ok-injective e3) ∙ λ i.
          id' i
          ∷ ik i
          ∷ line key_epoch_label (decimal g.key_epoch)
          ∷ line ephemeral_key_label (bytes_to_hex g.ephemeral_public_key)
          ∷ line encrypted_key_label (bytes_to_hex g.encrypted_key)
          ∷ ib i
          ∷ line granted_at_label (decimal g.granted_at)
          ∷ [],
      vd,
      vk,
      vb,
    )

-- A grant that is read has bytes in its two keys.
abbrev HasBytes : KeyGrant → Type 0
HasBytes g = All IsByte g.ephemeral_public_key × All IsByte g.encrypted_key

key_grant-HasBytes : (a : GivenGrant) (g : KeyGrant) → key_grant a ≡ ok g → HasBytes g
unfolding key_grant
key_grant-HasBytes a g e0 =
    let (epoch, r1, e1) = >>=-eq-ok (unsigned a.key_epoch u32_max) _ e0 in
    let (x, r2, e2) = >>=-eq-ok (byte_values a.ephemeral_public_key) _ e1 in
    let (y, r3, e3) = >>=-eq-ok (byte_values a.encrypted_key) _ e2 in
    let (at, r4, e4) = >>=-eq-ok (unsigned a.granted_at u64_max) _ e3 in
    subst HasBytes (ok-injective e4)
      (byte_values-IsByte a.ephemeral_public_key x r2, byte_values-IsByte a.encrypted_key y r3)

grant_lines-IsGrant :
    (a : GivenGrant) (g : KeyGrant) (ls : List Bytes)
    → key_grant a ≡ ok g
    → grant_lines g ≡ ok ls
    → (ls ≡ lines_of_grant g) × IsGrant g
grant_lines-IsGrant a g ls r e =
    let (same, vd, vk, vb) = grant_lines-lines g ls e in
    let (x, y) = key_grant-HasBytes a g r in (same, (vd, vk, vb, x, y))

grants_lines-IsGrant :
    (as' : List GivenGrant) (gs : List KeyGrant) (ls : List Bytes)
    → key_grants as' ≡ ok gs
    → grants_lines gs ≡ ok ls
    → (ls ≡ lines_of_grants gs) × All IsGrant gs × (length as' ≡ length gs)
unfolding key_grants grants_lines
grants_lines-IsGrant [] (g ∷ gs) ls r e = cc
grants_lines-IsGrant [] [] ls r e = (sym (ok-injective e), tt, refl)
grants_lines-IsGrant (a ∷ as') [] ls r0 e =
    let (g, r1, q1) = >>=-eq-ok (key_grant a) _ r0 in
    let (gs, r2, q2) = >>=-eq-ok (key_grants as') _ q1 in cc
grants_lines-IsGrant (a ∷ as') (h ∷ hs) ls r0 e0 =
    let (g, r1, q1) = >>=-eq-ok (key_grant a) _ r0 in
    let (gs, r2, q2) = >>=-eq-ok (key_grants as') _ q1 in
    let first : g ≡ h = cc (ok-injective q2) in
    let later : gs ≡ hs = cc (ok-injective q2) in
    let (one, s1, e1) = >>=-eq-ok (grant_lines h) _ e0 in
    let (more, s2, e2) = >>=-eq-ok (grants_lines hs) _ e1 in
    let (same, is) = grant_lines-IsGrant a h one (r1 ∙ ap ok first) s1 in
    let (rest, all, size) = grants_lines-IsGrant as' hs more (r2 ∙ ap ok later) s2 in
    (sym (ok-injective e2) ∙ (λ i. same i ++ rest i), (is, all), ap suc size)

module _ (sha256 : Bytes → Bytes) where
  grant_parts :
      (a : GrantSubgroveKey) (g : KeyGrant) (s d : Bytes) (ls : List Bytes) (n : ℕ)
      → key_grant a.grant ≡ ok g
      → field subgrove_label a.subgrove_id ≡ ok s
      → field sender_label a.sender_did ≡ ok d
      → grant_lines g ≡ ok ls
      → unsigned a.nonce u64_max ≡ ok n
      → Opened sha256 grant_subgrove_key a (
          join_lines
            (grant_subgrove_key_kind ∷ s ∷ d ∷ (ls ++ (line nonce_label (decimal n) ∷ []))))
  grant_parts a g s d ls n r1 r2 r3 r4 r5 =
      let (is, vs) = field-line subgrove_label a.subgrove_id s r2 in
      let (id', vd) = field-line sender_label a.sender_did d r3 in
      let (ig, vg) = grant_lines-IsGrant a.grant g ls r1 r4 in
      record {
        write = grant_write a.subgrove_id a.sender_did g n;
        written = >>=-ok _ r1 (>>=-ok _ r5 refl);
        shown = λ i. join_lines (
            grant_subgrove_key_kind ∷ is i ∷ id' i ∷ (ig i ++ (line nonce_label (decimal n) ∷ [])));
        is_write = (vs, vd, vg);
      }

  pub grant_subgrove_key_message-Opened :
      (a : GrantSubgroveKey) (m : Bytes)
      → grant_subgrove_key_message a ≡ ok m
      → Opened sha256 grant_subgrove_key a m
  unfolding grant_subgrove_key_message
  grant_subgrove_key_message-Opened a m e0 =
      let (g, r1, e1) = >>=-eq-ok (key_grant a.grant) _ e0 in
      let (s, r2, e2) = >>=-eq-ok (field subgrove_label a.subgrove_id) _ e1 in
      let (d, r3, e3) = >>=-eq-ok (field sender_label a.sender_did) _ e2 in
      let (ls, r4, e4) = >>=-eq-ok (grant_lines g) _ e3 in
      let (n, r5, e5) = >>=-eq-ok (unsigned a.nonce u64_max) _ e4 in
      let (u, r6, e6) = >>=-eq-ok (key_subgrove_rule a.subgrove_id) _ e5 in
      let (v, r7, e7) =
        >>=-eq-ok (grant_rules g) _ (past_check (length a.sender_did == 0) no_sender e6) in
      subst (Opened sha256 grant_subgrove_key a) (ok-injective e7)
        (grant_parts a g s d ls n r1 r2 r3 r4 r5)

  rotation_parts :
      (a : RotateSubgroveKey) (s d : Bytes) (x : ℕ) (gs : List KeyGrant) (ls : List Bytes) (n : ℕ)
      → field subgrove_label a.subgrove_id ≡ ok s
      → field sender_label a.sender_did ≡ ok d
      → unsigned a.new_epoch u32_max ≡ ok x
      → key_grants a.new_grants ≡ ok gs
      → grants_lines gs ≡ ok ls
      → unsigned a.nonce u64_max ≡ ok n
      → Opened sha256 rotate_subgrove_key a (
          join_lines (
            rotate_subgrove_key_kind
            ∷ s
            ∷ d
            ∷ line new_epoch_label (decimal x)
            ∷ line grants_label (decimal (length a.new_grants))
            ∷ (ls ++ (line nonce_label (decimal n) ∷ []))))
  rotation_parts a s d x gs ls n r1 r2 r3 r4 r5 r6 =
      let (is, vs) = field-line subgrove_label a.subgrove_id s r1 in
      let (id', vd) = field-line sender_label a.sender_did d r2 in
      let (ig, vg, size) = grants_lines-IsGrant a.new_grants gs ls r4 r5 in
      record {
        write = rotation a.subgrove_id a.sender_did x gs n;
        written = >>=-ok _ r3 (>>=-ok _ r4 (>>=-ok _ r6 refl));
        shown = λ i. join_lines (
            rotate_subgrove_key_kind
            ∷ is i
            ∷ id' i
            ∷ line new_epoch_label (decimal x)
            ∷ line grants_label (decimal (size i))
            ∷ (ig i ++ (line nonce_label (decimal n) ∷ [])));
        is_write = (vs, vd, vg);
      }

  pub rotate_subgrove_key_message-Opened :
      (a : RotateSubgroveKey) (m : Bytes)
      → rotate_subgrove_key_message a ≡ ok m
      → Opened sha256 rotate_subgrove_key a m
  unfolding rotate_subgrove_key_message
  rotate_subgrove_key_message-Opened a m e0 =
      let (s, r1, e1) = >>=-eq-ok (field subgrove_label a.subgrove_id) _ e0 in
      let (d, r2, e2) = >>=-eq-ok (field sender_label a.sender_did) _ e1 in
      let (x, r3, e3) = >>=-eq-ok (unsigned a.new_epoch u32_max) _ e2 in
      let (gs, r4, e4) = >>=-eq-ok (key_grants a.new_grants) _ e3 in
      let (ls, r5, e5) = >>=-eq-ok (grants_lines gs) _ e4 in
      let (n, r6, e6) = >>=-eq-ok (unsigned a.nonce u64_max) _ e5 in
      let (u, r7, e7) = >>=-eq-ok (key_subgrove_rule a.subgrove_id) _ e6 in
      let (v, r8, e8) =
        >>=-eq-ok (all_grant_rules gs) _
          (past_check (not (leb 1 (length gs) && leb (length gs) 1000)) bad_grant e7) in
      subst (Opened sha256 rotate_subgrove_key a) (ok-injective e8)
        (rotation_parts a s d x gs ls n r1 r2 r3 r4 r5 r6)
