-- ===== src/Messages/Revoke.antt =====
-- src/willow/signed_messages.py, `revoke_subgrove_key_message`: the message splits one way.
use willow_sdk_python.Prelude.{
  ℕ, ◌≡◌, refl, inr, ap, sym, ◌∙◌, arith, true, [], ◌∷◌, ◌++◌, Bytes, length, take, drop, bytes_eq,
  bytes_eq_iff, append_cut, append_assoc, take-append-drop, Bool-cases, inl, leb, ltb, ◌==◌,
}
use willow_sdk_python.Prelude.Int.{ℤ, pos, negsuc}
use willow_sdk_python.Prelude.Result.{ok, ok-injective, >>=-eq-ok}
use willow_sdk_python.Messages.Labels.{did_prefix, revoke_subgrove_key_kind}
use willow_sdk_python.Messages.{has_code, unsigned, u64_max, decimal}
use willow_sdk_python.Messages.Decimal.{decimal-injective}
use willow_sdk_python.Messages.Lines.{Without, cut_at, has_code-Without}
use willow_sdk_python.Messages.Grants.{
  all_did_chars, is_did, did_rule, key_subgrove_rule, RevokeSubgroveKey,
  revoke_subgrove_key_message,
}

all_did_chars-Without : (t : Bytes) → all_did_chars t ≡ true → Without 58 t
unfolding all_did_chars
all_did_chars-Without [] e = tt
all_did_chars-Without (c ∷ t) e = (ground (arith, e), all_did_chars-Without t (ground (arith, e)))

-- A DID: its prefix, and a text with no colon.
did_parts : (d : Bytes) → did_rule d ≡ ok tt → (t : Bytes) × (d ≡ did_prefix ++ t) × Without 58 t
unfolding did_rule is_did
did_parts d e = elim (Bool-cases (bytes_eq (take 11 d) did_prefix)) [
  | inr other ↦ cc (rw (did_rule, other) at e)
  | inl prefix ↦ elim (Bool-cases (all_did_chars (drop 11 d))) [
    | inl chars ↦ (
      drop 11 d,
      sym (take-append-drop 11 d)
          ∙ ap (λ (p : Bytes). p ++ drop 11 d) ((bytes_eq_iff (take 11 d) did_prefix).0 prefix),
      all_did_chars-Without (drop 11 d) chars,
    )
    | inr bad ↦ elim (Bool-cases (ltb 11 (length d))) [
      | inl long ↦ cc (rw (did_rule, prefix, long, bad) at e)
      | inr short ↦ cc (rw (did_rule, prefix, short) at e)
    ]
  ]
]

-- Two DIDs before a colon.
cut_did :
    (d f xs ys : Bytes)
    → did_rule d ≡ ok tt
    → did_rule f ≡ ok tt
    → d ++ (58 ∷ xs) ≡ f ++ (58 ∷ ys)
    → (d ≡ f) × (xs ≡ ys)
cut_did d f xs ys rd rf e =
    let (t, dt, ht) = did_parts d rd in
    let (u, fu, hu) = did_parts f rf in
    let whole : (did_prefix ++ t) ++ (58 ∷ xs) ≡ (did_prefix ++ u) ++ (58 ∷ ys) =
      sym (ap (λ (x : Bytes). x ++ (58 ∷ xs)) dt) ∙ e ∙ ap (λ (x : Bytes). x ++ (58 ∷ ys)) fu in
    let (same, later) =
      append_cut did_prefix (t ++ (58 ∷ xs)) did_prefix (u ++ (58 ∷ ys)) refl
        (sym (append_assoc did_prefix t (58 ∷ xs)) ∙ whole ∙ append_assoc did_prefix u (58 ∷ ys)) in
    let (names, rest) = cut_at 58 t xs u ys ht hu later in
    (dt ∙ ap (λ (x : Bytes). did_prefix ++ x) names ∙ sym fu, rest)

key_subgrove_rule-Without : (s : Bytes) → key_subgrove_rule s ≡ ok tt → Without 58 s
unfolding key_subgrove_rule
key_subgrove_rule-Without s e = elim (Bool-cases (length s == 0)) [
  | inl nothing ↦ cc (rw (key_subgrove_rule, nothing) at e)
  | inr some' ↦ elim (Bool-cases (has_code 58 s)) [
    | inl colon ↦ cc (rw (key_subgrove_rule, some', colon) at e)
    | inr none' ↦ has_code-Without 58 s none'
  ]
]

-- A number that is read is the number itself.
unsigned-pos : (z : ℤ) (maximum n : ℕ) → unsigned z maximum ≡ ok n → z ≡ pos n
unfolding unsigned
unsigned-pos (pos k) maximum n e = elim (Bool-cases (leb k maximum)) [
  | inl small ↦ ap pos (ok-injective (rw small at e))
  | inr large ↦ cc (rw large at e)
]
unsigned-pos (negsuc k) maximum n e = cc

-- What a message that is given says of its request.
record Given (a : RevokeSubgroveKey) (m : Bytes) : Type 0 where
  pub nonce : ℕ
  pub read : unsigned a.nonce u64_max ≡ ok nonce
  pub subgrove : key_subgrove_rule a.subgrove_id ≡ ok tt
  pub revokee : did_rule a.revokee_did ≡ ok tt
  pub sender : did_rule a.sender_did ≡ ok tt
  pub shown :
      m
      ≡ revoke_subgrove_key_kind
        ++ (58
            ∷ (a.subgrove_id
                ++ (58 ∷ (a.revokee_did ++ (58 ∷ (a.sender_did ++ (58 ∷ decimal nonce)))))))

revoke_subgrove_key_message-Given :
    (a : RevokeSubgroveKey) (m : Bytes) → revoke_subgrove_key_message a ≡ ok m → Given a m
unfolding revoke_subgrove_key_message
revoke_subgrove_key_message-Given a m e0 =
    let (n, r1, e1) = >>=-eq-ok (unsigned a.nonce u64_max) _ e0 in
    let (u, r2, e2) = >>=-eq-ok (key_subgrove_rule a.subgrove_id) _ e1 in
    let (v, r3, e3) = >>=-eq-ok (did_rule a.revokee_did) _ e2 in
    let (w, r4, e4) = >>=-eq-ok (did_rule a.sender_did) _ e3 in
    record {
      nonce = n;
      read = r1;
      subgrove = r2;
      revokee = r3;
      sender = r4;
      shown = sym (ok-injective e4);
    }

-- Two revocations with one message have the same subgrove ID, revokee, sender and nonce.
pub revoke_subgrove_key_message_binds :
    (a b : RevokeSubgroveKey) (m : Bytes)
    → revoke_subgrove_key_message a ≡ ok m
    → revoke_subgrove_key_message b ≡ ok m
    → (a.subgrove_id ≡ b.subgrove_id)
      × (a.revokee_did ≡ b.revokee_did)
      × (a.sender_did ≡ b.sender_did)
      × (a.nonce ≡ b.nonce)
revoke_subgrove_key_message_binds a b m ea eb =
    let x = revoke_subgrove_key_message-Given a m ea in
    let y = revoke_subgrove_key_message-Given b m eb in
    let (kind, e0) =
      append_cut revoke_subgrove_key_kind _ revoke_subgrove_key_kind _ refl
        (sym x.shown ∙ y.shown) in
    let (subgrove, e1) =
      cut_at 58 a.subgrove_id _ b.subgrove_id _ (key_subgrove_rule-Without a.subgrove_id x.subgrove)
        (key_subgrove_rule-Without b.subgrove_id y.subgrove) (ap (drop 1) e0) in
    let (revokee, e2) = cut_did a.revokee_did b.revokee_did _ _ x.revokee y.revokee e1 in
    let (sender, e3) = cut_did a.sender_did b.sender_did _ _ x.sender y.sender e2 in
    (
      subgrove,
      revokee,
      sender,
      unsigned-pos a.nonce u64_max x.nonce x.read
          ∙ ap pos (decimal-injective x.nonce y.nonce e3)
          ∙ sym (unsigned-pos b.nonce u64_max y.nonce y.read),
    )
