-- ===== src/Merk/Decoder/Total.antt =====
-- src/willow/grovedb/merk_decoder.py: the loop of `__iter__`, and the fuel that it is given.
use willow_sdk_python.Prelude.{
  ℕ, zero, suc, ◌+◌, ◌*◌, ◌^◌, bit_and, bit_or, ◌≤◌, ◌<◌, ◌≡◌, ◌≢◌, refl, ap, arith, Bool, true,
  false, Option, none, some, List, [], ◌∷◌, Bytes, length, drop, ltb, Bool-cases, inl, inr, subst,
}
use willow_sdk_python.Prelude.Result.{
  Result, ok, err, ◌>>=◌ as bind, >>=-eq-ok, ok-injective, out_of_fuel,
}
use willow_sdk_python.Prelude.Int.{ℤ}
use willow_sdk_python.Varint.{zigzag, decode_loop, decode_varint64, decode_signed_varint64}
use willow_sdk_python.Varint.Bounds.{decode_varint64_takes}
use willow_sdk_python.Cursor.{Cursor, Read, after, ◌>>=◌, pure, advance, start, has_more, read_u8}
use willow_sdk_python.Cursor.Moves.{
  ran_out, Moved, Moves, same_cursor, read_u8-advances, Moves-bind, Moves-read_u8, move_rules,
}
use willow_sdk_python.Merk.Nodes.{MerkNode, MerkOp}
use willow_sdk_python.Merk.Decoder.{
  moved, read_varint64, read_signed_varint64, decode_feature, decode_feature_type,
  read_value_length, read_key, read_value, decode_hash, decode_kv_hash, decode_kv,
  decode_kv_value_hash, decode_kv_digest, decode_kv_ref_value_hash,
  decode_kv_value_hash_feature_type, pushed, pushed_inverted, decode_inverted, decode_op, read_op,
  next, decode_all, decode_merk_ops, result_of,
}

decode_loop-ends :
    (limit : ℕ) (input : Bytes) (acc shift n : ℕ)
    → ran_out (decode_loop limit input acc shift n) ≡ false
unfolding decode_loop
decode_loop-ends limit [] acc shift n = refl
decode_loop-ends limit (byte ∷ later) acc shift n = ground (
  arith,
  decode_loop-ends limit later (bit_or acc (bit_and byte 0x7f * 2 ^ shift)) (shift + 7) (n + 1),
)

Moves-read_value_length : (large : Bool) → Moves (read_value_length large)
unfolding read_value_length
Moves-read_value_length false = search move_rules
Moves-read_value_length true = search move_rules

Moves-read_key : Moves read_key
unfolding read_key
Moves-read_key = search move_rules

Moves-read_value : (large : Bool) → Moves (read_value large)
unfolding read_value
Moves-read_value large = search (move_rules, Moves-read_value_length)

Moves-decode_hash : Moves decode_hash
unfolding decode_hash
Moves-decode_hash = search move_rules

Moves-decode_kv_hash : Moves decode_kv_hash
unfolding decode_kv_hash
Moves-decode_kv_hash = search move_rules

Moves-decode_kv : (large : Bool) → Moves (decode_kv large)
unfolding decode_kv
Moves-decode_kv large = search (move_rules, Moves-read_key, Moves-read_value)

Moves-decode_kv_value_hash : (large : Bool) → Moves (decode_kv_value_hash large)
unfolding decode_kv_value_hash
Moves-decode_kv_value_hash large = search (move_rules, Moves-read_key, Moves-read_value)

Moves-decode_kv_digest : Moves decode_kv_digest
unfolding decode_kv_digest
Moves-decode_kv_digest = search (move_rules, Moves-read_key)

Moves-decode_kv_ref_value_hash : (large : Bool) → Moves (decode_kv_ref_value_hash large)
unfolding decode_kv_ref_value_hash
Moves-decode_kv_ref_value_hash large = search (move_rules, Moves-read_key, Moves-read_value)

-- A varint read moves the cursor past its bytes.
moved-Moved {ℓ} :
    {A : Type ℓ} (r r' : Cursor) (x : Result (A × ℕ)) (a : A)
    → ((v : A) (m : ℕ) → x ≡ ok (v, m) → r.offset + m ≤ length r.input)
    → moved r x ≡ ok (a, r')
    → Moved r r'
moved-Moved r r' (ok (v, m)) a fits e =
    rw (← same_cursor (advance m r) r' v a e)
      (record { input = refl; forward = omega arith; inside = λ _. fits v m refl })
moved-Moved r r' (err x) a fits e = cc

moved-ends {ℓ} :
    {A : Type ℓ} (r : Cursor) (x : Result (A × ℕ)) → ran_out x ≡ false → ran_out (moved r x) ≡ false
moved-ends r (ok (v, m)) h = refl
moved-ends r (err x) h = h

Moves-read_varint64 : Moves read_varint64
unfolding read_varint64 decode_varint64
Moves-read_varint64 = record {
  run = λ r r' a e.
      moved-Moved r r' (decode_varint64 r.input r.offset) a
        (λ v m h. (decode_varint64_takes r.input r.offset v m h).2) e;
  ends = λ r. moved-ends r _ (decode_loop-ends 70 (drop r.offset r.input) 0 0 0);
}

signed-fits :
    (input : Bytes) (offset m : ℕ) (z : ℤ)
    → decode_signed_varint64 input offset ≡ ok (z, m)
    → offset + m ≤ length input
unfolding decode_signed_varint64
signed-fits input offset m z e =
    let ((v, n), r, e') = >>=-eq-ok (decode_loop 70 (drop offset input) 0 0 0) _ e in
    let same : n ≡ m = ap (λ (p : ℤ × ℕ). p.1) (ok-injective e') in
    omega (arith, same, (decode_varint64_takes input offset v n (unfold decode_varint64 in r)).2)

signed-ends :
    (x : Result (ℕ × ℕ))
    → ran_out x ≡ false
    → ran_out {A = ℤ × ℕ} (bind x (λ (p : ℕ × ℕ). ok (zigzag p.0, p.1))) ≡ false
signed-ends (ok p) h = refl
signed-ends (err e) h = h

Moves-read_signed_varint64 : Moves read_signed_varint64
unfolding read_signed_varint64 decode_signed_varint64
Moves-read_signed_varint64 = record {
  run = λ r r' a e.
      moved-Moved r r' (decode_signed_varint64 r.input r.offset) a
        (λ v m h. signed-fits r.input r.offset m v h) e;
  ends = λ r. moved-ends r _ (signed-ends _ (decode_loop-ends 70 (drop r.offset r.input) 0 0 0));
}

Moves-decode_feature_type : Moves decode_feature_type
unfolding decode_feature_type decode_feature
Moves-decode_feature_type =
    search (move_rules, Moves-read_varint64, Moves-read_signed_varint64) depth 12

Moves-decode_kv_value_hash_feature_type :
    (large : Bool) → Moves (decode_kv_value_hash_feature_type large)
unfolding decode_kv_value_hash_feature_type
Moves-decode_kv_value_hash_feature_type large =
    search (move_rules, Moves-read_key, Moves-read_value, Moves-decode_feature_type)

Moves-pushed : (m : Read MerkNode) → Moves m → Moves (pushed m)
Moves-pushed m h = search move_rules

Moves-pushed_inverted : (m : Read MerkNode) → Moves m → Moves (pushed_inverted m)
Moves-pushed_inverted m h = search move_rules

ruleset node_rules = (
  move_rules, Moves-decode_hash, Moves-decode_kv_hash, Moves-decode_kv, Moves-decode_kv_value_hash,
  Moves-decode_kv_digest, Moves-decode_kv_ref_value_hash, Moves-decode_kv_value_hash_feature_type,
)

Moves-decode_inverted : (op_code : ℕ) → Moves (decode_inverted op_code)
unfolding decode_inverted
Moves-decode_inverted op_code = search (node_rules, Moves-pushed_inverted) depth 16

Moves-decode_op : (op_code : ℕ) → Moves (decode_op op_code)
unfolding decode_op
Moves-decode_op op_code = search (node_rules, Moves-pushed, Moves-decode_inverted) depth 16

-- An operation that is read takes one byte at least.
read_op-advances : (r r' : Cursor) (op : MerkOp) → read_op r ≡ ok (op, r') → Moved (advance 1 r) r'
unfolding read_op ◌>>=◌
read_op-advances r r' op e = go (read_u8 r) refl e
  where
    go :
        (x : Result (ℕ × Cursor))
        → read_u8 r ≡ x
        → after x decode_op ≡ ok (op, r')
        → Moved (advance 1 r) r'
    go (ok (b, s)) byte h =
        subst (λ (t : Cursor). Moved t r') (read_u8-advances r s b byte)
          ((Moves-decode_op b).run s r' op h)
    go (err x) byte h = cc

Moves-read_op : Moves read_op
unfolding read_op
Moves-read_op = search (Moves-bind, Moves-read_u8, Moves-decode_op)

cons-ends :
    (op : MerkOp) (y : Result (List MerkOp × Cursor))
    → ran_out y ≡ false
    → ran_out (after y (λ ops. pure (op ∷ ops))) ≡ false
unfolding pure
cons-ends op (ok p) h = refl
cons-ends op (err x) h = h

-- With more rounds than bytes left the loop ends by itself.
decode_all-ends :
    (fuel : ℕ) (r : Cursor)
    → r.offset ≤ length r.input
    → length r.input < r.offset + fuel
    → ran_out (decode_all fuel r) ≡ false
unfolding decode_all next ◌>>=◌ pure has_more
decode_all-ends zero r inside enough = absurd (omega arith)
decode_all-ends (suc fuel) r inside enough = elim (Bool-cases (ltb r.offset (length r.input))) [
  | inr done ↦ rw done refl
  | inl more ↦
      rw more (go more (λ s. decode_all-ends fuel s) (read_op r) refl (Moves-read_op.ends r))
]
  where
    go :
        (ltb r.offset (length r.input) ≡ true)
        → ((s : Cursor)
            → s.offset ≤ length s.input
            → length s.input < s.offset + fuel
            → ran_out (decode_all fuel s) ≡ false)
        → (x : Result (MerkOp × Cursor)) → read_op r ≡ x
        → ran_out x ≡ false
        → ran_out (
            after {B = List MerkOp} (after {B = Option MerkOp} x (λ op. pure (some op))) (λ o.
              elim o as (λ _. Read (List MerkOp)) [
                | none ↦ pure []
                | some op ↦ decode_all fuel >>= λ ops. pure (op ∷ ops)
              ]))
          ≡ false
    go more rest (err x) e h = h
    go more rest (ok (op, s)) e h =
        let m = read_op-advances r s op e in
        let size : length s.input ≡ length r.input = ap length m.input in
        let one : r.offset + 1 ≤ length r.input = ground (arith, more) in
        cons-ends op (decode_all fuel s)
          (rest s (omega (arith, size, m.inside one)) (omega (arith, size, m.forward)))

-- The fuel of `decode_merk_ops` is enough: on any bytes the loop ends by itself, in a list of
-- operations or in one of the exceptions of the code.
pub decode_merk_ops-ends : (input : Bytes) → decode_merk_ops input ≢ err out_of_fuel
unfolding decode_merk_ops
decode_merk_ops-ends input e =
    go (decode_all (length input + 1) (start input))
      (decode_all-ends _ (start input) (omega arith) (omega arith)) e
  where
    go : (x : Result (List MerkOp × Cursor)) → ran_out x ≡ false → result_of x ≢ err out_of_fuel
    go (ok (ops, r)) h e' = cc
    go (err y) h e' = cc (ap ran_out e', h)
