-- ===== src/Merk/Decoder/Sized.antt =====
-- src/willow/grovedb/merk_decoder.py: the hashes of the nodes that the decoder reads.
use willow_sdk_python.Prelude.{
  ℕ, suc, zero, ◌+◌, ◌≡◌, refl, ap, sym, ◌∙◌, subst, arith, Bool, true, false, Bool-cases, inl, inr,
  Option, none, some, List, [], ◌∷◌, Bytes, All, length, drop, length-take, length-drop, ltb,
  if◌then◌else◌,
}
use willow_sdk_python.Prelude.Result.{Error, Result, ok, err, ok-injective}
use willow_sdk_python.Cursor.{
  Cursor, Read, after, ◌>>=◌, pure, raise, start, has_more, read_u8, read_raw_bytes,
}
use willow_sdk_python.Merk.Nodes.{MerkNode, hash_node, kv_hash_node, MerkOp, push, push_inverted}
use willow_sdk_python.Merk.Shape.{SizedNode}
use willow_sdk_python.Merk.Executor.Shown.{SizedOp}
use willow_sdk_python.Merk.Decoder.{
  decode_hash, decode_kv_hash, decode_kv, decode_kv_value_hash, decode_kv_digest,
  decode_kv_ref_value_hash, decode_kv_value_hash_feature_type, pushed, pushed_inverted,
  decode_inverted, decode_op, read_op, next, decode_all, decode_merk_ops, result_of,
}

-- Whatever an action reads has a property.
pub record Yields {ℓ κ} {A : Type ℓ} (P : A → Type κ) (m : Read A) : Type (ℓ ⊔ κ) where
  pub run : (r r' : Cursor) (a : A) → m r ≡ ok (a, r') → P a

module _ {ℓ κ} {A : Type ℓ} (P : A → Type κ) where
  Yields-pure : (a : A) → P a → Yields P (pure a)
  unfolding pure
  Yields-pure a h = record {
    run = λ r r' b e. subst P (ap (λ (p : A × Cursor). p.0) (ok-injective e)) h;
  }

  Yields-raise : (x : Error) → Yields P (raise x)
  unfolding raise
  Yields-raise x = record { run = λ r r' b e. cc }

  Yields-if : (b : Bool) (m n : Read A) → Yields P m → Yields P n → Yields P (if b then m else n)
  Yields-if true m n hm hn = hm
  Yields-if false m n hm hn = hn

  module _ {μ} {B : Type μ} where
    at_after :
        (x : Result (B × Cursor)) (f : B → Read A) (r' : Cursor) (a : A)
        → ((b : B) (s : Cursor) → x ≡ ok (b, s) → Yields P (f b))
        → after x f ≡ ok (a, r')
        → P a
    at_after (ok (b, s)) f r' a h e = (h b s refl).run s r' a e
    at_after (err x) f r' a h e = cc

    Yields-bind : (m : Read B) (f : B → Read A) → ((b : B) → Yields P (f b)) → Yields P (m >>= f)
    unfolding ◌>>=◌
    Yields-bind m f h = record { run = λ r r' a e. at_after (m r) f r' a (λ b s q. h b) e }

    Yields-then {ν} :
        (Q : B → Type ν) (m : Read B) (f : B → Read A)
        → Yields Q m
        → ((b : B) → Q b → Yields P (f b))
        → Yields P (m >>= f)
    unfolding ◌>>=◌
    Yields-then Q m f hm h = record {
      run = λ r r' a e. at_after (m r) f r' a (λ b s q. h b (hm.run r s b q)) e;
    }

abbrev IsHash : Bytes → Type 0
IsHash h = length h ≡ 32

Yields-read_raw_bytes : Yields IsHash (read_raw_bytes 32)
unfolding read_raw_bytes
Yields-read_raw_bytes = record {
  run = λ r r' a e. elim (Bool-cases (ltb (length r.input) (r.offset + 32))) [
    | inl short ↦ cc (rw (read_raw_bytes, short) at e)
    | inr enough ↦
        let same =
          ap (λ (p : Bytes × Cursor). p.0) (ok-injective (rw (read_raw_bytes, enough) at e)) in
        ap length (sym same)
        ∙ ground (arith, length-take 32 (drop r.offset r.input), length-drop r.offset r.input)
  ];
}

ruleset read_rules = (Yields-pure, Yields-raise, Yields-if, Yields-bind)

Yields-decode_hash : Yields SizedNode decode_hash
unfolding decode_hash
Yields-decode_hash =
    Yields-then SizedNode IsHash (read_raw_bytes 32) _ Yields-read_raw_bytes
      (λ h z. Yields-pure SizedNode (hash_node h) z)

Yields-decode_kv_hash : Yields SizedNode decode_kv_hash
unfolding decode_kv_hash
Yields-decode_kv_hash =
    Yields-then SizedNode IsHash (read_raw_bytes 32) _ Yields-read_raw_bytes
      (λ h z. Yields-pure SizedNode (kv_hash_node h) z)

Yields-decode_kv : (large : Bool) → Yields SizedNode (decode_kv large)
unfolding decode_kv
Yields-decode_kv large = search read_rules

Yields-decode_kv_value_hash : (large : Bool) → Yields SizedNode (decode_kv_value_hash large)
unfolding decode_kv_value_hash
Yields-decode_kv_value_hash large = search read_rules

Yields-decode_kv_digest : Yields SizedNode decode_kv_digest
unfolding decode_kv_digest
Yields-decode_kv_digest = search read_rules

Yields-decode_kv_ref_value_hash : (large : Bool) → Yields SizedNode (decode_kv_ref_value_hash large)
unfolding decode_kv_ref_value_hash
Yields-decode_kv_ref_value_hash large = Yields-bind SizedNode _ _ (λ key.
    Yields-bind SizedNode _ _ (λ value.
      Yields-then SizedNode IsHash (read_raw_bytes 32) _ Yields-read_raw_bytes
        (λ h z. Yields-pure SizedNode _ z)))

Yields-decode_kv_value_hash_feature_type :
    (large : Bool) → Yields SizedNode (decode_kv_value_hash_feature_type large)
unfolding decode_kv_value_hash_feature_type
Yields-decode_kv_value_hash_feature_type large = search read_rules depth 8

Yields-pushed : (m : Read MerkNode) → Yields SizedNode m → Yields SizedOp (pushed m)
Yields-pushed m h = Yields-then SizedOp SizedNode m _ h (λ n z. Yields-pure SizedOp (push n) z)

Yields-pushed_inverted :
    (m : Read MerkNode) → Yields SizedNode m → Yields SizedOp (pushed_inverted m)
Yields-pushed_inverted m h =
    Yields-then SizedOp SizedNode m _ h (λ n z. Yields-pure SizedOp (push_inverted n) z)

ruleset node_rules = (
  read_rules, Yields-pushed, Yields-pushed_inverted, Yields-decode_hash, Yields-decode_kv_hash,
  Yields-decode_kv, Yields-decode_kv_value_hash, Yields-decode_kv_digest,
  Yields-decode_kv_ref_value_hash, Yields-decode_kv_value_hash_feature_type,
)

Yields-decode_inverted : (op_code : ℕ) → Yields SizedOp (decode_inverted op_code)
unfolding decode_inverted
Yields-decode_inverted op_code = search node_rules depth 20

Yields-decode_op : (op_code : ℕ) → Yields SizedOp (decode_op op_code)
unfolding decode_op
Yields-decode_op op_code = search (node_rules, Yields-decode_inverted) depth 20

Yields-read_op : Yields SizedOp read_op
unfolding read_op
Yields-read_op = Yields-bind SizedOp read_u8 _ Yields-decode_op

abbrev SizedNext : Option MerkOp → Type 0
SizedNext none = Unit {0}
SizedNext (some op) = SizedOp op

Yields-next : Yields SizedNext next
unfolding next
Yields-next = record {
  run = λ r r' o e. elim (Bool-cases (has_more r)) [
    | inl more ↦
        (Yields-then SizedNext SizedOp read_op _ Yields-read_op
            (λ op z. Yields-pure SizedNext (some op) z)).run
          r r' o (rw (next, more) at e)
    | inr done ↦
        subst SizedNext
          (ap (λ (p : Option MerkOp × Cursor). p.0) (ok-injective (rw (next, done) at e))) tt
  ];
}

Yields-decode_all : (fuel : ℕ) → Yields (All SizedOp) (decode_all fuel)
unfolding decode_all
Yields-decode_all zero = Yields-raise (All SizedOp) _
Yields-decode_all (suc fuel) =
    Yields-then (All SizedOp) SizedNext next _ Yields-next (at (Yields-decode_all fuel))
  where
    at :
        Yields (All SizedOp) (decode_all fuel)
        → (o : Option MerkOp) → SizedNext o
        → Yields (All SizedOp) (elim o as (λ _. Read (List MerkOp)) [
          | none ↦ pure []
          | some op ↦ decode_all fuel >>= λ ops. pure (op ∷ ops)
        ])
    at rec none z = Yields-pure (All SizedOp) [] tt
    at rec (some op) z =
        Yields-then (All SizedOp) (All SizedOp) (decode_all fuel) _ rec
          (λ ops zs. Yields-pure (All SizedOp) (op ∷ ops) (z, zs))

-- Every operation that is decoded from bytes has hashes of 32 bytes.
pub decode_merk_ops-Sized :
    (input : Bytes) (ops : List MerkOp) → decode_merk_ops input ≡ ok ops → All SizedOp ops
unfolding decode_merk_ops
decode_merk_ops-Sized input ops e = go (decode_all (length input + 1) (start input)) refl e
  where
    go :
        (x : Result (List MerkOp × Cursor))
        → decode_all (length input + 1) (start input) ≡ x
        → result_of x ≡ ok ops
        → All SizedOp ops
    go (ok (os, r)) p h =
        subst (All SizedOp) (ok-injective h)
          ((Yields-decode_all (length input + 1)).run (start input) r os p)
    go (err x) p h = cc
