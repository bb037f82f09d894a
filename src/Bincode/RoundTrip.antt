-- ===== src/Bincode/RoundTrip.antt =====
-- src/willow/grovedb/bincode.py, `decode_grovedb_proof`, on the encodings of Bincode/Encode.
use willow_sdk_python.Prelude.{
  ℕ, zero, suc, ◌≤◌, ◌≡◌, refl, ap, ◌∙◌, arith, Bool, not, ◌++◌, Bytes, length, length-append,
  append-nil, ltb, ◌==◌, if◌then◌else◌,
}
use willow_sdk_python.Prelude.Result.{ok, err, bad_version, trailing_bytes}
use willow_sdk_python.Hash.{bytes_to_hex}
use willow_sdk_python.Cursor.{Read, ◌>>=◌, ◌>>◌, pure, refuse_if, advance, start, has_more}
use willow_sdk_python.Cursor.Reads.{Reads, Reads-pure, Reads-bind, Reads-refuse_if}
use willow_sdk_python.Bincode.{
  read_varint, read_bytes, Layers, layer, no_layers, put_layer, decode_layers, decode_layer_proof,
  decode_prove_options, decode_grovedb_proof_v0, GroveDbProof, at_end, decode_grovedb_proof,
}
use willow_sdk_python.Bincode.Encode.{
  ProofTree, Children, width_of, node, none', child, count_children, put_varint, put_bool, put_tree,
  put_children, layer_of, layers_of, depth, depth_below, IsTree, AreTrees,
}
use willow_sdk_python.Bincode.Integers.{
  Reads-code, Reads-u64, Reads-read_bytes, Reads-read_bool, Reads-read_varint,
}

mutual
  unfolding put_tree layer_of depth decode_layer_proof decode_layers

  Reads-decode_layer_proof :
      (levels : ℕ) (t : ProofTree)
      → IsTree t
      → depth t ≤ levels
      → Reads (decode_layer_proof levels) (layer_of t) (put_tree t)
  Reads-decode_layer_proof zero (node merk ts) w h = absurd (omega arith)
  Reads-decode_layer_proof (suc levels) (node merk ts) (merk_fits, count_fits, w) h =
      Reads-bind read_bytes _ (Reads-read_bytes merk merk_fits) (
        Reads-bind (read_varint 8) _ (Reads-u64 (count_children ts) count_fits) (
          Reads-code (append-nil (put_children ts)) (
            Reads-bind _ _ (Reads-decode_layers levels ts no_layers w (omega arith))
              (Reads-pure (layer merk (layers_of ts no_layers))))))

  Reads-decode_layers :
      (levels : ℕ) (ts : Children) (ls : Layers)
      → AreTrees ts
      → depth_below ts ≤ levels
      → Reads
          (decode_layers (decode_layer_proof levels) (count_children ts) ls)
          (layers_of ts ls)
          (put_children ts)
  Reads-decode_layers levels none' ls w h = Reads-pure ls
  Reads-decode_layers levels (child key t ts) ls (key_fits, wt, w) h =
      Reads-bind read_bytes _ (Reads-read_bytes key key_fits) (
        Reads-bind _ _ (Reads-decode_layer_proof levels t wt (omega arith)) (
          Reads-decode_layers levels ts (put_layer (bytes_to_hex key) (layer_of t) ls) w
            (omega arith)))

-- The encoding of a proof of version 0.
abbrev pub put_proof : ProofTree → Bool → Bytes
put_proof t flag = put_varint 0 ++ (put_tree t ++ put_bool flag)

abbrev pub proof_of : ProofTree → Bool → GroveDbProof
proof_of t flag = record {
  version = 0;
  proof = record {
    root_layer = layer_of t;
    prove_options = record { decrease_limit_on_empty_sub_query_result = flag };
  };
}

Reads-prove_options :
    (flag : Bool)
    → Reads decode_prove_options
        (record { decrease_limit_on_empty_sub_query_result = flag })
        (put_bool flag)
unfolding decode_prove_options
Reads-prove_options flag = Reads-code (append-nil (put_bool flag)) (
    Reads-bind _ _ (Reads-read_bool flag)
      (Reads-pure (record { decrease_limit_on_empty_sub_query_result = flag })))

Reads-proof_v0 :
    (t : ProofTree) (flag : Bool)
    → IsTree t
    → depth t ≤ 65
    → Reads decode_grovedb_proof_v0 (proof_of t flag).proof (put_tree t ++ put_bool flag)
unfolding decode_grovedb_proof_v0
Reads-proof_v0 t flag w h = Reads-bind _ _ (Reads-decode_layer_proof 65 t w h) (
    Reads-code (append-nil (put_bool flag))
      (Reads-bind _ _ (Reads-prove_options flag) (Reads-pure (proof_of t flag).proof)))

abbrev pub read_proof : Read GroveDbProof
read_proof = do
  variant ← read_varint 4
  refuse_if (not (variant == 0)) bad_version
  proof ← decode_grovedb_proof_v0
  pure (record { version = 0; proof = proof })

Reads-proof :
    (t : ProofTree) (flag : Bool)
    → IsTree t
    → depth t ≤ 65
    → Reads read_proof (proof_of t flag) (put_proof t flag)
Reads-proof t flag w h =
    Reads-bind (read_varint 4) _
      (Reads-read_varint 4 0 (omega arith) (unfold width_of in (omega arith)))
      (Reads-bind _ _ (Reads-refuse_if _ _ refl) (
        Reads-code (append-nil (put_tree t ++ put_bool flag))
          (Reads-bind _ _ (Reads-proof_v0 t flag w h) (Reads-pure (proof_of t flag)))))

pub at_end-run :
    {A : Type 0} (p : A) (code tail : Bytes)
    → at_end (ok (p, advance (length code) (start (code ++ tail))))
      ≡ (if ltb 0 (length tail) then err trailing_bytes else ok p)
unfolding at_end has_more
at_end-run p code tail = ground (arith, length-append code tail)

-- A proof tree within the reader's limits that nests at most 65 layers is read back from its
-- encoding, and the encoding with any bytes behind it is refused.
pub decode_grovedb_proof-put_proof :
    (t : ProofTree) (flag : Bool) (tail : Bytes)
    → IsTree t
    → depth t ≤ 65
    → decode_grovedb_proof (put_proof t flag ++ tail)
      ≡ (if ltb 0 (length tail) then err trailing_bytes else ok (proof_of t flag))
unfolding decode_grovedb_proof
decode_grovedb_proof-put_proof t flag tail w h =
    ap at_end
      ((Reads-proof t flag w h).run (start (put_proof t flag ++ tail)) tail (omega arith) refl)
    ∙ at_end-run (proof_of t flag) (put_proof t flag) tail
