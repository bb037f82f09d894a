-- ===== src/Merk/Shape/Attach.antt =====
-- src/willow/grovedb/tree.py, `attach`: the shape of a tree that takes a child.
use willow_sdk_python.Prelude.{
  ℕ, ◌≡◌, inl, inr, subst, Bool, true, false, Bool-cases, Bytes, if◌then◌else◌,
}
use willow_sdk_python.Prelude.Result.{ok, ok-injective, >>=-eq-ok}
use willow_sdk_python.Merk.Nodes.{MerkNode}
use willow_sdk_python.Merk.Tree.{
  Tree, no_child, some_child, is_hash_node, tree_hash, attach_with_height,
}
use willow_sdk_python.Merk.Shape.{AllSized, Shape, absent, node, Shows, HashesTo, Rep, rep}

-- A shape with another below it, on either side.
abbrev hang : Bool → MerkNode → Shape → Shape → Shape → Shape
hang true n sl sr sc = node n sc sr
hang false n sl sr sc = node n sl sc

Shows-hang_parent :
    (left : Bool) (m n : MerkNode) (sl sr sc : Shape)
    → (if left then sl else sr) ≡ absent
    → Shows m (node n sl sr)
    → Shows m (hang left n sl sr sc)
Shows-hang_parent true m n sl sr sc e (inl same) = inl same
Shows-hang_parent true m n sl sr sc e (inr (inl l)) = absurd (subst (Shows m) e l)
Shows-hang_parent true m n sl sr sc e (inr (inr r)) = inr (inr r)
Shows-hang_parent false m n sl sr sc e (inl same) = inl same
Shows-hang_parent false m n sl sr sc e (inr (inl l)) = inr (inl l)
Shows-hang_parent false m n sl sr sc e (inr (inr r)) = absurd (subst (Shows m) e r)

Shows-hang_child :
    (left : Bool) (m n : MerkNode) (sl sr sc : Shape) → Shows m sc → Shows m (hang left n sl sr sc)
Shows-hang_child true m n sl sr sc h = inr (inl h)
Shows-hang_child false m n sl sr sc h = inr (inr h)

module _ (blake3 : Bytes → Bytes) where
  -- A tree has the hash of a shape, whatever it keeps of it.
  abbrev pub SameHash : Tree → Shape → Type 0
  SameHash t s = (h : Bytes) → tree_hash blake3 t ≡ ok h → HashesTo blake3 s h

  -- What a success of `attach_with_height` makes of the shapes.
  pub record Attached (left : Bool) (parent joined : Tree) (sp sc : Shape) : Type 0 where
    pub shape : Shape
    pub stands : Rep blake3 joined shape
    pub keeps : (n : MerkNode) → Shows n sp → Shows n shape
    pub adds : (n : MerkNode) → Shows n sc → Shows n shape
    pub sized : AllSized sp → AllSized sc → AllSized shape

  pub attach-Attached :
      (left : Bool) (parent child joined : Tree) (sp sc : Shape) (height : ℕ)
      → Rep blake3 parent sp
      → SameHash child sc
      → attach_with_height blake3 left parent child height ≡ ok joined
      → Attached left parent joined sp sc
  unfolding attach_with_height
  attach-Attached true parent child joined sp sc height (rep n no_child r h hl hr sl sr pl pr) hash
        e =
      elim (Bool-cases (is_hash_node blake3 n)) [
        | inl opaque ↦ cc (rw (attach_with_height, opaque) at e)
        | inr other ↦
            let (k, computed, same) =
              >>=-eq-ok (tree_hash blake3 child) _ (rw (attach_with_height, other) at e) in
            record {
              shape = node n sc sr;
              stands =
                  subst (λ (t : Tree). Rep blake3 t (node n sc sr)) (ok-injective same)
                    (rep n (some_child child k) r _ _ _ sc sr (hash k computed) pr);
              keeps = λ m. Shows-hang_parent true m n sl sr sc pl;
              adds = λ m. Shows-hang_child true m n sl sr sc;
              sized = λ p c. (p.0, c, p.2);
            }
      ]
  attach-Attached true parent child joined sp sc height
        (rep n (some_child t j) r h hl hr sl sr pl pr) hash e =
      elim (Bool-cases (is_hash_node blake3 n)) [
        | inl opaque ↦ cc (rw (attach_with_height, opaque) at e)
        | inr other ↦ cc (rw (attach_with_height, other) at e)
      ]
  attach-Attached false parent child joined sp sc height (rep n l no_child h hl hr sl sr pl pr) hash
        e =
      elim (Bool-cases (is_hash_node blake3 n)) [
        | inl opaque ↦ cc (rw (attach_with_height, opaque) at e)
        | inr other ↦
            let (k, computed, same) =
              >>=-eq-ok (tree_hash blake3 child) _ (rw (attach_with_height, other) at e) in
            record {
              shape = node n sl sc;
              stands =
                  subst (λ (t : Tree). Rep blake3 t (node n sl sc)) (ok-injective same)
                    (rep n l (some_child child k) _ _ _ sl sc pl (hash k computed));
              keeps = λ m. Shows-hang_parent false m n sl sr sc pr;
              adds = λ m. Shows-hang_child false m n sl sr sc;
              sized = λ p c. (p.0, p.1, c);
            }
      ]
  attach-Attached false parent child joined sp sc height
        (rep n l (some_child t j) h hl hr sl sr pl pr) hash e =
      elim (Bool-cases (is_hash_node blake3 n)) [
        | inl opaque ↦ cc (rw (attach_with_height, opaque) at e)
        | inr other ↦ cc (rw (attach_with_height, other) at e)
      ]
