-- ===== src/Merk/Executor/Shown.antt =====
-- src/willow/grovedb/executor.py, `execute_ops`: the tree that an execution ends with, and the nodes
-- that it showed on the way, most of which a collapse drops from the tree.
use willow_sdk_python.Prelude.{
  All-imp, All-snoc, ◌≡◌, refl, ◌⊎◌, inl, inr, subst, Bool, true, false, Bool-cases, List, [], ◌∷◌,
  Bytes, All,
}
use willow_sdk_python.Prelude.Result.{ok, ok-injective, >>=-eq-ok}
use willow_sdk_python.Merk.Nodes.{MerkNode, MerkOp, push, push_inverted, key_of}
use willow_sdk_python.Merk.Tree.{
  Tree, tree_hash, hash_of, into_hash, attach_with_height, leaf, height_of,
}
use willow_sdk_python.Merk.Shape.{
  SizedNode, AllSized, Shape, absent, node, Shows, HashesTo, Rep, Rep-leaf, Rep-HashesTo,
}
use willow_sdk_python.Merk.Shape.Attach.{SameHash, attach-Attached}
use willow_sdk_python.Merk.Executor.{
  Machine, initial, push_node, breaks_order, collapsed, join, join_parent, join_child, step, run,
  is_unbalanced, finish, execute_ops,
}

abbrev pub ShowsAny : MerkNode → List Shape → Type 0
ShowsAny n [] = ⊥
ShowsAny n (s ∷ ss) = Shows n s ⊎ ShowsAny n ss

-- The node that an operation pushes has hashes of the right length.
abbrev pub SizedOp : MerkOp → Type 0
SizedOp (push n) = SizedNode n
SizedOp (push_inverted n) = SizedNode n
SizedOp op = Unit {0}

module _ (blake3 : Bytes → Bytes) where
  pub data Reps : List Tree → List Shape → Type 0 where
    no_reps : Reps [] []
    and_rep :
        (t : Tree) (s : Shape) (ts : List Tree) (ss : List Shape)
        → Rep blake3 t s
        → Reps ts ss
        → Reps (t ∷ ts) (s ∷ ss)

  -- The trees on the stack stand for shapes that show every node visited.
  pub record Covers (m : Machine) : Type 0 where
    pub shapes : List Shape
    pub reps : Reps m.stack shapes
    pub shown : All (λ (n : MerkNode). ShowsAny n shapes) m.visited
    pub sized : All AllSized shapes

  collapsed-SameHash :
      (collapse : Bool) (t t' : Tree) (s : Shape)
      → Rep blake3 t s
      → collapsed blake3 collapse t ≡ ok t'
      → SameHash blake3 t' s
  unfolding collapsed into_hash tree_hash hash_of
  collapsed-SameHash false t t' s r e h e' = Rep-HashesTo blake3 h r (rw (ok-injective e) e')
  collapsed-SameHash true t t' s r e h e' =
      let (k, computed, same) = >>=-eq-ok (tree_hash blake3 t) _ e in
      let at : k ≡ h = ok-injective (rw (← ok-injective same) at e') in
      subst (HashesTo blake3 s) at (Rep-HashesTo blake3 k r computed)

  push-Covers :
      (inverted : Bool) (n : MerkNode) (m m' : Machine)
      → SizedNode n
      → Covers m
      → push_node blake3 inverted n m ≡ ok m'
      → Covers m'
  unfolding push_node
  push-Covers inverted n m m' z c e =
      elim (Bool-cases (breaks_order inverted (key_of n) m.last_key)) [
        | inl bad ↦ cc (rw (push_node, bad) at e)
        | inr good ↦ subst Covers (ok-injective (rw (push_node, good) at e)) (record {
          shapes = node n absent absent ∷ c.shapes;
          reps =
              and_rep (leaf n) (node n absent absent) m.stack c.shapes (Rep-leaf blake3 n) c.reps;
          shown =
              All-snoc (λ k. ShowsAny k (node n absent absent ∷ c.shapes)) m.visited n
                (All-imp m.visited (λ k h. inr h) c.shown) (inl (inl refl));
          sized = ((z, tt, tt), c.sized);
        })
      ]

  abbrev Joins : List Shape → Shape → List Shape → Type 0
  Joins ss s rest = (n : MerkNode) → ShowsAny n ss → Shows n s ⊎ ShowsAny n rest

  join-Covers :
      (collapse left : Bool) (parent child : Tree) (later : List Tree) (m m' : Machine)
      (sp sc : Shape) (ss all : List Shape)
      → Rep blake3 parent sp
      → Rep blake3 child sc
      → Reps later ss
      → AllSized sp
      → AllSized sc
      → All AllSized ss
      → All (λ (n : MerkNode). ShowsAny n all) m.visited
      → ((n : MerkNode) → ShowsAny n all → Shows n sp ⊎ (Shows n sc ⊎ ShowsAny n ss))
      → join blake3 collapse left parent child later m ≡ ok m'
      → Covers m'
  unfolding join
  join-Covers collapse left parent child later m m' sp sc ss all rp rc rs zp zc zs shown split e =
      let (child', r1, e1) = >>=-eq-ok (collapsed blake3 collapse child) _ e in
      let (joined, r2, e2) =
        >>=-eq-ok (attach_with_height blake3 left parent child' (height_of child')) _ e1 in
      let a =
        attach-Attached blake3 left parent child' joined sp sc (height_of child') rp
          (collapsed-SameHash collapse child child' sc rc r1) r2 in
      subst Covers (ok-injective e2) (record {
        shapes = a.shape ∷ ss;
        reps = and_rep joined a.shape later ss a.stands rs;
        shown =
            All-imp m.visited
              (λ n h. elim (split n h) [
                | inl p ↦ inl (a.keeps n p)
                | inr (inl c) ↦ inl (a.adds n c)
                | inr (inr o) ↦ inr o
              ])
              shown;
        sized = (a.sized zp zc, zs);
      })

  join_parent-Covers :
      (collapse left : Bool) (ts : List Tree) (ss : List Shape) (m m' : Machine)
      → Reps ts ss
      → All AllSized ss
      → All (λ (n : MerkNode). ShowsAny n ss) m.visited
      → join_parent blake3 collapse left ts m ≡ ok m'
      → Covers m'
  unfolding join_parent
  join_parent-Covers collapse left (p ∷ c ∷ ts) all m m'
        (and_rep _ sp _ _ rp (and_rep _ sc _ ss rc rs)) (zp, (zc, zs)) shown e =
      join-Covers collapse left p c ts m m' sp sc ss (sp ∷ sc ∷ ss) rp rc rs zp zc zs shown
        (λ n h. h) e
  join_parent-Covers collapse left (p ∷ []) ss m m' r z shown e = cc
  join_parent-Covers collapse left [] ss m m' r z shown e = cc

  join_child-Covers :
      (collapse left : Bool) (ts : List Tree) (ss : List Shape) (m m' : Machine)
      → Reps ts ss
      → All AllSized ss
      → All (λ (n : MerkNode). ShowsAny n ss) m.visited
      → join_child blake3 collapse left ts m ≡ ok m'
      → Covers m'
  unfolding join_child
  join_child-Covers collapse left (c ∷ p ∷ ts) all m m'
        (and_rep _ sc _ _ rc (and_rep _ sp _ ss rp rs)) (zc, (zp, zs)) shown e =
      join-Covers collapse left p c ts m m' sp sc ss (sc ∷ sp ∷ ss) rp rc rs zp zc zs shown
        (λ n h. elim h [ inl x ↦ inr (inl x) | inr (inl x) ↦ inl x | inr (inr x) ↦ inr (inr x) ]) e
  join_child-Covers collapse left (p ∷ []) ss m m' r z shown e = cc
  join_child-Covers collapse left [] ss m m' r z shown e = cc

  step-Covers :
      (collapse : Bool) (op : MerkOp) (m m' : Machine)
      → SizedOp op
      → Covers m
      → step blake3 collapse op m ≡ ok m'
      → Covers m'
  unfolding step
  step-Covers collapse (push n) m m' z c e = push-Covers false n m m' z c e
  step-Covers collapse (push_inverted n) m m' z c e = push-Covers true n m m' z c e
  step-Covers collapse MerkOp.parent m m' z c e =
      join_parent-Covers collapse true m.stack c.shapes m m' c.reps c.sized c.shown e
  step-Covers collapse MerkOp.child m m' z c e =
      join_child-Covers collapse false m.stack c.shapes m m' c.reps c.sized c.shown e
  step-Covers collapse MerkOp.parent_inverted m m' z c e =
      join_parent-Covers collapse false m.stack c.shapes m m' c.reps c.sized c.shown e
  step-Covers collapse MerkOp.child_inverted m m' z c e =
      join_child-Covers collapse true m.stack c.shapes m m' c.reps c.sized c.shown e

  run-Covers :
      (collapse : Bool) (ops : List MerkOp) (m m' : Machine)
      → All SizedOp ops
      → Covers m
      → run blake3 collapse ops m ≡ ok m'
      → Covers m'
  unfolding run
  run-Covers collapse [] m m' z c e = subst Covers (ok-injective e) c
  run-Covers collapse (op ∷ ops) m m' (z, zs) c e =
      let (m1, r, e1) = >>=-eq-ok (step blake3 collapse op m) _ e in
      run-Covers collapse ops m1 m' zs (step-Covers collapse op m m1 z c r) e1

  -- What an execution says of its tree and of the nodes that it showed.
  pub record Executed (t : Tree) (visited : List MerkNode) : Type 0 where
    pub shape : Shape
    pub hash : (h : Bytes) → tree_hash blake3 t ≡ ok h → HashesTo blake3 shape h
    pub shown : All (λ (n : MerkNode). Shows n shape) visited
    pub sized : AllSized shape

  one_left :
      (ts : List Tree) (ss : List Shape) (t : Tree) (visited : List MerkNode)
      → Reps ts ss
      → All AllSized ss
      → All (λ (n : MerkNode). ShowsAny n ss) visited
      → finish blake3 ts ≡ ok t
      → Executed t visited
  unfolding finish
  one_left (u ∷ []) all t visited (and_rep _ s _ _ r no_reps) (z, zs) shown e =
      elim (Bool-cases (is_unbalanced blake3 u)) [
        | inl bad ↦ cc (rw (finish, bad) at e)
        | inr good ↦
            let same : u ≡ t = ok-injective (rw (finish, good) at e) in
            record {
              shape = s;
              hash = λ h e'. Rep-HashesTo blake3 h r (rw same e');
              shown = All-imp visited (λ n h. elim h [ inl x ↦ x | inr x ↦ absurd x ]) shown;
              sized = z;
            }
      ]
  one_left [] ss t visited r z shown e = cc
  one_left (u ∷ v ∷ ts) ss t visited r z shown e = cc

  -- An execution of operations whose hashes are 32 bytes that succeeds, with or without the collapse of
  -- children, ends in a tree whose hash is that of a shape that shows every node visited.
  pub execute_ops-Executed :
      (collapse : Bool) (ops : List MerkOp) (t : Tree) (visited : List MerkNode)
      → All SizedOp ops
      → execute_ops blake3 collapse ops ≡ ok (t, visited)
      → Executed t visited
  unfolding execute_ops
  execute_ops-Executed collapse ops t visited z e =
      let (m, r1, e1) = >>=-eq-ok (run blake3 collapse ops initial) _ e in
      let (u, r2, e2) = >>=-eq-ok (finish blake3 m.stack) _ e1 in
      let c =
        run-Covers collapse ops initial m z
          (record { shapes = []; reps = no_reps; shown = tt; sized = tt }) r1 in
      let x = one_left m.stack c.shapes u m.visited c.reps c.sized c.shown r2 in
      let same = ok-injective e2 in subst (λ (p : Tree × List MerkNode). Executed p.0 p.1) same x
