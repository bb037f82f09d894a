-- ===== src/Merk/Executor/Ordering.antt =====
-- src/willow/grovedb/executor.py, `execute_ops`: the check on the key that each push makes, and the
-- keys of the nodes visited.
use willow_sdk_python.Prelude.{
  zero, suc, ◌≡◌, ◌⊎◌, inl, inr, ap, sym, subst, ◌∙◌, Bool, true, false, Option, none, some, List,
  [], ◌∷◌, ◌++◌, Bytes, Bool-cases, append_assoc, append-nil,
}
use willow_sdk_python.Prelude.Int.{ℤ, pos, negsuc}
use willow_sdk_python.Prelude.Result.{ok, >>=-eq-ok, ok-injective}
use willow_sdk_python.Merk.Nodes.{MerkNode, MerkOp, push, push_inverted, key_of}
use willow_sdk_python.Merk.Tree.{Tree, compare_bytes, attach_with_height, height_of}
use willow_sdk_python.Merk.Tree.Order.{Less, Says, compare_bytes-Says}
use willow_sdk_python.Merk.Executor.{
  Machine, initial, breaks_order, or_last, le_zero, push_node, join, join_parent, join_child,
  collapsed, step, run, finish, execute_ops,
}

-- No operation is an inverted push.
abbrev pub is_forward : MerkOp → Bool
is_forward (push_inverted n) = false
is_forward op = true

abbrev pub AllForward : List MerkOp → Type 0
AllForward [] = Unit {0}
AllForward (op ∷ ops) = (is_forward op ≡ true) × AllForward ops

-- Above the last key, if there is one.
abbrev pub Above : Option Bytes → Bytes → Type 0
Above none key = Unit {0}
Above (some last) key = Less last key

-- The keys of the nodes, above a last key and strictly ascending.
abbrev pub AscendingFrom : Option Bytes → Option Bytes → Type 0
AscendingFrom last none = Unit {0}
AscendingFrom last (some key) = Above last key

abbrev pub Ascending : Option Bytes → List MerkNode → Type 0
Ascending last [] = Unit {0}
Ascending last (n ∷ ns) = AscendingFrom last (key_of n) × Ascending (or_last (key_of n) last) ns

not_le_zero : (a b : Bytes) → le_zero (compare_bytes a b) ≡ false → Less b a
not_le_zero a b h = go (compare_bytes a b) (compare_bytes-Says a b) h
  where
    go : (z : ℤ) → Says a b z → le_zero z ≡ false → Less b a
    go (negsuc n) s e = cc
    go (pos zero) s e = cc
    go (pos (suc n)) s e = s

kept_order :
    (key last : Option Bytes) → breaks_order false key last ≡ false → AscendingFrom last key
kept_order none last h = tt
kept_order (some key) none h = tt
kept_order (some key) (some last) h = not_le_zero key last h

-- A step shows one node, in order, or none and keeps the last key.
abbrev pub OneNode : Machine → Machine → MerkNode → Type 0
OneNode m m' n =
    AscendingFrom m.last_key (key_of n)
    × (m'.last_key ≡ or_last (key_of n) m.last_key)
    × (m'.visited ≡ m.visited ++ (n ∷ []))

abbrev pub NoNode : Machine → Machine → Type 0
NoNode m m' = (m'.last_key ≡ m.last_key) × (m'.visited ≡ m.visited)

module _ (blake3 : Bytes → Bytes) (collapse : Bool) where
  push-OneNode :
      (n : MerkNode) (m m' : Machine) → push_node blake3 false n m ≡ ok m' → OneNode m m' n
  unfolding push_node
  push-OneNode n m m' e = elim (Bool-cases (breaks_order false (key_of n) m.last_key)) [
    | inl bad ↦ cc (rw bad at e)
    | inr good ↦
        let same = ok-injective (rw good at e) in
        let order = kept_order (key_of n) m.last_key good in
        (
          order,
          sym (ap (λ (x : Machine). x.last_key) same),
          sym (ap (λ (x : Machine). x.visited) same),
        )
  ]

  join-NoNode :
      (left : Bool) (t u : Tree) (ts : List Tree) (m m' : Machine)
      → join blake3 collapse left t u ts m ≡ ok m'
      → NoNode m m'
  unfolding join
  join-NoNode left t u ts m m' e =
      let (attached, r1, e1) = >>=-eq-ok (collapsed blake3 collapse u) _ e in
      let (joined, r2, e2) =
        >>=-eq-ok (attach_with_height blake3 left t attached (height_of attached)) _ e1 in
      let same = ok-injective e2 in
      (sym (ap (λ (x : Machine). x.last_key) same), sym (ap (λ (x : Machine). x.visited) same))

  join_parent-NoNode :
      (left : Bool) (ts : List Tree) (m m' : Machine)
      → join_parent blake3 collapse left ts m ≡ ok m'
      → NoNode m m'
  unfolding join_parent
  join_parent-NoNode left (t ∷ u ∷ ts) m m' e = join-NoNode left t u ts m m' e
  join_parent-NoNode left (t ∷ []) m m' e = cc
  join_parent-NoNode left [] m m' e = cc

  join_child-NoNode :
      (left : Bool) (ts : List Tree) (m m' : Machine)
      → join_child blake3 collapse left ts m ≡ ok m'
      → NoNode m m'
  unfolding join_child
  join_child-NoNode left (u ∷ t ∷ ts) m m' e = join-NoNode left t u ts m m' e
  join_child-NoNode left (u ∷ []) m m' e = cc
  join_child-NoNode left [] m m' e = cc

  step-shows :
      (op : MerkOp) (m m' : Machine)
      → is_forward op ≡ true
      → step blake3 collapse op m ≡ ok m'
      → ((n : MerkNode) × OneNode m m' n) ⊎ NoNode m m'
  unfolding step
  step-shows (push n) m m' f e =
      let (order, last, visited) = push-OneNode n m m' e in inl (n, (order, last, visited))
  step-shows (push_inverted n) m m' f e = cc
  step-shows MerkOp.parent m m' f e = inr (join_parent-NoNode true m.stack m m' e)
  step-shows MerkOp.child m m' f e = inr (join_child-NoNode false m.stack m m' e)
  step-shows MerkOp.parent_inverted m m' f e = inr (join_parent-NoNode false m.stack m m' e)
  step-shows MerkOp.child_inverted m m' f e = inr (join_child-NoNode true m.stack m m' e)

  run-Ascending :
      (ops : List MerkOp) (m m' : Machine)
      → AllForward ops
      → run blake3 collapse ops m ≡ ok m'
      → (ns : List MerkNode) × Ascending m.last_key ns × (m'.visited ≡ m.visited ++ ns)
  unfolding run
  run-Ascending [] m m' f e =
      ([], tt, sym (ap (λ (x : Machine). x.visited) (ok-injective e)) ∙ sym (append-nil m.visited))
  run-Ascending (op ∷ ops) m m' (f, fs) e =
      let (m1, r1, e1) = >>=-eq-ok (step blake3 collapse op m) _ e in
      let (ns, order, visited) = run-Ascending ops m1 m' fs e1 in
      elim (step-shows op m m1 f r1) [
        | inl (n, (first, last, shown)) ↦ (
          n ∷ ns,
          (first, subst (λ (k : Option Bytes). Ascending k ns) last order),
          visited ∙ ap (λ (v : List MerkNode). v ++ ns) shown ∙ append_assoc m.visited (n ∷ []) ns,
        )
        | inr (last, shown) ↦ (
          ns,
          subst (λ (k : Option Bytes). Ascending k ns) last order,
          visited ∙ ap (λ (v : List MerkNode). v ++ ns) shown,
        )
      ]

  -- A proof with no inverted push that executes shows nodes whose keys are strictly ascending in the
  -- lexicographic order, so that no key comes twice.
  pub execute_ops-Ascending :
      (ops : List MerkOp) (t : Tree) (visited : List MerkNode)
      → AllForward ops
      → execute_ops blake3 collapse ops ≡ ok (t, visited)
      → Ascending none visited
  unfolding execute_ops
  execute_ops-Ascending ops t visited f e =
      let (m, r1, e1) = >>=-eq-ok (run blake3 collapse ops initial) _ e in
      let (u, r2, e2) = >>=-eq-ok (finish blake3 m.stack) _ e1 in
      let (ns, order, shown) = run-Ascending ops initial m f r1 in
      subst (λ (v : List MerkNode). Ascending none v)
        (sym shown ∙ ap (λ (p : Tree × List MerkNode). p.1) (ok-injective e2)) order
