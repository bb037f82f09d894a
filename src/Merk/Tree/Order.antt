-- ===== src/Merk/Tree/Order.antt =====
-- src/willow/grovedb/tree.py, `compare_bytes`, and the lexicographic order.
use willow_sdk_python.Prelude.{
  ℕ, zero, suc, ◌<◌, ◌≡◌, refl, ap, ◌∙◌, arith, [], ◌∷◌, Bytes, ltb, Bool-cases, inl, inr, subst,
  ltb→lt,
}
use willow_sdk_python.Prelude.Int.{ℤ, pos, negsuc}
use willow_sdk_python.Merk.Tree.{compare_bytes}

-- The order that the code means: a proper prefix is smaller, and the first difference decides.
pub data Less : Bytes → Bytes → Type 0 where
  shorter : (b : ℕ) (bs : Bytes) → Less [] (b ∷ bs)
  at_head : (a b : ℕ) (as' bs : Bytes) → a < b → Less (a ∷ as') (b ∷ bs)
  in_tail : (a b : ℕ) (as' bs : Bytes) → a ≡ b → Less as' bs → Less (a ∷ as') (b ∷ bs)

-- What each sign of the result says.
abbrev pub Says : Bytes → Bytes → ℤ → Type 0
Says a b (negsuc n) = Less a b
Says a b (pos zero) = a ≡ b
Says a b (pos (suc n)) = Less b a

Says-tail : (a : ℕ) (xs ys : Bytes) (z : ℤ) → Says xs ys z → Says (a ∷ xs) (a ∷ ys) z
Says-tail a xs ys (negsuc n) h = in_tail a a xs ys refl h
Says-tail a xs ys (pos zero) h = ap (◌∷◌ a) h
Says-tail a xs ys (pos (suc n)) h = in_tail a a ys xs refl h

-- `compare_bytes` is negative exactly for a smaller string, zero for an equal one and positive for a
-- larger one.
pub compare_bytes-Says : (a b : Bytes) → Says a b (compare_bytes a b)
unfolding compare_bytes
compare_bytes-Says [] [] = refl
compare_bytes-Says [] (b ∷ bs) = shorter b bs
compare_bytes-Says (a ∷ xs) [] = shorter a xs
compare_bytes-Says (a ∷ xs) (b ∷ ys) = elim (Bool-cases (ltb a b)) [
  | inl less ↦ rw less (at_head a b xs ys (ltb→lt a b less))
  | inr not_less ↦ elim (Bool-cases (ltb b a)) [
    | inl more ↦ rw (not_less, more) (at_head b a ys xs (ltb→lt b a more))
    | inr not_more ↦
        let same : a ≡ b = ground arith in
        rw (not_less, not_more)
          (subst (λ (c : ℕ). Says (a ∷ xs) (c ∷ ys) (compare_bytes xs ys)) same
            (Says-tail a xs ys (compare_bytes xs ys) (compare_bytes-Says xs ys)))
  ]
]

-- The order is transitive.
pub Less-trans : {a b c : Bytes} → Less a b → Less b c → Less a c
Less-trans (shorter b bs) (at_head b' c bs' cs h) = shorter c cs
Less-trans (shorter b bs) (in_tail b' c bs' cs e h) = shorter c cs
Less-trans (at_head a b xs ys h) (at_head b' c ys' zs k) = at_head a c xs zs (omega arith)
Less-trans (at_head a b xs ys h) (in_tail b' c ys' zs e k) = at_head a c xs zs (omega arith)
Less-trans (in_tail a b xs ys e h) (at_head b' c ys' zs k) = at_head a c xs zs (omega arith)
Less-trans (in_tail a b xs ys e h) (in_tail b' c ys' zs e' k) =
    in_tail a c xs zs (e ∙ e') (Less-trans h k)
