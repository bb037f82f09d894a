-- ===== src/Messages/Lines.antt =====
-- src/willow/signed_messages.py: lines joined by a line break, and the lines of fields, taken apart.
use willow_sdk_python.Prelude.{
  ℕ, ◌≡◌, ◌≢◌, refl, sym, ap₂, arith, false, List, [], ◌∷◌, ◌++◌, Bytes, All, append-All,
  append_cut, Bool-cases, inl, inr,
}
use willow_sdk_python.Prelude.Result.{ok, ok-injective}
use willow_sdk_python.Messages.{has_code, line, field, join_lines}

-- A text without a code point.
abbrev pub Without : ℕ → Bytes → Type 0
Without c text = All (λ (d : ℕ). d ≢ c) text

abbrev pub Plain : Bytes → Type 0
Plain text = Without 10 text

abbrev pub AllPlain : List Bytes → Type 0
AllPlain ls = All Plain ls

-- Texts split at the first place of a code point.
pub cut_at :
    (c : ℕ) (xs ys us vs : Bytes)
    → Without c xs
    → Without c us
    → xs ++ (c ∷ ys) ≡ us ++ (c ∷ vs)
    → (xs ≡ us) × (ys ≡ vs)
cut_at c [] ys [] vs hx hu e = (refl, cc)
cut_at c [] ys (u ∷ us) vs hx (h, hu) e = absurd (h (cc))
cut_at c (x ∷ xs) ys [] vs (h, hx) hu e = absurd (h (cc))
cut_at c (x ∷ xs) ys (u ∷ us) vs (h, hx) (k, hu) e =
    let (same, later) = cut_at c xs ys us vs hx hu (cc) in
    let first : x ≡ u = cc in (ap₂ ◌∷◌ first same, later)

absent_code : (c : ℕ) (xs us vs : Bytes) → Without c xs → xs ≢ us ++ (c ∷ vs)
absent_code c [] [] vs h e = cc
absent_code c [] (u ∷ us) vs h e = cc
absent_code c (x ∷ xs) [] vs (h, hs) e = h (cc)
absent_code c (x ∷ xs) (u ∷ us) vs (h, hs) e = absent_code c xs us vs hs (cc)

-- Lines that hold no line break are the only such lines that join to their text.
pub join_lines-injective :
    (l : Bytes) (ls : List Bytes) (m : Bytes) (ms : List Bytes)
    → AllPlain (l ∷ ls)
    → AllPlain (m ∷ ms)
    → join_lines (l ∷ ls) ≡ join_lines (m ∷ ms)
    → (l ≡ m) × (ls ≡ ms)
unfolding join_lines
join_lines-injective l [] m [] pl pm e = (e, refl)
join_lines-injective l [] m (m2 ∷ ms) (pl, pls) pm e = absurd (absent_code 10 l m _ pl e)
join_lines-injective l (l2 ∷ ls) m [] pl (pm, pms) e = absurd (absent_code 10 m l _ pm (sym e))
join_lines-injective l (l2 ∷ ls) m (m2 ∷ ms) (pl, pls) (pm, pms) e =
    let (first, later) = cut_at 10 l _ m _ pl pm e in
    let (second, rest) = join_lines-injective l2 ls m2 ms pls pms later in
    (first, ap₂ ◌∷◌ second rest)

pub line-injective : (label u v : Bytes) → line label u ≡ line label v → u ≡ v
line-injective label u v e = let (same, later) = append_cut label _ label _ refl e in cc

pub line-Plain : (label v : Bytes) → Plain label → Plain v → Plain (line label v)
line-Plain label v pl pv =
    append-All (λ (d : ℕ). d ≢ 10) label _ pl
      ((λ e. ground (arith, e)), ((λ e. ground (arith, e)), pv))

pub has_code-Without : (c : ℕ) (text : Bytes) → has_code c text ≡ false → Without c text
unfolding has_code
has_code-Without c [] e = tt
has_code-Without c (d ∷ text) e = (ground (arith, e), has_code-Without c text (ground (arith, e)))

-- The line of a text field, which holds no line break.
pub field-line : (label v l : Bytes) → field label v ≡ ok l → (l ≡ line label v) × Plain v
unfolding field
field-line label v l e = elim (Bool-cases (has_code 10 v)) [
  | inl broken ↦ cc (rw (field, broken) at e)
  | inr plain ↦ (sym (ok-injective (rw (field, plain) at e)), has_code-Without 10 v plain)
]
