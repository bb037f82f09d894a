-- ===== src/Messages/Decimal.antt =====
-- src/willow/signed_messages.py: the decimal text of a number, read back.
use willow_sdk_python.Prelude.{
  ℕ, zero, suc, ◌+◌, ◌-◌, ◌*◌, ◌/◌, ◌%◌, ◌<◌, ◌≤◌, ◌≡◌, refl, sym, ap, ◌∙◌, arith, [], ◌∷◌, ◌++◌,
  Bytes, All, append-All, ltb, Bool-cases, inl, inr,
}
use willow_sdk_python.Messages.{digits, decimal}

abbrev pub IsDigit : ℕ → Type 0
IsDigit c = (48 ≤ c) × (c ≤ 57)

-- The number that a text of digits reads as, after a number read so far.
unfoldable value_onto : ℕ → Bytes → ℕ
value_onto n [] = n
value_onto n (c ∷ text) = value_onto (n * 10 + (c - 48)) text

value_onto-append : (n : ℕ) (s t : Bytes) → value_onto n (s ++ t) ≡ value_onto (value_onto n s) t
unfolding value_onto
value_onto-append n [] t = refl
value_onto-append n (c ∷ s) t = value_onto-append (n * 10 + (c - 48)) s t

value_onto-digits : (fuel n : ℕ) → n < fuel → value_onto 0 (digits fuel n) ≡ n
unfolding value_onto digits
value_onto-digits zero n h = absurd (omega (arith, h))
value_onto-digits (suc fuel) n h = elim (Bool-cases (ltb n 10)) [
  | inl small ↦ rw (digits, small) (omega arith)
  | inr large ↦
      rw (digits, large)
        (value_onto-append 0 (digits fuel (n / 10)) ((n % 10 + 48) ∷ [])
          ∙ rw (value_onto-digits fuel (n / 10) (ground (arith, h, large))) (omega arith))
]

digits-IsDigit : (fuel n : ℕ) → All IsDigit (digits fuel n)
unfolding digits
digits-IsDigit zero n = tt
digits-IsDigit (suc fuel) n = elim (Bool-cases (ltb n 10)) [
  | inl small ↦ rw (digits, small) ((omega arith, ground (arith, small)), tt)
  | inr large ↦
      rw (digits, large)
        (append-All IsDigit (digits fuel (n / 10)) _ (digits-IsDigit fuel (n / 10))
          ((omega arith, omega arith), tt))
]

-- Two numbers with one decimal text are equal.
pub decimal-injective : (n m : ℕ) → decimal n ≡ decimal m → n ≡ m
unfolding decimal
decimal-injective n m e =
    sym (value_onto-digits (suc n) n (omega arith))
    ∙ ap (value_onto 0) e
    ∙ value_onto-digits (suc m) m (omega arith)

pub decimal-IsDigit : (n : ℕ) → All IsDigit (decimal n)
unfolding decimal
decimal-IsDigit n = digits-IsDigit (suc n) n
