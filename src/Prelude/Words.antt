-- ===== src/Prelude/Words.antt =====
-- Integers as bytes: `int.from_bytes` and `int.to_bytes`.
use native.Mathlib.Nat.{pow-suc}
use willow_sdk_python.Prelude.{
  ℕ, zero, suc, ◌+◌, ◌*◌, ◌/◌, ◌%◌, ◌^◌, ◌<◌, ◌≡◌, refl, ap, ◌∙◌, arith, [], ◌∷◌, ◌++◌, Bytes,
  IsByte, All, length, length-append, sym, subst,
}

-- `int.from_bytes(b, "big")`, with the bytes read so far in `acc`.
unfoldable pub big_from : ℕ → Bytes → ℕ
big_from acc [] = acc
big_from acc (b ∷ bs) = big_from (acc * 256 + b) bs

unfoldable pub from_big : Bytes → ℕ
unfolding big_from
from_big bs = big_from 0 bs

-- `int.from_bytes(b, "little")`
unfoldable pub from_little : Bytes → ℕ
from_little [] = 0
from_little (b ∷ bs) = b + 256 * from_little bs

-- `n.to_bytes(width, "big")` where `n` fits `width` bytes.
unfoldable pub to_big : (width : ℕ) → ℕ → Bytes
to_big zero n = []
to_big (suc width) n = to_big width (n / 256) ++ (n % 256 ∷ [])

pub length-to_big : (width n : ℕ) → length (to_big width n) ≡ width
unfolding to_big
length-to_big zero n = refl
length-to_big (suc width) n =
    omega
      (arith, length-append (to_big width (n / 256)) (n % 256 ∷ []), length-to_big width (n / 256))

All-snoc : (xs : Bytes) (b : ℕ) → All IsByte xs → b < 256 → All IsByte (xs ++ (b ∷ []))
All-snoc [] b all h = (h, tt)
All-snoc (x ∷ xs) b (hx, all) h = (hx, All-snoc xs b all h)

pub to_big-IsByte : (width n : ℕ) → All IsByte (to_big width n)
unfolding to_big
to_big-IsByte zero n = tt
to_big-IsByte (suc width) n =
    All-snoc (to_big width (n / 256)) (n % 256) (to_big-IsByte width (n / 256)) (omega arith)

big_from-snoc : (acc b : ℕ) (xs : Bytes) → big_from acc (xs ++ (b ∷ [])) ≡ big_from acc xs * 256 + b
unfolding big_from
big_from-snoc acc b [] = refl
big_from-snoc acc b (x ∷ xs) = big_from-snoc (acc * 256 + x) b xs

pub from_big-to_big : (width n : ℕ) → n < 256 ^ width → from_big (to_big width n) ≡ n
unfolding from_big to_big
from_big-to_big zero n h = unfold big_from in (omega arith)
from_big-to_big (suc width) n h = omega (
  arith,
  big_from-snoc 0 (n % 256) (to_big width (n / 256)),
  from_big-to_big width (n / 256) (omega (arith, pow-suc 256 width)),
)

-- Two numbers that fit `width` bytes and have the same bytes are one.
pub to_big-injective :
    (width m n : ℕ) → m < 256 ^ width → n < 256 ^ width → to_big width m ≡ to_big width n → m ≡ n
to_big-injective width m n hm hn e =
    sym (from_big-to_big width m hm) ∙ ap from_big e ∙ from_big-to_big width n hn

big_from-bound :
    (xs : Bytes) (acc k : ℕ)
    → All IsByte xs
    → acc < 256 ^ k
    → big_from acc xs < 256 ^ (k + length xs)
unfolding big_from
big_from-bound [] acc k all h = subst (λ (t : ℕ). acc < 256 ^ t) (omega arith) h
big_from-bound (x ∷ xs) acc k (hx, all) h =
    subst (λ (t : ℕ). big_from (acc * 256 + x) xs < 256 ^ t) (omega arith)
      (big_from-bound xs (acc * 256 + x) (suc k) all (omega (arith, pow-suc 256 k)))

-- The number that bytes stand for fits as many bytes.
pub from_big-bound : (xs : Bytes) → All IsByte xs → from_big xs < 256 ^ length xs
unfolding from_big
from_big-bound xs all =
    subst (λ (t : ℕ). big_from 0 xs < 256 ^ t) (omega arith)
      (big_from-bound xs 0 0 all (omega arith))
