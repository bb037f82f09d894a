-- ===== src/Prelude/Bits.antt =====
-- `&`, `|` and `^` as arithmetic, from the digit recursions that the native operations stand for.
use Prim.Native.Nat.{
  ℕ, zero, suc, ◌+◌, ◌*◌, ◌/◌, ◌%◌, ◌^◌, ◌≤◌, ◌<◌, min, max, bit_and, bit_or, bit_xor, differ,
}
use Prim.Native.Nat.{digits, bit_and-bitwise, bit_or-bitwise, bit_xor-bitwise}
use mathlib.Core.Path.{◌≡◌, refl, ap}
use native.Mathlib.Omega.{arith}
use native.Mathlib.Nat.{pow-suc}

-- Any count of digits that reaches the first number serves.
digits_fuel :
    (z : ℕ → ℕ) (f : ℕ → ℕ → ℕ) (n m x y : ℕ) → x ≤ n → x ≤ m → digits z f n x y ≡ digits z f m x y
digits_fuel z f zero zero x y left right = refl
digits_fuel z f zero (suc m) zero y left right = refl
digits_fuel z f zero (suc m) (suc x) y left right = absurd (omega arith)
digits_fuel z f (suc n) zero zero y left right = refl
digits_fuel z f (suc n) zero (suc x) y left right = absurd (omega arith)
digits_fuel z f (suc n) (suc m) zero y left right = refl
digits_fuel z f (suc n) (suc m) (suc x) y left right =
    omega (arith, digits_fuel z f n m (suc x / 2) (y / 2) (omega arith) (omega arith))

zero-bit_and : (y : ℕ) → bit_and 0 y ≡ 0
zero-bit_and y = bit_and-bitwise 0 y

zero-bit_or : (y : ℕ) → bit_or 0 y ≡ y
zero-bit_or y = bit_or-bitwise 0 y

-- The laws for the lowest digit.
pub bit_and_step : (x y : ℕ) → bit_and x y ≡ bit_and (x / 2) (y / 2) * 2 + min (x % 2) (y % 2)
bit_and_step zero y = omega (arith, zero-bit_and y, zero-bit_and (y / 2))
bit_and_step (suc x) y = omega (
  arith,
  bit_and-bitwise (suc x) y,
  bit_and-bitwise (suc x / 2) (y / 2),
  digits_fuel (λ _. zero) min x (suc x / 2) (suc x / 2) (y / 2) (omega arith) (omega arith),
)

pub bit_or_step : (a b : ℕ) → bit_or a b ≡ bit_or (a / 2) (b / 2) * 2 + max (a % 2) (b % 2)
bit_or_step zero b = omega (arith, zero-bit_or b, zero-bit_or (b / 2))
bit_or_step (suc a) b = omega (
  arith,
  bit_or-bitwise (suc a) b,
  bit_or-bitwise (suc a / 2) (b / 2),
  digits_fuel (λ c. c) max a (suc a / 2) (suc a / 2) (b / 2) (omega arith) (omega arith),
)

-- The low digit of the first number stays when the second is 0.
differ-zero : (d : ℕ) → differ d 0 ≡ d
differ-zero zero = refl
differ-zero (suc d) = refl

digits_xor_zero : (n a : ℕ) → a ≤ n → digits (λ c. c) differ n a 0 ≡ a
digits_xor_zero zero zero h = refl
digits_xor_zero zero (suc a) h = absurd (omega arith)
digits_xor_zero (suc n) zero h = refl
digits_xor_zero (suc n) (suc a) h =
    omega (arith, digits_xor_zero n (suc a / 2) (omega arith), differ-zero (suc a % 2))

pub bit_xor-zero : (a : ℕ) → bit_xor a 0 ≡ a
bit_xor-zero a = omega (arith, bit_xor-bitwise a 0, digits_xor_zero a a (omega arith))

digits_and_zero : (n x : ℕ) → x ≤ n → digits (λ _. zero) min n x 0 ≡ 0
digits_and_zero zero zero fits = refl
digits_and_zero zero (suc x) fits = absurd (omega arith)
digits_and_zero (suc n) zero fits = refl
digits_and_zero (suc n) (suc x) fits = omega (arith, digits_and_zero n (suc x / 2) (omega arith))

bit_and-zero : (x : ℕ) → bit_and x 0 ≡ 0
bit_and-zero x = omega (arith, bit_and-bitwise x 0, digits_and_zero x x (omega arith))

pub bit_and-one : (x : ℕ) → bit_and x 1 ≡ x % 2
bit_and-one x = omega (arith, bit_and_step x 1, bit_and-zero (x / 2))

-- `a & 0x7f`
pub low_seven : (a : ℕ) → bit_and a 0x7f ≡ a % 128
low_seven a = omega (
  arith,
  bit_and_step a 127,
  bit_and_step (a / 2) 63,
  bit_and_step (a / 2 / 2) 31,
  bit_and_step (a / 2 / 2 / 2) 15,
  bit_and_step (a / 2 / 2 / 2 / 2) 7,
  bit_and_step (a / 2 / 2 / 2 / 2 / 2) 3,
  bit_and-one (a / 2 / 2 / 2 / 2 / 2 / 2),
)

bit_and_eight : (a : ℕ) → bit_and a 8 ≡ a / 8 % 2 * 8
bit_and_eight a = omega (
  arith,
  bit_and_step a 8,
  bit_and_step (a / 2) 4,
  bit_and_step (a / 2 / 2) 2,
  bit_and-one (a / 2 / 2 / 2),
)

-- `a & 0x80`
pub eighth_bit : (a : ℕ) → bit_and a 0x80 ≡ a / 128 % 2 * 128
eighth_bit a = omega (
  arith,
  bit_and_step a 128,
  bit_and_step (a / 2) 64,
  bit_and_step (a / 2 / 2) 32,
  bit_and_step (a / 2 / 2 / 2) 16,
  bit_and_eight (a / 2 / 2 / 2 / 2),
)

shift_suc : (g s : ℕ) → g * 2 ^ suc s ≡ g * 2 ^ s * 2
shift_suc g s = omega (arith, ap (λ (t : ℕ). g * t) (pow-suc 2 s))

-- `a | (g << s)` is a sum when `a` fits `s` bits.
pub bit_or_shifted : (s a g : ℕ) → a < 2 ^ s → bit_or a (g * 2 ^ s) ≡ a + g * 2 ^ s
bit_or_shifted zero zero g h = ground (arith, zero-bit_or (g * 2 ^ 0))
bit_or_shifted zero (suc a) g h = absurd (omega arith)
bit_or_shifted (suc s) a g h = ground (
  arith,
  pow-suc 2 s,
  shift_suc g s,
  bit_or_step a (g * 2 ^ s * 2),
  bit_or_shifted s (a / 2) g (omega (arith, pow-suc 2 s)),
)

bit_or-zero_fuel : (n a : ℕ) → a ≤ n → bit_or a 0 ≡ a
bit_or-zero_fuel n zero h = refl
bit_or-zero_fuel zero (suc a) h = absurd (omega arith)
bit_or-zero_fuel (suc n) (suc a) h =
    omega (arith, bit_or_step (suc a) 0, bit_or-zero_fuel n (suc a / 2) (omega arith))

-- `(g << s) | a` is a sum when `a` fits `s` bits.
pub bit_or_high : (s g a : ℕ) → a < 2 ^ s → bit_or (g * 2 ^ s) a ≡ g * 2 ^ s + a
bit_or_high zero g zero h = ground (arith, bit_or-zero_fuel (g * 2 ^ 0) (g * 2 ^ 0))
bit_or_high zero g (suc a) h = absurd (omega arith)
bit_or_high (suc s) g a h = ground (
  arith,
  pow-suc 2 s,
  shift_suc g s,
  bit_or_step (g * 2 ^ s * 2) a,
  bit_or_high s g (a / 2) (omega (arith, pow-suc 2 s)),
)
