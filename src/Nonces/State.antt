-- ===== src/Nonces/State.antt =====
-- src/willow/nonces.py, `parse_nonce_state`: an account's base and the nonces above it that are used,
-- as the node answers.
use willow_sdk_python.Prelude.{
  ℕ, zero, suc, ◌+◌, ◌-◌, ◌*◌, ◌/◌, ◌%◌, ◌^◌, ◌≤◌, ◌<◌, ◌≡◌, ◌≢◌, refl, ap, sym, subst, ◌∙◌, arith,
  Bool, false, not, ◌&&◌, ◌||◌, List, [], ◌∷◌, Bytes, IsByte, All, length, take, drop, get_or,
  ℕ_discrete, Bool-cases, inl, inr, ltb→lt, length-drop, drop-All, bit_and, ltb, leb, ◌==◌,
  if◌then◌else◌,
}
use willow_sdk_python.Prelude.Bits.{bit_and-one}
use willow_sdk_python.Prelude.Words.{from_big, from_little}
use willow_sdk_python.Prelude.Dict.{contains}
use willow_sdk_python.Prelude.Result.{Result, ok, err, ok-injective, bad_nonce_state}
use willow_sdk_python.Nonces.Accounts.{window}

-- `base + 1 + i for i in range(WINDOW) if bitmap >> i & 1`, from `i` on.
marked : (base bitmap count i : ℕ) → List ℕ
marked base bitmap zero i = []
marked base bitmap (suc count) i =
    let later = marked base bitmap count (i + 1) in
    if bit_and (bitmap / 2 ^ i) 1 == 1 then (base + 1 + i) ∷ later else later

unfoldable pub parse_nonce_state : Bytes → Result (ℕ × List ℕ)
unfolding marked from_big from_little
parse_nonce_state value =
    if length value == 0
    then ok (0, [])
    else if not (length value == 8 || length value == 11)
    then err bad_nonce_state
    else (let base = from_big (take 8 value) in
        ok (base, marked base (from_little (drop 8 value)) window 0))

-- A nonce above the base is in the list exactly when its bit is among those read, and set.
contains-marked :
    (base bitmap count i j : ℕ)
    → contains (base + 1 + j) (marked base bitmap count i)
      ≡ (leb i j && ltb j (i + count) && bit_and (bitmap / 2 ^ j) 1 == 1)
unfolding marked contains
contains-marked base bitmap zero i j = ground arith
contains-marked base bitmap (suc count) i j = elim (ℕ_discrete i j) [
  | yes same ↦ rw same (ground (arith, contains-marked base bitmap count (j + 1) j))
  | no apart ↦ ground (arith, contains-marked base bitmap count (i + 1) j)
]

-- The bits below `count` of three bytes, one by one.
abbrev Agree : ℕ → ℕ → ℕ → ℕ → Type 0
Agree zero a b c = Unit {0}
Agree (suc j) a b c =
    ((a + 256 * (b + 256 * c)) / 2 ^ j % 2 ≡ get_or (a ∷ b ∷ c ∷ []) (j / 8) 0 / 2 ^ (j % 8) % 2)
    × Agree j a b c

-- Bit `j % 8` of byte `j / 8`.
abbrev bit_of : Bytes → ℕ → Bool
bit_of bytes j = get_or bytes (j / 8) 0 / 2 ^ (j % 8) % 2 == 1

-- The three bytes of the bitmap hold its bits, eight each.
bitmap_bits : (a b c : ℕ) → IsByte a → IsByte b → IsByte c → Agree 24 a b c
bitmap_bits a b c ha hb hc = omega arith

Agree-at :
    (k j a b c : ℕ)
    → j < k
    → Agree k a b c
    → from_little (a ∷ b ∷ c ∷ []) / 2 ^ j % 2 ≡ get_or (a ∷ b ∷ c ∷ []) (j / 8) 0 / 2 ^ (j % 8) % 2
unfolding from_little
Agree-at zero j a b c h all = absurd (omega arith)
Agree-at (suc k) j a b c h (top, all) = elim (ℕ_discrete j k) [
  | yes same ↦ rw same (ap (λ (t : ℕ). t / 2 ^ k % 2) (omega arith) ∙ top)
  | no apart ↦ Agree-at k j a b c (omega arith) all
]

-- A nonce at or below the base is not in the list.
contains-marked_low :
    (base bitmap count i n : ℕ) → n ≤ base → contains n (marked base bitmap count i) ≡ false
unfolding marked contains
contains-marked_low base bitmap zero i n h = refl
contains-marked_low base bitmap (suc count) i n h =
    ground (arith, contains-marked_low base bitmap count (i + 1) n h)

contains-marked_bits :
    (base j : ℕ) (bits : Bytes)
    → length bits ≡ 3
    → All IsByte bits
    → contains (base + 1 + j) (marked base (from_little bits) 24 0) ≡ (ltb j 24 && bit_of bits j)
contains-marked_bits base j (a ∷ b ∷ c ∷ []) h (ha, (hb, (hc, end))) =
    contains-marked base (from_little (a ∷ b ∷ c ∷ [])) 24 0 j ∙ elim (Bool-cases (ltb j 24)) [
      | inl inside ↦ rw inside (
          rw bit_and-one
            (ground (arith, Agree-at 24 j a b c (ltb→lt j 24 inside) (bitmap_bits a b c ha hb hc))))
      | inr outside ↦ ground arith
    ]
contains-marked_bits base j [] h all = absurd (omega arith)
contains-marked_bits base j (a ∷ []) h all = absurd (omega arith)
contains-marked_bits base j (a ∷ b ∷ []) h all = absurd (omega arith)
contains-marked_bits base j (a ∷ b ∷ c ∷ d ∷ bits) h all = absurd (omega arith)

-- An answer of 11 bytes that are bytes gives as base the first eight, big-endian, and as used
-- exactly the nonces above the base whose bit is set: bit `i % 8` of the bitmap's byte `i / 8`
-- stands for `base + 1 + i`, for the 24 values of `i`.
pub parse_nonce_state_bits :
    (value : Bytes) (n : ℕ) {base : ℕ} {used : List ℕ}
    → length value ≡ 11
    → All IsByte value
    → parse_nonce_state value ≡ ok (base, used)
    → (base ≡ from_big (take 8 value))
      × (contains n used
          ≡ (ltb base n && leb n (base + 24) && bit_of (drop 8 value) (n - (base + 1))))
unfolding parse_nonce_state
parse_nonce_state_bits value n {base} {used} h all e =
    let bits = drop 8 value in
    let answer : (from_big (take 8 value), marked (from_big (take 8 value)) (from_little bits) 24 0)
        ≡ (base, used) =
      ok-injective (ground arith) in
    let at : from_big (take 8 value) ≡ base = ap (λ (p : ℕ × List ℕ). p.0) answer in
    let list : used ≡ marked base (from_little bits) 24 0 =
      sym (ap (λ (p : ℕ × List ℕ). p.1) answer)
      ∙ ap (λ (k : ℕ). marked k (from_little bits) 24 0) at in
    (
      sym at,
      rw list (elim (Bool-cases (ltb base n)) [
        | inl above ↦
            subst
              (λ (k : ℕ).
                contains k (marked base (from_little bits) 24 0)
                ≡ (ltb base n && leb n (base + 24) && bit_of bits (n - (base + 1))))
              (omega (arith, ltb→lt base n above))
              (contains-marked_bits base (n - (base + 1)) bits (omega (arith, length-drop 8 value))
                  (drop-All IsByte 8 value all)
                ∙ ground arith)
        | inr below ↦ ground (arith, contains-marked_low base (from_little bits) 24 0 n)
      ]),
    )

-- An answer of any length but 0, 8 and 11 is refused.
pub parse_nonce_state-length :
    (value : Bytes)
    → length value ≢ 0
    → length value ≢ 8
    → length value ≢ 11
    → parse_nonce_state value ≡ err bad_nonce_state
unfolding parse_nonce_state
parse_nonce_state-length value h0 h8 h11 = ground arith
