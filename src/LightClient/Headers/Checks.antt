-- ===== src/LightClient/Headers/Checks.antt =====
-- src/willow/light_client/verifier.py, `verify_header`: what it reports.
use willow_sdk_python.Prelude.{
  ℕ, zero, suc, ◌+◌, ◌*◌, ◌≤◌, ◌<◌, ◌≡◌, refl, arith, ◌↔◌, true, false, Option, none, some, Bytes,
  bytes_eq, bytes_eq_iff, ltb, leb, Option-cases, ◌≢◌, Bool-cases, inl, inr, ==_iff, ap, ◌∙◌, subst,
  sym,
}
use willow_sdk_python.Prelude.Int.{ℤ, pos, negsuc}
use willow_sdk_python.LightClient.{header_not_verified}
use willow_sdk_python.LightClient.Headers.{
  Header, distance, not_positive, plus_one, ints_eq, validate_basic_header, verify_sequential,
  verify_validator_set_transition, header_checks, verify_header,
}

-- A header whose fields are in order: the chain's ID, a height of at least 1, and a time that is at most
-- the drift before or after the clock's.
pub record IsBasic (chain_id : Bytes) (now drift_secs : ℕ) (h : Header) : Type 0 where
  pub chain : h.chain_id ≡ chain_id
  pub height : (n : ℕ) × (h.height ≡ pos (suc n))
  pub not_late : h.time ≤ now + drift_secs * 1000000
  pub not_early : now ≤ h.time + drift_secs * 1000000

-- One height and the next, on the integers.
pub data IsNext : ℤ → ℤ → Type 0 where
  of_pos : (n : ℕ) → IsNext (pos n) (pos (suc n))
  of_minus_one : IsNext (negsuc 0) (pos 0)
  of_negsuc : (n : ℕ) → IsNext (negsuc (suc n)) (negsuc n)

-- A header that follows another.
pub record Follows (u t : Header) : Type 0 where
  pub height : IsNext t.height u.height
  pub time : t.time < u.time
  pub validators : u.validators_hash ≡ t.next_validators_hash

abbrev pub FollowsAny : Header → Option Header → Type 0
FollowsAny u none = Unit {0}
FollowsAny u (some t) = Follows u t

-- The code's guards on a height.
not_positive_iff : (h : ℤ) → (not_positive h ≡ false) ↔ ((n : ℕ) × (h ≡ pos (suc n)))
not_positive_iff (pos zero) = ((λ e. cc), (λ (n, e). cc))
not_positive_iff (pos (suc n)) = ((λ e. (n, refl)), (λ x. refl))
not_positive_iff (negsuc n) = ((λ e. cc), (λ (m, e). cc))

ints_eq_iff : (a b : ℤ) → (ints_eq a b ≡ true) ↔ (a ≡ b)
ints_eq_iff (pos a) (pos b) = ((λ e. ap pos ((==_iff a b).0 e)), (λ e. (==_iff a b).1 (cc)))
ints_eq_iff (negsuc a) (negsuc b) =
    ((λ e. ap negsuc ((==_iff a b).0 e)), (λ e. (==_iff a b).1 (cc)))
ints_eq_iff (pos a) (negsuc b) = ((λ e. cc), (λ e. cc))
ints_eq_iff (negsuc a) (pos b) = ((λ e. cc), (λ e. cc))

plus_one-IsNext : (t : ℤ) → IsNext t (plus_one t)
plus_one-IsNext (pos n) = of_pos n
plus_one-IsNext (negsuc zero) = of_minus_one
plus_one-IsNext (negsuc (suc n)) = of_negsuc n

IsNext-plus_one : (t u : ℤ) → IsNext t u → u ≡ plus_one t
IsNext-plus_one t u (of_pos n) = refl
IsNext-plus_one t u of_minus_one = refl
IsNext-plus_one t u (of_negsuc n) = refl

height_after_iff : (t u : ℤ) → (ints_eq u (plus_one t) ≡ true) ↔ IsNext t u
height_after_iff t u = (
  (λ e. subst (IsNext t) (sym ((ints_eq_iff u (plus_one t)).0 e)) (plus_one-IsNext t)),
  (λ n. (ints_eq_iff u (plus_one t)).1 (IsNext-plus_one t u n)),
)

validate_basic_header-IsBasic :
    (chain_id : Bytes) (now drift : ℕ) (h : Header)
    → (validate_basic_header chain_id now drift h ≡ none) ↔ IsBasic chain_id now drift h
unfolding validate_basic_header
validate_basic_header-IsBasic chain_id now drift h =
    elim (Bool-cases (bytes_eq h.chain_id chain_id)) [
      | inr other ↦ (
        (λ e. cc (rw other at e)),
        (λ b. cc (other, (bytes_eq_iff h.chain_id chain_id).1 b.chain)),
      )
      | inl same ↦ elim (Bool-cases (not_positive h.height)) [
        | inl low ↦ (
          (λ e. cc (rw (same, low) at e)),
          (λ b. cc (low, (not_positive_iff h.height).1 b.height)),
        )
        | inr high ↦ elim (Bool-cases (ltb (drift * 1000000) (distance h.time now))) [
          | inl far ↦ (
            (λ e. cc (rw (same, high, far) at e)),
            (λ b. absurd (ground (arith, far, b.not_late, b.not_early))),
          )
          | inr near ↦ (
            (λ e. record {
              chain = (bytes_eq_iff h.chain_id chain_id).0 same;
              height = (not_positive_iff h.height).0 high;
              not_late = ground (arith, near);
              not_early = ground (arith, near);
            }),
            (λ b. rw (same, high, near) refl),
          )
        ]
      ]
    ]

Follows-checks :
    (u t : Header)
    → ((verify_sequential u t ≡ none) × (verify_validator_set_transition u t ≡ none)) ↔ Follows u t
unfolding verify_sequential verify_validator_set_transition
Follows-checks u t = elim (Bool-cases (ints_eq u.height (plus_one t.height))) [
  | inr other ↦ (
    (λ e. cc (rw other at e.0)),
    (λ f. cc (other, (height_after_iff t.height u.height).1 f.height)),
  )
  | inl next ↦ elim (Bool-cases (leb u.time t.time)) [
    | inl back ↦ ((λ e. cc (rw (next, back) at e.0)), (λ f. absurd (ground (arith, back, f.time))))
    | inr later ↦ elim (Bool-cases (bytes_eq u.validators_hash t.next_validators_hash)) [
      | inr changed ↦ (
        (λ e. cc (rw changed at e.1)),
        (λ f. cc (changed, (bytes_eq_iff u.validators_hash t.next_validators_hash).1 f.validators)),
      )
      | inl kept ↦ (
        (λ e. record {
          height = (height_after_iff t.height u.height).0 next;
          time = ground (arith, later);
          validators = (bytes_eq_iff u.validators_hash t.next_validators_hash).0 kept;
        }),
        (λ f. (rw (next, later) refl, rw kept refl)),
      )
    ]
  ]
]

-- Every check passes.
header_checks_iff :
    (chain_id : Bytes) (now drift : ℕ) (u : Header) (trusted : Option Header)
    → (header_checks chain_id now drift u trusted ≡ none)
      ↔ (IsBasic chain_id now drift u × FollowsAny u trusted)
unfolding header_checks
header_checks_iff chain_id now drift u trusted = go trusted
  where
    basic : (validate_basic_header chain_id now drift u ≡ none) ↔ IsBasic chain_id now drift u
    basic = validate_basic_header-IsBasic chain_id now drift u

    go :
        (o : Option Header)
        → (header_checks chain_id now drift u o ≡ none)
          ↔ (IsBasic chain_id now drift u × FollowsAny u o)
    go none = elim (Option-cases (validate_basic_header chain_id now drift u)) [
      | inl fine ↦ ((λ e. (basic.0 fine, tt)), (λ b. rw (header_checks, fine) refl))
      | inr (x, raised) ↦
          ((λ e. cc (rw (header_checks, raised) at e)), (λ b. cc (raised, basic.1 b.0)))
    ]
    go (some t) = elim (Option-cases (validate_basic_header chain_id now drift u)) [
      | inr (x, raised) ↦
          ((λ e. cc (rw (header_checks, raised) at e)), (λ b. cc (raised, basic.1 b.0)))
      | inl fine ↦ elim (Option-cases (verify_sequential u t)) [
        | inr (x, raised) ↦ (
          (λ e. cc (rw (header_checks, fine, raised) at e)),
          (λ b. cc (raised, ((Follows-checks u t).1 b.1).0)),
        )
        | inl next ↦ (
          (λ e. (basic.0 fine, (Follows-checks u t).0 (next, rw (header_checks, fine, next) at e))),
          (λ b. rw (header_checks, fine, next) ((Follows-checks u t).1 b.1).1),
        )
      ]
    ]

validate_basic_header-ne :
    (chain_id : Bytes) (now drift : ℕ) (h : Header)
    → validate_basic_header chain_id now drift h ≢ some header_not_verified
unfolding validate_basic_header
validate_basic_header-ne chain_id now drift h e = elim (Bool-cases (bytes_eq h.chain_id chain_id)) [
  | inr other ↦ cc (rw other at e)
  | inl same ↦ elim (Bool-cases (not_positive h.height)) [
    | inl low ↦ cc (rw (same, low) at e)
    | inr high ↦ elim (Bool-cases (ltb (drift * 1000000) (distance h.time now))) [
      | inl far ↦ cc (rw (same, high, far) at e)
      | inr near ↦ cc (rw (same, high, near) at e)
    ]
  ]
]

follow_checks_ne :
    (u t : Header)
    → (verify_sequential u t ≢ some header_not_verified)
      × (verify_validator_set_transition u t ≢ some header_not_verified)
unfolding verify_sequential verify_validator_set_transition
follow_checks_ne u t = (sequential, transition)
  where
    sequential : verify_sequential u t ≢ some header_not_verified
    sequential e = elim (Bool-cases (ints_eq u.height (plus_one t.height))) [
      | inr other ↦ cc (rw other at e)
      | inl next ↦ elim (Bool-cases (leb u.time t.time)) [
        | inl back ↦ cc (rw (next, back) at e)
        | inr later ↦ cc (rw (next, later) at e)
      ]
    ]

    transition : verify_validator_set_transition u t ≢ some header_not_verified
    transition e = elim (Bool-cases (bytes_eq u.validators_hash t.next_validators_hash)) [
      | inl kept ↦ cc (rw kept at e)
      | inr changed ↦ cc (rw changed at e)
    ]

header_checks-ne :
    (chain_id : Bytes) (now drift : ℕ) (u : Header) (trusted : Option Header)
    → header_checks chain_id now drift u trusted ≢ some header_not_verified
unfolding header_checks
header_checks-ne chain_id now drift u none e =
    elim (Option-cases (validate_basic_header chain_id now drift u)) [
      | inl fine ↦ cc (rw (header_checks, fine) at e)
      | inr (x, raised) ↦
          validate_basic_header-ne chain_id now drift u (raised ∙ (rw (header_checks, raised) at e))
    ]
header_checks-ne chain_id now drift u (some t) e =
    elim (Option-cases (validate_basic_header chain_id now drift u)) [
      | inr (x, raised) ↦
          validate_basic_header-ne chain_id now drift u (raised ∙ (rw (header_checks, raised) at e))
      | inl fine ↦ elim (Option-cases (verify_sequential u t)) [
        | inr (x, raised) ↦
            (follow_checks_ne u t).0 (raised ∙ (rw (header_checks, fine, raised) at e))
        | inl next ↦ (follow_checks_ne u t).1 (rw (header_checks, fine, next) at e)
      ]
    ]

-- `verify_header` reports that the header is not verified, and no other failure, exactly for a header
-- with the chain's ID, a height of at least 1 and a time that is at most the drift before or after the
-- clock's, which follows the trusted header if there is one: the next height, a later time, and the
-- validators that the trusted header names as the next. It never reports a success.
pub verify_header-refuses :
    (chain_id : Bytes) (now : ℕ) (u : Header) (trusted : Option Header) (drift : ℕ)
    → ((verify_header chain_id now u trusted drift).success ≡ false)
      × (((verify_header chain_id now u trusted drift).error ≡ some header_not_verified)
          ↔ (IsBasic chain_id now drift u × FollowsAny u trusted))
unfolding verify_header
verify_header-refuses chain_id now u trusted drift =
    elim (Option-cases (header_checks chain_id now drift u trusted)) [
      | inl fine ↦ (
        rw (verify_header, fine) refl,
        (
          (λ e. (header_checks_iff chain_id now drift u trusted).0 fine),
          (λ b. rw (verify_header, fine) refl),
        ),
      )
      | inr (x, raised) ↦ (
        rw (verify_header, raised) refl,
        (
          (λ e. absurd (
              header_checks-ne chain_id now drift u trusted
                (raised ∙ (rw (verify_header, raised) at e)))),
          (λ b. cc (raised, (header_checks_iff chain_id now drift u trusted).1 b)),
        ),
      )
    ]
