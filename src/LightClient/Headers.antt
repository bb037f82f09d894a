-- ===== src/LightClient/Headers.antt =====
-- src/willow/light_client/verifier.py, `HeaderVerifier`: the checks of a header, none of which verifies it.
-- A time is a number of microseconds, and `now` is what the clock gives; texts and hashes are lists of
-- their codes.
pub mod Checks
use willow_sdk_python.Prelude.{
  ℕ, zero, suc, ◌+◌, ◌-◌, ◌*◌, ◌≤◌, ◌<◌, ◌≡◌, refl, arith, ◌↔◌, Bool, true, false, not, Option,
  none, some, Bytes, bytes_eq, bytes_eq_iff, ltb, leb, Option-cases, ◌≢◌, Bool-cases, inl, inr,
  ◌==◌, ==_iff, ltb→lt, if◌then◌else◌, ap, sym, ◌∙◌, subst,
}
use willow_sdk_python.Prelude.Int.{ℤ, pos, negsuc}
use willow_sdk_python.LightClient.{
  Failure, VerificationResult, failed, header_not_verified, wrong_chain, bad_height, clock_drift,
  not_sequential, time_back, validators_changed,
}

-- The fields that the checks read.
pub record Header : Type 0 where
  pub chain_id : Bytes
  pub height : ℤ
  pub time : ℕ
  pub validators_hash : Bytes
  pub next_validators_hash : Bytes

-- `abs(a - b)`
abbrev pub distance : ℕ → ℕ → ℕ
distance a b = (a - b) + (b - a)

-- `height <= 0`
abbrev pub not_positive : ℤ → Bool
not_positive (pos zero) = true
not_positive (pos (suc n)) = false
not_positive (negsuc n) = true

abbrev pub plus_one : ℤ → ℤ
plus_one (pos n) = pos (suc n)
plus_one (negsuc zero) = pos 0
plus_one (negsuc (suc n)) = negsuc n

abbrev pub ints_eq : ℤ → ℤ → Bool
ints_eq (pos a) (pos b) = a == b
ints_eq (negsuc a) (negsuc b) = a == b
ints_eq (pos a) (negsuc b) = false
ints_eq (negsuc a) (pos b) = false

-- `_validate_basic_header`: what it raises, if anything.
unfoldable pub validate_basic_header :
    (chain_id : Bytes) → (now drift_secs : ℕ) → Header → Option Failure
validate_basic_header chain_id now drift_secs h =
    if not (bytes_eq h.chain_id chain_id)
    then some wrong_chain
    else if not_positive h.height
    then some bad_height
    else if ltb (drift_secs * 1000000) (distance h.time now)
    then some clock_drift
    else none

unfoldable pub verify_sequential : (untrusted trusted : Header) → Option Failure
verify_sequential u t =
    if not (ints_eq u.height (plus_one t.height))
    then some not_sequential
    else if leb u.time t.time
    then some time_back
    else none

unfoldable pub verify_validator_set_transition : (untrusted trusted : Header) → Option Failure
verify_validator_set_transition u t =
    if not (bytes_eq u.validators_hash t.next_validators_hash)
    then some validators_changed
    else none

-- The checks in the `try` block, in their order.
unfoldable pub header_checks :
    (chain_id : Bytes) → (now drift_secs : ℕ) → Header → Option Header → Option Failure
unfolding validate_basic_header verify_sequential verify_validator_set_transition
header_checks chain_id now drift_secs u trusted =
    elim (validate_basic_header chain_id now drift_secs u) [
      | some e ↦ some e
      | none ↦ elim trusted [
        | none ↦ none
        | some t ↦ elim (verify_sequential u t) [
          | some e ↦ some e
          | none ↦ verify_validator_set_transition u t
        ]
      ]
    ]

unfoldable pub verify_header :
    (chain_id : Bytes)
    → (now : ℕ) → Header
    → (trusted : Option Header) → (drift_secs : ℕ) → VerificationResult
unfolding header_checks
verify_header chain_id now u trusted drift_secs =
    elim (header_checks chain_id now drift_secs u trusted) [
      | some e ↦ failed e u.height
      | none ↦ failed header_not_verified u.height
    ]
