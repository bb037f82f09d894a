-- ===== src/Tests/Nonces.antt =====
-- src/willow/nonces.py on small inputs.
use willow_sdk_python.Prelude.{
  ℕ, ◌+◌, ◌≤◌, ◌<◌, ◌≡◌, ◌≢◌, refl, arith, true, false, none, some, List, [], ◌∷◌, Bytes,
}
use willow_sdk_python.Prelude.Dict.{contains, nat_key, filter, get, put}
use willow_sdk_python.Prelude.Result.{ok}
use willow_sdk_python.Prelude.Words.{from_big}
use willow_sdk_python.Nonces.Accounts.{
  Account, free, refresh, hand_out, take, claim, settle, lease_time,
}
use willow_sdk_python.Nonces.Accounts.Refresh.{IsDict}
use willow_sdk_python.Nonces.Accounts.Take.{is_busy, take_lowest, take_skips_busy, take_exhausted}
use willow_sdk_python.Nonces.Accounts.Lease.{Step, Reach, here, next, take_once, claim_refused}
use willow_sdk_python.Nonces.Accounts.Handout.{take-settle-take}
use willow_sdk_python.Nonces.State.{parse_nonce_state, parse_nonce_state_bits}

-- Base 3; 4 is handed out since the time 50, as hand-out 1.
abbrev before : Account
before = record {
  base = 3;
  used = [];
  handed = (4, 50) ∷ [];
  handout = (4, 1) ∷ [];
  trusted_base = none;
}

before-IsDict : IsDict before
unfolding get
before-IsDict = record { handed = (refl, tt); handout = (refl, tt) }

-- The node answers base 3 and the used nonce 5, so 6 is the lowest free.
abbrev after : Account
after = hand_out (refresh before 3 100 (5 ∷ [])) 6 100 2

took_6 : take before 3 100 2 (5 ∷ []) ≡ (after, some 6)
unfolding take refresh contains filter get
took_6 = refl

take_lowest_example :
    (3 < 6)
    × (6 ≤ 3 + 24)
    × (is_busy before 100 (5 ∷ []) 6 ≡ false)
    × (after ≡ hand_out (refresh before 3 100 (5 ∷ [])) 6 100 2)
take_lowest_example = take_lowest before 3 100 2 (5 ∷ []) before-IsDict took_6

take_skips_busy_example : is_busy before 100 (5 ∷ []) 5 ≡ true
take_skips_busy_example =
    take_skips_busy before 3 100 2 (5 ∷ []) before-IsDict took_6 5 (omega arith) (omega arith)

-- All of the window is used.
abbrev full : List ℕ
full =
    4 ∷ 5 ∷ 6 ∷ 7 ∷ 8 ∷ 9 ∷ 10 ∷ 11 ∷ 12 ∷ 13 ∷ 14 ∷ 15 ∷ 16 ∷ 17 ∷ 18 ∷ 19 ∷ 20 ∷ 21 ∷ 22 ∷ 23 ∷ 24
    ∷ 25 ∷ 26 ∷ 27 ∷ []

took_none : take before 3 100 2 full ≡ (refresh before 3 100 full, none)
unfolding take refresh contains filter
took_none = refl

take_exhausted_example : is_busy before 100 full 27 ≡ true
take_exhausted_example =
    take_exhausted before 3 100 2 full before-IsDict took_none 27 (omega arith) (omega arith)

-- At the time 200 the node's answer is read again, and another `take` answers 7.
abbrev later_state : Account
later_state = refresh after 3 200 (5 ∷ [])

reached : Reach (100 + lease_time) 6 after later_state
reached = next here (Step.observed after 3 200 (5 ∷ []) (omega arith))

took_7 :
    take later_state 3 300 3 (5 ∷ [])
    ≡ (hand_out (refresh later_state 3 300 (5 ∷ [])) 7 300 3, some 7)
unfolding take refresh hand_out contains filter get put
took_7 = refl

abbrev answered : ℕ
answered = 7

take_once_example : answered ≢ 6
take_once_example =
    take_once before later_state 3 3 100 300 2 3 6 (5 ∷ []) (5 ∷ []) before-IsDict took_6 reached
      (omega arith) took_7

claim_refused_example : (claim later_state 3 6 300 3 (5 ∷ [])).1 ≡ false
claim_refused_example =
    claim_refused before later_state 3 3 100 300 2 3 6 (5 ∷ []) (5 ∷ []) before-IsDict took_6
      reached (omega arith)

take-settle-take_example : (take (settle after 6 free (some 2)) 3 100 3 (5 ∷ [])).1 ≡ some 6
take-settle-take_example = take-settle-take before 3 100 2 3 6 (5 ∷ []) before-IsDict took_6

-- Base 5, with the bits 0 and 9 set: 6 and 15 are used.
abbrev answer : Bytes
answer = 0 ∷ 0 ∷ 0 ∷ 0 ∷ 0 ∷ 0 ∷ 0 ∷ 5 ∷ 1 ∷ 2 ∷ 0 ∷ []

answer_read : parse_nonce_state answer ≡ ok (5, 6 ∷ 15 ∷ [])
unfolding parse_nonce_state
answer_read = refl

parse_nonce_state_bits_example :
    (5 ≡ from_big (0 ∷ 0 ∷ 0 ∷ 0 ∷ 0 ∷ 0 ∷ 0 ∷ 5 ∷ [])) × (contains 15 (6 ∷ 15 ∷ []) ≡ true)
parse_nonce_state_bits_example =
    parse_nonce_state_bits answer 15 refl
      (
        omega arith,
        (
          omega arith,
          (
            omega arith,
            (
              omega arith,
              (
                omega arith,
                (
                  omega arith,
                  (omega arith, (omega arith, (omega arith, (omega arith, (omega arith, tt))))),
                ),
              ),
            ),
          ),
        ),
      )
      answer_read
