-- ===== src/Nonces/Accounts.antt =====
-- src/willow/nonces.py: the record kept for one DID (`_Account`), and what each method of
-- `NonceTracker` does to it.
pub mod Refresh
pub mod Take
pub mod Lease
pub mod Handout
use willow_sdk_python.Prelude.{
  ℕ, zero, suc, ◌+◌, ◌-◌, ◌*◌, max, Bool, true, false, not, ◌&&◌, ◌||◌, Option, none, some, List,
  [], ◌∷◌, ◌++◌, ltb, leb, ◌==◌, if◌then◌else◌, length,
}
use willow_sdk_python.Prelude.Dict.{Dict, get, put, remove, filter, contains, nat_key}

abbrev pub window : ℕ
window = 24

-- 120 seconds
abbrev pub lease_time : ℕ
lease_time = 120 * 1_000_000_000

abbrev pub handout_history : ℕ
handout_history = 4096

-- What a failed submission leaves its nonce as.
pub data Outcome : Type 0 where
  free held used_up unknown : Outcome

pub record Account : Type 0 where
  pub base : ℕ
  pub used : List ℕ
  pub handed : Dict ℕ ℕ
  pub handout : Dict ℕ ℕ
  pub trusted_base : Option ℕ

abbrev pub empty : Account
empty = record { base = 0; used = []; handed = []; handout = []; trusted_base = none }

abbrev pub has_key : ℕ → Dict ℕ ℕ → Bool
has_key n d = elim (get n d) [ none ↦ false | some _ ↦ true ]

-- `now - at < LEASE_SECONDS`
abbrev pub is_leased : ℕ → ℕ → Bool
is_leased now at = ltb now (at + lease_time)

-- The lease entries that `_refresh` keeps.
abbrev pub keeps_lease : ℕ → List ℕ → ℕ → ℕ × ℕ → Bool
keeps_lease base used now entry =
    ltb base entry.0 && not (contains entry.0 used) && is_leased now entry.1

-- `floor = base - HANDOUT_HISTORY` may be negative: `n > floor` is `base < n + HANDOUT_HISTORY`.
abbrev pub keeps_handout : ℕ → ℕ × ℕ → Bool
keeps_handout base entry = ltb base (entry.0 + handout_history)

unfoldable pub refresh : Account → (base now : ℕ) → (used : List ℕ) → Account
refresh account base now used =
    let base' = max account.base base in
    let used' = filter (λ n. ltb base' n) (account.used ++ used) in
    record account {
      base = base';
      used = used';
      handed = filter (keeps_lease base' used' now) account.handed;
      handout =
          if ltb (2 * handout_history) (length account.handout)
          then filter (keeps_handout base') account.handout
          else account.handout;
    }

-- `_hand_out`; `id` is what `next(self._handouts)` answers.
unfoldable pub hand_out : Account → (nonce now id : ℕ) → Account
hand_out account nonce now id = record account {
  handed = put nonce now account.handed;
  handout = put nonce id account.handout;
}

-- The highest trusted base, with `base` recorded.
abbrev pub raise_trusted : Option ℕ → ℕ → ℕ
raise_trusted none base = base
raise_trusted (some t) base = if ltb t base then base else t

-- The body of `trust_base`.
unfoldable pub trust : Account → ℕ → Account
trust account base =
    let trusted = raise_trusted account.trusted_base base in
    record account {
      trusted_base = some trusted;
      base = if ltb trusted account.base then trusted else account.base;
    }

-- The test of `is_used`.
unfoldable pub knows_used : Account → ℕ → Bool
knows_used account nonce = leb nonce account.base || contains nonce account.used

-- Used above the base, or handed out.
unfoldable pub is_taken : Account → ℕ → Bool
is_taken account nonce = contains nonce account.used || has_key nonce account.handed

-- The loop of `take`: the first of `count` nonces from `nonce` on that is not taken.
unfoldable pub scan : Account → (count nonce : ℕ) → Option ℕ
unfolding is_taken
scan account zero nonce = none
scan account (suc count) nonce =
    let later = scan account count (nonce + 1) in
    if not (is_taken account nonce) then some nonce else later

-- The bodies of the methods that may hand a nonce out; the flag or the nonce is what they return.
unfoldable pub grant : Account → (now id : ℕ) → Option ℕ → Account × Option ℕ
unfolding hand_out
grant account now id none = (account, none)
grant account now id (some nonce) = (hand_out account nonce now id, some nonce)

unfoldable pub take : Account → (base now id : ℕ) → (used : List ℕ) → Account × Option ℕ
unfolding refresh scan grant
take account base now id used =
    let account' = refresh account base now used in
    grant account' now id (scan account' window (account'.base + 1))

unfoldable pub hold : Account → (nonce now id : ℕ) → Account × Bool
unfolding hand_out
hold account nonce now id =
    if ltb account.base nonce then (hand_out account nonce now id, true) else (account, false)

-- `claim` and `reclaim`, once the node's answer is read into the record.
unfoldable pub claim_read : Account → (nonce now id : ℕ) → Account × Bool
unfolding hand_out is_taken
claim_read account nonce now id =
    if not (ltb account.base nonce && leb nonce (account.base + window))
    then (account, false)
    else if is_taken account nonce
    then (account, false)
    else (hand_out account nonce now id, true)

unfoldable pub claim : Account → (base nonce now id : ℕ) → (used : List ℕ) → Account × Bool
unfolding refresh claim_read
claim account base nonce now id used = claim_read (refresh account base now used) nonce now id

-- Whether another transaction was handed the nonce since.
abbrev pub is_other : Option ℕ → Option ℕ → Bool
is_other none handout = false
is_other (some current) none = true
is_other (some current) (some ours) = not (current == ours)

-- The record of the hand-out after `reclaim`, and whether a fresh id was taken for it.
abbrev pub restore_handout : Dict ℕ ℕ → ℕ → Option ℕ → Option ℕ → ℕ → Dict ℕ ℕ × Bool
restore_handout d nonce (some current) handout id = (d, false)
restore_handout d nonce none (some ours) id = (put nonce ours d, false)
restore_handout d nonce none none id = (put nonce id d, true)

-- What it returns, and whether it took a fresh id.
unfoldable pub reclaim_read :
    Account → (nonce : ℕ) → (handout : Option ℕ) → (now id : ℕ) → Account × Bool × Bool
unfolding knows_used
reclaim_read account nonce handout now id =
    let current = get nonce account.handout in
    if is_other current handout
    then (account, false, false)
    else if not (knows_used account nonce)
    then (let (d, fresh) = restore_handout account.handout nonce current handout id in
        (record account { handed = put nonce now account.handed; handout = d }, true, fresh))
    else (account, true, false)

unfoldable pub reclaim :
    Account → (nonce : ℕ) → (handout : Option ℕ) → (now id : ℕ) → Account × Bool × Bool
unfolding refresh reclaim_read
reclaim account nonce handout now id =
    reclaim_read (refresh account account.base now []) nonce handout now id

-- `handout is None or account.handout.get(nonce, handout) == handout`
abbrev pub is_ours : Option ℕ → Option ℕ → Bool
is_ours none current = true
is_ours (some ours) none = true
is_ours (some ours) (some current) = current == ours

unfoldable pub settle : Account → (nonce : ℕ) → Outcome → (handout : Option ℕ) → Account
settle account nonce free handout =
    if is_ours handout (get nonce account.handout)
    then record account {
      handed = remove nonce account.handed;
      handout = remove nonce account.handout;
    }
    else account
settle account nonce used_up handout = record account {
  handed = remove nonce account.handed;
  used = if ltb account.base nonce then nonce ∷ account.used else account.used;
}
settle account nonce held handout = account
settle account nonce unknown handout = account

-- The answer of `still_handed_to`.
unfoldable pub still_handed_to : Account → (nonce : ℕ) → (handout : Option ℕ) → Bool
still_handed_to account nonce handout = elim (get nonce account.handout) [
  | none ↦ leb (nonce + handout_history) account.base
  | some current ↦ elim handout [ none ↦ false | some ours ↦ current == ours ]
]
