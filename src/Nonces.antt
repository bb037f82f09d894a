-- ===== src/Nonces.antt =====
-- src/willow/nonces.py: the nonces one client has handed out, for each signing DID.
--
-- A dictionary is an association list with one entry for a key, a set a list read by membership.
-- The clock is an argument, in nanoseconds; `next(self._handouts)` is the counter `next_handout`.
-- The lock makes each method one step, so a method is a function on the tracker.
pub mod Accounts
pub mod State
use Prim.Native.String.{String}
use willow_sdk_python.Prelude.{
  ℕ, ◌+◌, Bool, true, false, Option, none, some, List, [], if◌then◌else◌,
}
use willow_sdk_python.Prelude.Dict.{Dict, get, put, string_key, nat_key}
use willow_sdk_python.Nonces.Accounts.{Account, Outcome, free, empty}

pub record NonceTracker : Type 0 where
  pub accounts : Dict String Account
  pub next_handout : ℕ

abbrev pub fresh_tracker : NonceTracker
fresh_tracker = record { accounts = []; next_handout = 1 }

abbrev pub or_empty : Option Account → Account
or_empty none = empty
or_empty (some account) = account

-- `_account`, which enters an empty record for a DID that has none: every method stores the record
-- that it read or changed.
unfoldable pub account_of : NonceTracker → String → Account
account_of t did = or_empty (get did t.accounts)

unfoldable pub store : NonceTracker → String → Account → NonceTracker
store t did account = record t { accounts = put did account t.accounts }

-- Stores the record and counts the hand-outs made.
abbrev pub store_handing : NonceTracker → String → Account → Bool → NonceTracker
store_handing t did account handed = record {
  accounts = put did account t.accounts;
  next_handout = if handed then t.next_handout + 1 else t.next_handout;
}

abbrev is_some : Option ℕ → Bool
is_some none = false
is_some (some n) = true

unfoldable pub observe : NonceTracker → String → (base now : ℕ) → (used : List ℕ) → NonceTracker × ℕ
unfolding account_of store
observe t did base now used =
    let account = Accounts.refresh (account_of t did) base now used in
    (store t did account, account.base)

unfoldable pub trust_base : NonceTracker → String → ℕ → NonceTracker
unfolding account_of store
trust_base t did base = store t did (Accounts.trust (account_of t did) base)

unfoldable pub last_trusted_base : NonceTracker → String → NonceTracker × Option ℕ
unfolding account_of store
last_trusted_base t did =
    let account = account_of t did in (store t did account, account.trusted_base)

unfoldable pub is_used : NonceTracker → String → ℕ → NonceTracker × Bool
unfolding account_of store
is_used t did nonce =
    let account = account_of t did in (store t did account, Accounts.knows_used account nonce)

unfoldable pub take :
    NonceTracker → String → (base now : ℕ) → (used : List ℕ) → NonceTracker × Option ℕ
unfolding account_of
take t did base now used =
    let (account, nonce) = Accounts.take (account_of t did) base now t.next_handout used in
    (store_handing t did account (is_some nonce), nonce)

unfoldable pub hold : NonceTracker → String → (nonce now : ℕ) → NonceTracker
unfolding account_of
hold t did nonce now =
    let (account, handed) = Accounts.hold (account_of t did) nonce now t.next_handout in
    store_handing t did account handed

unfoldable pub claim :
    NonceTracker → String → (base nonce now : ℕ) → (used : List ℕ) → NonceTracker × Bool
unfolding account_of
claim t did base nonce now used =
    let (account, handed) = Accounts.claim (account_of t did) base nonce now t.next_handout used in
    (store_handing t did account handed, handed)

unfoldable pub handout : NonceTracker → String → ℕ → NonceTracker × Option ℕ
unfolding account_of store
handout t did nonce =
    let account = account_of t did in (store t did account, get nonce account.handout)

unfoldable pub still_handed_to : NonceTracker → String → ℕ → Option ℕ → NonceTracker × Bool
unfolding account_of store
still_handed_to t did nonce handout =
    let account = account_of t did in
    (store t did account, Accounts.still_handed_to account nonce handout)

unfoldable pub reclaim :
    NonceTracker → String → (nonce : ℕ) → Option ℕ → (now : ℕ) → NonceTracker × Bool
unfolding account_of
reclaim t did nonce handout now =
    let (account, renewed, fresh) =
      Accounts.reclaim (account_of t did) nonce handout now t.next_handout in
    (store_handing t did account fresh, renewed)

unfoldable pub settle : NonceTracker → String → (nonce : ℕ) → Outcome → Option ℕ → NonceTracker
unfolding account_of store
settle t did nonce outcome handout =
    store t did (Accounts.settle (account_of t did) nonce outcome handout)

unfoldable pub release : NonceTracker → String → (nonce : ℕ) → Option ℕ → NonceTracker
unfolding settle
release t did nonce handout = settle t did nonce free handout
