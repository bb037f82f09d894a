-- ===== src/Nonces/Accounts/Refresh.antt =====
-- src/willow/nonces.py, `NonceTracker._refresh`: the node's answer read into a record.
use willow_sdk_python.Prelude.{
  ℕ, ◌+◌, ◌<◌, ◌≡◌, refl, max, Bool, false, ◌&&◌, ◌||◌, Option, none, some, List, arith, ltb,
  Bool-cases, inl, inr,
}
use willow_sdk_python.Prelude.Dict.{
  Dict, get, contains, nat_key, contains-filter, contains-append, get-filter, filter-IsUnique,
  IsUnique, keep_some, put-IsUnique, remove-IsUnique,
}
use willow_sdk_python.Nonces.Accounts.{
  Account, restore_handout, grant, hold, claim_read, reclaim_read, trust, refresh, is_taken,
  hand_out, is_leased, keeps_lease, handout_history, settle, trust, Outcome, free, used_up, held,
  unknown,
}

-- One entry for a key in each dictionary, as in every Python `dict`.
pub record IsDict (a : Account) : Type 0 where
  pub handed : IsUnique a.handed
  pub handout : IsUnique a.handout

-- The base becomes the highest seen, and no nonce once used is forgotten: it stays in the set of
-- used nonces or lies at or below the base.
pub contains-refresh :
    (a : Account) (base now n : ℕ) (used : List ℕ)
    → contains n (refresh a base now used).used
      ≡ (ltb (max a.base base) n && (contains n a.used || contains n used))
unfolding refresh
contains-refresh a base now n used = rw (contains-filter, contains-append)

pub get-handed-refresh :
    (a : Account) (base now n : ℕ) (used : List ℕ)
    → IsUnique a.handed
    → get n (refresh a base now used).handed
      ≡ keep_some
          (keeps_lease (max a.base base) (refresh a base now used).used now)
          n
          (get n a.handed)
unfolding refresh
get-handed-refresh a base now n used u = get-filter _ n a.handed u

pub base-refresh :
    (a : Account) (base now : ℕ) (used : List ℕ) → (refresh a base now used).base ≡ max a.base base
unfolding refresh
base-refresh a base now used = refl

pub refresh-IsDict :
    (a : Account) (base now : ℕ) (used : List ℕ) → IsDict a → IsDict (refresh a base now used)
unfolding refresh
refresh-IsDict a base now used d = record {
  handed = filter-IsUnique _ a.handed d.handed;
  handout = ground (
    arith,
    filter-IsUnique (λ e. ltb (max a.base base) (e.0 + handout_history)) a.handout d.handout,
  );
}

pub hand_out-IsDict : (a : Account) (n now id : ℕ) → IsDict a → IsDict (hand_out a n now id)
unfolding hand_out
hand_out-IsDict a n now id d = record {
  handed = put-IsUnique n now a.handed d.handed;
  handout = put-IsUnique n id a.handout d.handout;
}

-- A lease that still runs.
abbrev pub has_lease : ℕ → Option ℕ → Bool
has_lease now none = false
has_lease now (some at) = is_leased now at

-- Above the base, a nonce is taken after the answer is read exactly when it was used, is reported
-- used, or was handed out less than the lease time ago.
pub is_taken-refresh :
    (a : Account) (base now n : ℕ) (used : List ℕ)
    → IsUnique a.handed
    → max a.base base < n
    → is_taken (refresh a base now used) n
      ≡ (contains n a.used || contains n used || has_lease now (get n a.handed))
unfolding is_taken
is_taken-refresh a base now n used u above =
    ground (arith, contains-refresh a base now n used, get-handed-refresh a base now n used u)

pub settle-IsDict :
    (a : Account) (n : ℕ) (o : Outcome) (handout : Option ℕ)
    → IsDict a
    → IsDict (settle a n o handout)
unfolding settle
settle-IsDict a n free handout d = ground (
  arith,
  d.handed,
  d.handout,
  remove-IsUnique n a.handed d.handed,
  remove-IsUnique n a.handout d.handout,
)
settle-IsDict a n used_up handout d = record {
  handed = remove-IsUnique n a.handed d.handed;
  handout = d.handout;
}
settle-IsDict a n held handout d = d
settle-IsDict a n unknown handout d = d

pub trust-IsDict : (a : Account) (base : ℕ) → IsDict a → IsDict (trust a base)
unfolding trust
trust-IsDict a base d = record { handed = d.handed; handout = d.handout }

pub grant-IsDict :
    (a : Account) (now id : ℕ) (o : Option ℕ) → IsDict a → IsDict (grant a now id o).0
unfolding grant
grant-IsDict a now id none d = d
grant-IsDict a now id (some n) d = hand_out-IsDict a n now id d

pub hold-IsDict : (a : Account) (n now id : ℕ) → IsDict a → IsDict (hold a n now id).0
unfolding hold
hold-IsDict a n now id d = elim (Bool-cases (ltb a.base n)) [
  | inl above ↦ rw above (hand_out-IsDict a n now id d)
  | inr below ↦ rw below d
]

pub claim_read-IsDict : (a : Account) (n now id : ℕ) → IsDict a → IsDict (claim_read a n now id).0
unfolding claim_read
claim_read-IsDict a n now id d = ground (arith, d, hand_out-IsDict a n now id d)

restore_handout-IsUnique :
    (d : Dict ℕ ℕ) (n : ℕ) (current handout : Option ℕ) (id : ℕ)
    → IsUnique d
    → IsUnique (restore_handout d n current handout id).0
restore_handout-IsUnique d n (some current) handout id u = u
restore_handout-IsUnique d n none (some ours) id u = put-IsUnique n ours d u
restore_handout-IsUnique d n none none id u = put-IsUnique n id d u

pub reclaim_read-IsDict :
    (a : Account) (n : ℕ) (handout : Option ℕ) (now id : ℕ)
    → IsDict a
    → IsDict (reclaim_read a n handout now id).0
unfolding reclaim_read
reclaim_read-IsDict a n handout now id d = ground (
  arith,
  d.handed,
  d.handout,
  put-IsUnique n now a.handed d.handed,
  restore_handout-IsUnique a.handout n (get n a.handout) handout id d.handout,
)
