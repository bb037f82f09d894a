-- ===== src/Nonces/Accounts/Lease.antt =====
-- src/willow/nonces.py: the steps that the methods make on one record while a lease runs.
use willow_sdk_python.Prelude.{
  ℕ, ◌+◌, ◌≤◌, ◌<◌, ◌≡◌, ◌≢◌, ◌⊎◌, inl, inr, max, Bool, true, false, ◌||◌, Option, none, some, List,
  [], arith, refl, leb, ltb, Bool-cases,
}
use willow_sdk_python.Prelude.Dict.{get, contains, nat_key, get-put, get-remove}
use willow_sdk_python.Nonces.Accounts.{
  Account, refresh, hand_out, is_taken, grant, take, hold, claim, claim_read, reclaim, reclaim_read,
  settle, trust, lease_time, Outcome, free, used_up, held, unknown,
}
use willow_sdk_python.Nonces.Accounts.Take.{take-some, take_lowest}
use willow_sdk_python.Nonces.Accounts.Refresh.{
  is_taken-refresh, IsDict, base-refresh, contains-refresh, get-handed-refresh, refresh-IsDict,
  hand_out-IsDict, settle-IsDict, trust-IsDict, grant-IsDict, hold-IsDict, claim_read-IsDict,
  reclaim_read-IsDict,
}

-- Used, or handed out under a lease that runs until `deadline`.
abbrev leased_until : ℕ → Option ℕ → Bool
leased_until deadline none = false
leased_until deadline (some at) = leb deadline (at + lease_time)

abbrev pub is_reserved : (deadline n : ℕ) → Account → Bool
is_reserved deadline n a =
    leb n a.base || contains n a.used || leased_until deadline (get n a.handed)

module _ (deadline n : ℕ) where
  refresh-is_reserved :
      (a : Account) (base now : ℕ) (used : List ℕ)
      → IsDict a
      → now < deadline
      → is_reserved deadline n a ≡ true
      → is_reserved deadline n (refresh a base now used) ≡ true
  refresh-is_reserved a base now used d early h = ground (
    arith,
    base-refresh a base now used,
    contains-refresh a base now n used,
    get-handed-refresh a base now n used d.handed,
  )

  hand_out-is_reserved :
      (a : Account) (m now id : ℕ)
      → deadline ≤ now + lease_time
      → is_reserved deadline n a ≡ true
      → is_reserved deadline n (hand_out a m now id) ≡ true
  unfolding hand_out
  hand_out-is_reserved a m now id late h = ground (arith, get-put m n now a.handed)

  grant-is_reserved :
      (a : Account) (now id : ℕ) (o : Option ℕ)
      → deadline ≤ now + lease_time
      → is_reserved deadline n a ≡ true
      → is_reserved deadline n (grant a now id o).0 ≡ true
  unfolding grant
  grant-is_reserved a now id none late h = h
  grant-is_reserved a now id (some m) late h = hand_out-is_reserved a m now id late h

  hold-is_reserved :
      (a : Account) (m now id : ℕ)
      → deadline ≤ now + lease_time
      → is_reserved deadline n a ≡ true
      → is_reserved deadline n (hold a m now id).0 ≡ true
  unfolding hold
  hold-is_reserved a m now id late h = elim (Bool-cases (ltb a.base m)) [
    | inl above ↦ rw above (hand_out-is_reserved a m now id late h)
    | inr below ↦ rw below h
  ]

  settle-is_reserved :
      (a : Account) (m : ℕ) (o : Outcome) (handout : Option ℕ)
      → (m ≢ n) ⊎ (o ≢ free)
      → is_reserved deadline n a ≡ true
      → is_reserved deadline n (settle a m o handout) ≡ true
  unfolding settle contains
  settle-is_reserved a m free handout (inl other) h = ground (arith, get-remove m n a.handed)
  settle-is_reserved a m free handout (inr kept) h = absurd (kept refl)
  settle-is_reserved a m used_up handout other h = ground (arith, get-remove m n a.handed)
  settle-is_reserved a m held handout other h = h
  settle-is_reserved a m unknown handout other h = h

  trust-is_reserved :
      (a : Account) (base : ℕ)
      → (trust a base).base ≡ a.base
      → is_reserved deadline n a ≡ true
      → is_reserved deadline n (trust a base) ≡ true
  unfolding trust
  trust-is_reserved a base same h = ground arith

  claim_read-is_reserved :
      (a : Account) (m now id : ℕ)
      → deadline ≤ now + lease_time
      → is_reserved deadline n a ≡ true
      → is_reserved deadline n (claim_read a m now id).0 ≡ true
  unfolding claim_read
  claim_read-is_reserved a m now id late h = ground (arith, hand_out-is_reserved a m now id late h)

  reclaim_read-is_reserved :
      (a : Account) (m : ℕ) (handout : Option ℕ) (now id : ℕ)
      → deadline ≤ now + lease_time
      → is_reserved deadline n a ≡ true
      → is_reserved deadline n (reclaim_read a m handout now id).0 ≡ true
  unfolding reclaim_read
  reclaim_read-is_reserved a m handout now id late h = ground (arith, get-put m n now a.handed)

pub record IsKept (deadline n : ℕ) (a : Account) : Type 0 where
  pub dict : IsDict a
  pub reserved : is_reserved deadline n a ≡ true

read :
    {deadline n : ℕ} (a : Account) (base now : ℕ) (used : List ℕ)
    → now < deadline
    → IsKept deadline n a
    → IsKept deadline n (refresh a base now used)
read {deadline} {n} a base now used early k = record {
  dict = refresh-IsDict a base now used k.dict;
  reserved = refresh-is_reserved deadline n a base now used k.dict early k.reserved;
}

-- The states of a record while the clock stays before `deadline` and at most the lease time before
-- it: any method may run, but a submission under `n` that left it free, or a trusted base that
-- takes the base back.
pub data Step (deadline n : ℕ) : Account → Account → Type 0 where
  observed :
      (a : Account) (base now : ℕ) (used : List ℕ)
      → now < deadline
      → Step deadline n a (refresh a base now used)
  taken :
      (a : Account) (base now id : ℕ) (used : List ℕ)
      → now < deadline
      → deadline ≤ now + lease_time
      → Step deadline n a (take a base now id used).0
  claimed :
      (a : Account) (base m now id : ℕ) (used : List ℕ)
      → now < deadline
      → deadline ≤ now + lease_time
      → Step deadline n a (claim a base m now id used).0
  was_held :
      (a : Account) (m now id : ℕ)
      → deadline ≤ now + lease_time
      → Step deadline n a (hold a m now id).0
  reclaimed :
      (a : Account) (m : ℕ) (handout : Option ℕ) (now id : ℕ)
      → now < deadline
      → deadline ≤ now + lease_time
      → Step deadline n a (reclaim a m handout now id).0
  settled :
      (a : Account) (m : ℕ) (o : Outcome) (handout : Option ℕ)
      → (m ≢ n) ⊎ (o ≢ free)
      → Step deadline n a (settle a m o handout)
  trusted :
      (a : Account) (base : ℕ) → (trust a base).base ≡ a.base → Step deadline n a (trust a base)

pub data Reach (deadline n : ℕ) (a : Account) : Account → Type 0 where
  here : Reach deadline n a a
  next : {b c : Account} → Reach deadline n a b → Step deadline n b c → Reach deadline n a c

module _ (deadline n : ℕ) where
  Step-IsKept : {a b : Account} → Step deadline n a b → IsKept deadline n a → IsKept deadline n b
  unfolding take claim reclaim
  Step-IsKept (observed a base now used early) k = read a base now used early k
  Step-IsKept (taken a base now id used early late) k =
      let k' = read a base now used early k in
      record {
        dict = grant-IsDict _ now id _ k'.dict;
        reserved = grant-is_reserved deadline n _ now id _ late k'.reserved;
      }
  Step-IsKept (claimed a base m now id used early late) k =
      let k' = read a base now used early k in
      record {
        dict = claim_read-IsDict _ m now id k'.dict;
        reserved = claim_read-is_reserved deadline n _ m now id late k'.reserved;
      }
  Step-IsKept (was_held a m now id late) k = record {
    dict = hold-IsDict a m now id k.dict;
    reserved = hold-is_reserved deadline n a m now id late k.reserved;
  }
  Step-IsKept (reclaimed a m handout now id early late) k =
      let k' = read a a.base now [] early k in
      record {
        dict = reclaim_read-IsDict _ m handout now id k'.dict;
        reserved = reclaim_read-is_reserved deadline n _ m handout now id late k'.reserved;
      }
  Step-IsKept (settled a m o handout other) k = record {
    dict = settle-IsDict a m o handout k.dict;
    reserved = settle-is_reserved deadline n a m o handout other k.reserved;
  }
  Step-IsKept (trusted a base same) k = record {
    dict = trust-IsDict a base k.dict;
    reserved = trust-is_reserved deadline n a base same k.reserved;
  }

  Reach-IsKept : {a b : Account} → IsKept deadline n a → Reach deadline n a b → IsKept deadline n b
  Reach-IsKept k here = k
  Reach-IsKept k (next r s) = Step-IsKept s (Reach-IsKept k r)

-- A nonce just handed out is reserved for the lease time.
hand_out_reserves :
    (a : Account) (n now id : ℕ) → is_reserved (now + lease_time) n (hand_out a n now id) ≡ true
unfolding hand_out
hand_out_reserves a n now id = ground (arith, get-put n n now a.handed)

take-IsKept :
    (a : Account) (base now id : ℕ) (used : List ℕ) {a' : Account} {n : ℕ}
    → IsDict a
    → take a base now id used ≡ (a', some n)
    → IsKept (now + lease_time) n a'
take-IsKept a base now id used {n = n} d e =
    let read = refresh a base now used in
    rw (take-some a base now id used e).1 (record {
      dict = hand_out-IsDict read n now id (refresh-IsDict a base now used d);
      reserved = hand_out_reserves read n now id;
    })

-- A reserved nonce is taken in what `take` and `claim` read, while its lease runs.
reserved_is_taken :
    (a : Account) (deadline base now n : ℕ) (used : List ℕ)
    → IsKept deadline n a
    → now < deadline
    → max a.base base < n
    → is_taken (refresh a base now used) n ≡ true
reserved_is_taken a deadline base now n used k early above =
    ground (arith, k.reserved, is_taken-refresh a base now n used k.dict.handed above)

module _ (a b : Account) (base base' now later id id' n : ℕ) (used used' : List ℕ) {c : Account}
    (d : IsDict a) (handed : take a base now id used ≡ (c, some n))
    (reach : Reach (now + lease_time) n c b) (early : later < now + lease_time) where
  kept : IsKept (now + lease_time) n b
  kept = Reach-IsKept (now + lease_time) n (take-IsKept a base now id used d handed) reach

  -- On a record with one entry for a key, a nonce that `take` answered is not answered by a later `take` while its lease runs, whatever
  -- methods ran in between with the clock neither set back nor past the lease: only a submission under
  -- it that left it free, or a trusted base below the base, is excluded.
  pub take_once : {b' : Account} {m : ℕ} → take b base' later id' used' ≡ (b', some m) → m ≢ n
  take_once {m = m} e same =
      let (above, below, open', state) = take_lowest b base' later id' used' kept.dict e in
      let above' : max b.base base' < n = omega (arith, above) in
      cc (
        reserved_is_taken b (now + lease_time) base' later n used' kept early above',
        is_taken-refresh b base' later n used' kept.dict.handed above',
        open',
        same,
      )

  -- On a record with one entry for a key, a nonce that `take` answered is refused to a later `claim`
  -- while its lease runs, whatever methods ran in between with the clock neither set back nor past the
  -- lease: only a submission under it that left it free, or a trusted base below the base, is
  -- excluded.
  pub claim_refused : (claim b base' n later id' used').1 ≡ false
  unfolding claim claim_read
  claim_refused = ground (
    arith,
    base-refresh b base' later used',
    reserved_is_taken b (now + lease_time) base' later n used' kept early,
  )
