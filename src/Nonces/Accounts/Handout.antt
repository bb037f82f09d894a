-- ===== src/Nonces/Accounts/Handout.antt =====
-- src/willow/nonces.py, `NonceTracker.take` and `NonceTracker.settle`: a nonce given back.
use willow_sdk_python.Prelude.{
  ℕ, zero, suc, ◌+◌, ◌≤◌, ◌<◌, ◌≡◌, inl, inr, max, true, false, ◌||◌, Option, none, some, List,
  arith, ==_iff, ◌==◌, Bool-cases, refl, ap, sym, ◌∙◌, if◌then◌else◌,
}
use willow_sdk_python.Prelude.Dict.{put, remove, contains, nat_key, get-put, get-remove}
use willow_sdk_python.Nonces.Accounts.{
  Account, refresh, hand_out, is_taken, scan, grant, take, settle, window, free,
}
use willow_sdk_python.Nonces.Accounts.Refresh.{
  IsDict, is_taken-refresh, contains-refresh, get-handed-refresh, base-refresh, refresh-IsDict,
  hand_out-IsDict, settle-IsDict,
}
use willow_sdk_python.Nonces.Accounts.Take.{take-some, scan-some, scan_below}

-- The scan finds the first nonce that is not taken.
scan_finds :
    (a : Account) (count n m : ℕ)
    → n ≤ m
    → m < n + count
    → is_taken a m ≡ false
    → ((j : ℕ) → n ≤ j → j < m → is_taken a j ≡ true)
    → scan a count n ≡ some m
unfolding scan
scan_finds a zero n m lo hi open' below = absurd (omega arith)
scan_finds a (suc count) n m lo hi open' below = elim (Bool-cases (n == m)) [
  | inl same ↦ ground (arith, ==_iff n m)
  | inr apart ↦
      let step : suc n ≤ m = ground arith in
      let later : n + 1 ≤ m = omega arith in
      rw (below n (omega arith) step)
        (scan_finds a count (n + 1) m later (omega arith) open' (λ j l h. below j (omega arith) h))
]

grant-answer : (a : Account) (now id : ℕ) (o : Option ℕ) → (grant a now id o).1 ≡ o
unfolding grant
grant-answer a now id none = refl
grant-answer a now id (some n) = refl

module _ (a : Account) (base now id id' n : ℕ) (used : List ℕ) {a' : Account} (d : IsDict a)
    (handed : take a base now id used ≡ (a', some n)) where
  abbrev first : Account
  first = refresh a base now used

  abbrev given_back : Account
  given_back = settle (hand_out first n now id) n free (some id)

  given_back_settled : given_back ≡ settle a' n free (some id)
  given_back_settled =
      ap (λ (x : Account). settle x n free (some id)) (sym (take-some a base now id used handed).1)

  given_back_parts :
      (given_back.base ≡ first.base)
      × (given_back.used ≡ first.used)
      × (given_back.handed ≡ remove n (put n now first.handed))
  unfolding settle hand_out
  given_back_parts = ground (arith, get-put n n id first.handout)

  given_back-IsDict : IsDict given_back
  given_back-IsDict =
      settle-IsDict _ n free (some id)
        (hand_out-IsDict _ n now id (refresh-IsDict a base now used d))

  abbrev second : Account
  second = refresh given_back base now used

  -- Above the base the rereading finds taken what was taken, but for the nonce given back.
  same_taken :
      (j : ℕ)
      → max a.base base < j
      → is_taken second j
        ≡ (if n == j then contains j first.used || contains j used else is_taken first j)
  unfolding is_taken
  same_taken j above =
      let (same_base, same_used, same_handed) = given_back_parts in
      let kept = get-handed-refresh a base now j used d.handed in
      is_taken-refresh given_back base now j used given_back-IsDict.handed
        (omega (arith, same_base, base-refresh a base now used))
      ∙ rw (same_used, same_handed, get-remove, get-put)
          (ground (arith, kept, contains-refresh a base now j used))

  not_used :
      max a.base base < n
      → is_taken first n ≡ false
      → (contains n first.used || contains n used) ≡ false
  unfolding is_taken
  not_used above open' = ground (arith, contains-refresh a base now n used)

  rescan : scan second window (second.base + 1) ≡ some n
  rescan =
      let (found, state) = take-some a base now id used handed in
      let (lo, hi, open') = scan-some first window (first.base + 1) n found in
      let base_first : first.base ≡ max a.base base = base-refresh a base now used in
      let base_second : second.base ≡ first.base =
        omega (arith, base-refresh given_back base now used, given_back_parts.0, base_first) in
      let above : max a.base base < n = omega (arith, lo, base_first) in
      let unused = not_used above open' in
      scan_finds second window (second.base + 1) n (omega (arith, lo, base_second))
        (omega (arith, hi, base_second)) (same_taken n above ∙ ground (arith, unused))
        (λ j l h.
          same_taken j (omega (arith, l, base_second, base_first))
          ∙ ground (
            arith,
            scan_below first window (first.base + 1) n found j (omega (arith, l, base_second)) h,
          ))

  -- On a record with one entry for a key, a nonce that `take` answered and whose transaction was never sent, or refused without using it,
  -- leaves no gap once it is given back: the next `take` with the node's same answer, at the same
  -- time, answers it again.
  pub take-settle-take : (take (settle a' n free (some id)) base now id' used).1 ≡ some n
  unfolding take
  take-settle-take =
      rw (← given_back_settled)
        (grant-answer second now id' (scan second window (second.base + 1)) ∙ rescan)
