-- ===== src/Nonces/Accounts/Take.antt =====
-- src/willow/nonces.py, `NonceTracker.take`: the scan of the window.
use willow_sdk_python.Prelude.{
  ℕ, zero, suc, ◌+◌, ◌≤◌, ◌<◌, ◌≡◌, inl, inr, max, Bool, true, false, ◌||◌, Option, none, some,
  List, arith, Bool-cases, refl, ap, sym, ◌∙◌,
}
use willow_sdk_python.Prelude.Dict.{get, contains, nat_key}
use willow_sdk_python.Nonces.Accounts.{
  Account, refresh, hand_out, is_taken, scan, grant, take, window,
}
use willow_sdk_python.Nonces.Accounts.Refresh.{IsDict, has_lease, is_taken-refresh}

-- A nonce found is the first that is not taken, and none is found only if all are taken.
pub scan-some :
    (a : Account) (count n m : ℕ)
    → scan a count n ≡ some m
    → (n ≤ m) × (m < n + count) × (is_taken a m ≡ false)
unfolding scan
scan-some a zero n m e = cc
scan-some a (suc count) n m e = ground (arith, scan-some a count (n + 1) m)

pub scan_below :
    (a : Account) (count n m : ℕ)
    → scan a count n ≡ some m
    → (j : ℕ) → n ≤ j
    → j < m
    → is_taken a j ≡ true
unfolding scan
scan_below a zero n m e j lo hi = cc
scan_below a (suc count) n m e j lo hi = elim (Bool-cases (is_taken a n)) [
  | inl busy ↦ ground (arith, scan_below a count (n + 1) m (ground arith) j)
  | inr open' ↦ ground arith
]

scan-none :
    (a : Account) (count n : ℕ)
    → scan a count n ≡ none
    → (j : ℕ) → n ≤ j
    → j < n + count
    → is_taken a j ≡ true
unfolding scan
scan-none a zero n e j lo hi = absurd (omega arith)
scan-none a (suc count) n e j lo hi = elim (Bool-cases (is_taken a n)) [
  | inl busy ↦ ground (arith, scan-none a count (n + 1) (ground arith) j)
  | inr open' ↦ ground arith
]

grant-some :
    (a : Account) (now id : ℕ) (o : Option ℕ) {a' : Account} {n : ℕ}
    → grant a now id o ≡ (a', some n)
    → (o ≡ some n) × (a' ≡ hand_out a n now id)
unfolding grant
grant-some a now id none e = cc (ap (λ (p : Account × Option ℕ). p.1) e)
grant-some a now id (some m) {a'} {n} e =
    let same : m ≡ n = cc (ap (λ (p : Account × Option ℕ). p.1) e) in
    (
      ap some same,
      sym (ap (λ (p : Account × Option ℕ). p.0) e) ∙ ap (λ (k : ℕ). hand_out a k now id) same,
    )

grant-none :
    (a : Account) (now id : ℕ) (o : Option ℕ) {a' : Account}
    → grant a now id o ≡ (a', none)
    → (o ≡ none) × (a' ≡ a)
unfolding grant
grant-none a now id none e = (refl, sym (ap (λ (p : Account × Option ℕ). p.0) e))
grant-none a now id (some m) e = cc (ap (λ (p : Account × Option ℕ). p.1) e)

-- Used before, reported used, or handed out less than the lease time ago.
abbrev pub is_busy : Account → (now : ℕ) → (used : List ℕ) → ℕ → Bool
is_busy a now used n = contains n a.used || contains n used || has_lease now (get n a.handed)

module _ (a : Account) (base now id : ℕ) (used : List ℕ) where
  abbrev read : Account
  read = refresh a base now used

  -- `take` answers a nonce of the scan and hands it out.
  pub take-some :
      {a' : Account} {n : ℕ}
      → take a base now id used ≡ (a', some n)
      → (scan read window (read.base + 1) ≡ some n) × (a' ≡ hand_out read n now id)
  unfolding take
  take-some e = grant-some read now id (scan read window (read.base + 1)) e

  pub take-none :
      {a' : Account}
      → take a base now id used ≡ (a', none)
      → (scan read window (read.base + 1) ≡ none) × (a' ≡ read)
  unfolding take
  take-none e = grant-none read now id (scan read window (read.base + 1)) e

  base-refresh : read.base ≡ max a.base base
  unfolding refresh
  base-refresh = refl

  -- On a record with one entry for a key, the nonce that `take` answers lies in the window of 24 above the highest base seen and is not
  -- busy; the record is the refreshed one with that nonce handed out.
  pub take_lowest :
      {a' : Account} {n : ℕ}
      → IsDict a
      → take a base now id used ≡ (a', some n)
      → (max a.base base < n)
        × (n ≤ max a.base base + 24)
        × (is_busy a now used n ≡ false)
        × (a' ≡ hand_out read n now id)
  take_lowest {n = n} d e =
      let (found, state) = take-some e in
      let (lo, hi, open') = scan-some read window (read.base + 1) n found in
      let lo' : max a.base base < n = omega (arith, base-refresh) in
      let hi' : n ≤ max a.base base + 24 = omega (arith, base-refresh) in
      (lo', hi', sym (is_taken-refresh a base now n used d.handed lo') ∙ open', state)

  -- On a record with one entry for a key, every nonce between the highest base seen and the nonce that `take` answers is busy.
  pub take_skips_busy :
      {a' : Account} {n : ℕ}
      → IsDict a
      → take a base now id used ≡ (a', some n)
      → (j : ℕ) → max a.base base < j
      → j < n
      → is_busy a now used j ≡ true
  take_skips_busy {n = n} d e j above below =
      sym (is_taken-refresh a base now j used d.handed above)
      ∙ scan_below read window (read.base + 1) n (take-some e).0 j (omega (arith, base-refresh))
          below

  -- On a record with one entry for a key, `take` answers nothing only when each of the 24 nonces above the highest base seen is busy.
  pub take_exhausted :
      {a' : Account}
      → IsDict a
      → take a base now id used ≡ (a', none)
      → (j : ℕ) → max a.base base < j
      → j ≤ max a.base base + 24
      → is_busy a now used j ≡ true
  take_exhausted d e j above below =
      sym (is_taken-refresh a base now j used d.handed above)
      ∙ scan-none read window (read.base + 1) (take-none e).0 j (omega (arith, base-refresh))
          (omega (arith, base-refresh))
