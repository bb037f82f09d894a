-- ===== src/Cursor/Moves.antt =====
-- The reads of src/willow/grovedb/bincode.py and merk_decoder.py on any input: where a read that
-- succeeds leaves the cursor, and that no read gives the error that stands for a loop cut short.
use willow_sdk_python.Prelude.{
  ℕ, zero, suc, ◌+◌, ◌≤◌, ◌<◌, ◌≡◌, refl, ap, sym, ◌∙◌, arith, Bool, true, false, Bool-cases, inl,
  inr, Bytes, length, take, drop, ltb, leb, if◌then◌else◌,
}
use willow_sdk_python.Prelude.Result.{
  Error, out_of_fuel, end_of_data, Result, ok, err, ok-injective,
}
use willow_sdk_python.Cursor.{
  Cursor, Read, after, ◌>>=◌, pure, raise, refuse_if, advance, read_u8, read_u16, read_raw_bytes,
}

abbrev pub is_fuel : Error → Bool
is_fuel out_of_fuel = true
is_fuel x = false

abbrev pub ran_out {ℓ} : {A : Type ℓ} → Result A → Bool
ran_out (ok a) = false
ran_out (err x) = is_fuel x

-- What a success of an action says of the cursor.
pub record Moved (before now : Cursor) : Type 0 where
  pub input : now.input ≡ before.input
  pub forward : before.offset ≤ now.offset
  pub inside : before.offset ≤ length before.input → now.offset ≤ length before.input

pub record Moves {ℓ} {A : Type ℓ} (m : Read A) : Type ℓ where
  pub run : (r r' : Cursor) (a : A) → m r ≡ ok (a, r') → Moved r r'
  pub ends : (r : Cursor) → ran_out (m r) ≡ false

Moved-refl : (r : Cursor) → Moved r r
Moved-refl r = record { input = refl; forward = omega arith; inside = λ h. h }

pub Moved-trans : (r s t : Cursor) → Moved r s → Moved s t → Moved r t
Moved-trans r s t one two = record {
  input = two.input ∙ one.input;
  forward = omega arith;
  inside = λ h. ground (arith, one.inside h, two.inside, ap length one.input);
}

pub same_cursor {ℓ} :
    {A : Type ℓ} (r r' : Cursor) (a b : A)
    → ◌≡◌ {A = Result (A × Cursor)} (ok (a, r)) (ok (b, r'))
    → r ≡ r'
same_cursor {A = A} r r' a b e = ap (λ (p : A × Cursor). p.1) (ok-injective e)

module _ {ℓ} {A : Type ℓ} where
  pub Moves-pure : (a : A) → Moves (pure a)
  unfolding pure
  Moves-pure a = record {
    run = λ r r' b e. rw (← same_cursor r r' a b e) (Moved-refl r);
    ends = λ r. refl;
  }

  pub Moves-raise : (x : Error) → is_fuel x ≡ false → Moves (raise {A = A} x)
  unfolding raise
  Moves-raise x other = record { run = λ r r' b e. cc; ends = λ r. other }

  pub Moves-if : (b : Bool) (m n : Read A) → Moves m → Moves n → Moves (if b then m else n)
  Moves-if true m n hm hn = hm
  Moves-if false m n hm hn = hn

pub Moves-refuse_if : (b : Bool) (x : Error) → is_fuel x ≡ false → Moves (refuse_if b x)
unfolding refuse_if
Moves-refuse_if true x other = record { run = λ r r' b e. cc; ends = λ r. other }
Moves-refuse_if false x other = record {
  run = λ r r' b e. rw (← same_cursor r r' tt b e) (Moved-refl r);
  ends = λ r. refl;
}

module _ {ℓ κ} {A : Type ℓ} {B : Type κ} where
  Moved-after :
      (r r' : Cursor) (x : Result (A × Cursor)) (f : A → Read B) (b : B)
      → ((s : Cursor) (a : A) → x ≡ ok (a, s) → Moved r s)
      → ((a : A) → Moves (f a))
      → after x f ≡ ok (b, r')
      → Moved r r'
  Moved-after r r' (ok (a, s)) f b hm hf e = Moved-trans r s r' (hm s a refl) ((hf a).run s r' b e)
  Moved-after r r' (err x) f b hm hf e = cc

  after-ends :
      (x : Result (A × Cursor)) (f : A → Read B)
      → ran_out x ≡ false
      → ((a : A) → Moves (f a))
      → ran_out (after x f) ≡ false
  after-ends (ok (a, s)) f hx hf = (hf a).ends s
  after-ends (err x) f hx hf = hx

  pub Moves-bind :
      (m : Read A) (f : A → Read B) → Moves m → ((a : A) → Moves (f a)) → Moves (m >>= f)
  unfolding ◌>>=◌
  Moves-bind m f hm hf = record {
    run = λ r r' b e. Moved-after r r' (m r) f b (λ s a p. hm.run r s a p) hf e;
    ends = λ r. after-ends (m r) f (hm.ends r) hf;
  }

moved_by : (n : ℕ) (r : Cursor) → r.offset + n ≤ length r.input → Moved r (advance n r)
moved_by n r h = record { input = refl; forward = omega arith; inside = λ _. h }

moved_unless {ℓ} :
    {A : Type ℓ} (bad : Bool) (x : Error) (n : ℕ) (r r' : Cursor) (a b : A)
    → (bad ≡ false → r.offset + n ≤ length r.input)
    → ◌≡◌ {A = Result (A × Cursor)} (if bad then err x else ok (a, advance n r)) (ok (b, r'))
    → Moved r r'
moved_unless true x n r r' a b fits e = cc
moved_unless false x n r r' a b fits e =
    rw (← same_cursor (advance n r) r' a b e) (moved_by n r (fits refl))

ends_unless {ℓ} :
    {A : Type ℓ} (bad : Bool) (x : Error) (y : A)
    → is_fuel x ≡ false
    → ran_out (if bad then err x else ok y) ≡ false
ends_unless true x y other = other
ends_unless false x y other = refl

pub Moves-read_u8 : Moves read_u8
unfolding read_u8
Moves-read_u8 = record {
  run = λ r r' b e. moved_unless _ _ 1 r r' _ b (λ h. ground arith) e;
  ends = λ r. ends_unless _ end_of_data _ refl;
}

pub Moves-read_u16 : Moves read_u16
unfolding read_u16
Moves-read_u16 = record {
  run = λ r r' b e. moved_unless _ _ 2 r r' _ b (λ h. ground arith) e;
  ends = λ r. ends_unless _ end_of_data _ refl;
}

pub Moves-read_raw_bytes : (n : ℕ) → Moves (read_raw_bytes n)
unfolding read_raw_bytes
Moves-read_raw_bytes n = record {
  run = λ r r' b e. moved_unless _ _ n r r' _ b (λ h. ground arith) e;
  ends = λ r. ends_unless _ end_of_data _ refl;
}

-- A byte read is a byte passed.
pub read_u8-advances : (r r' : Cursor) (b : ℕ) → read_u8 r ≡ ok (b, r') → r' ≡ advance 1 r
unfolding read_u8
read_u8-advances r r' b e = elim (Bool-cases (leb (length r.input) r.offset)) [
  | inl over ↦ cc (rw (read_u8, over) at e)
  | inr more ↦ sym (same_cursor (advance 1 r) r' _ b (rw (read_u8, more) at e))
]

pub ruleset move_rules = (
  Moves-pure, Moves-raise, Moves-if, Moves-refuse_if, Moves-bind, Moves-read_u8, Moves-read_u16,
  Moves-read_raw_bytes, refl,
)
