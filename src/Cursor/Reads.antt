-- ===== src/Cursor/Reads.antt =====
-- The reads of src/willow/grovedb/bincode.py and merk_decoder.py on an input that starts with a code.
-- `Reads m a code`: in front of any bytes, `m` reads `code`, all of it and no more, as `a`.
use willow_sdk_python.Prelude.{
  ℕ, zero, suc, ◌+◌, ◌^◌, ◌≤◌, ◌<◌, ◌≡◌, refl, ap, sym, ◌∙◌, arith, Bool, true, false, [], ◌∷◌,
  ◌++◌, Bytes, length, length-append, take, drop, get_or, append_assoc, drop-append, drop-drop,
  length-drop, take-append, append-nil, ◌/◌, ◌%◌, le→ltb,
}
use willow_sdk_python.Prelude.Words.{to_big}
use willow_sdk_python.Prelude.Bits.{bit_or_high}
use willow_sdk_python.Prelude.Result.{Error, Result, ok}
use willow_sdk_python.Cursor.{
  Cursor, Read, after, ◌>>=◌, pure, refuse_if, advance, start, at, read_u8, read_u16,
  read_raw_bytes,
}

abbrev pub rest : Cursor → Bytes
rest r = drop r.offset r.input

pub record Reads {ℓ} {A : Type ℓ} (m : Read A) (a : A) (code : Bytes) : Type ℓ where
  pub run :
      (r : Cursor) (tail : Bytes)
      → r.offset ≤ length r.input
      → rest r ≡ code ++ tail
      → m r ≡ ok (a, advance (length code) r)

rest-advance :
    (r : Cursor) (code tail : Bytes) → rest r ≡ code ++ tail → rest (advance (length code) r) ≡ tail
rest-advance r code tail e =
    sym (drop-drop (length code) r.offset r.input)
    ∙ ap (drop (length code)) e
    ∙ drop-append code tail

advance_in_range :
    (r : Cursor) (code tail : Bytes)
    → r.offset ≤ length r.input
    → rest r ≡ code ++ tail
    → (advance (length code) r).offset ≤ length r.input
advance_in_range r code tail h e =
    omega (arith, ap length e, length-drop r.offset r.input, length-append code tail)

advance_none : (r : Cursor) → r ≡ advance 0 r
advance_none r = λ i. record r { offset = (none r.offset) i }
  where
    none : (o : ℕ) → o ≡ o + 0
    none o = omega arith

advance_twice : (m n k : ℕ) (r : Cursor) → m + n ≡ k → advance n (advance m r) ≡ advance k r
advance_twice m n k r e = λ i. record r { offset = (same m n k r.offset e) i }
  where
    same : (m n k o : ℕ) → m + n ≡ k → o + m + n ≡ o + k
    same m n k o e = omega arith

module _ {ℓ} {A : Type ℓ} where
  pub Reads-pure : (a : A) → Reads (pure a) a []
  unfolding pure
  Reads-pure a = record { run = λ r tail h e. ap (λ (c : Cursor). ok (a, c)) (advance_none r) }

module _ {ℓ κ} {A : Type ℓ} {B : Type κ} where
  pub Reads-bind :
      (m : Read A) (f : A → Read B) {a : A} {b : B} {first later : Bytes}
      → Reads m a first
      → Reads (f a) b later
      → Reads (m >>= f) b (first ++ later)
  unfolding ◌>>=◌
  Reads-bind m f {a} {b} {first} {later} one two = record {
    run = λ r tail h e.
        let e' : rest r ≡ first ++ (later ++ tail) = e ∙ append_assoc first later tail in
        ap (λ (x : Result (A × Cursor)). after x f) (one.run r (later ++ tail) h e')
        ∙ two.run (advance (length first) r) tail (advance_in_range r first (later ++ tail) h e')
            (rest-advance r first (later ++ tail) e')
        ∙ ap (λ (c : Cursor). ok (b, c))
            (advance_twice (length first) (length later) _ r (sym (length-append first later)));
  }

pub Reads-refuse_if : (b : Bool) (e : Error) → b ≡ false → Reads (refuse_if b e) tt []
unfolding refuse_if
Reads-refuse_if true e h = cc
Reads-refuse_if false e h = record {
  run = λ r tail h p. ap (λ (c : Cursor). ok (tt, c)) (advance_none r);
}

get_or-drop : (n i : ℕ) (xs : Bytes) → get_or xs (n + i) 0 ≡ get_or (drop n xs) i 0
get_or-drop zero i xs = ap (λ (k : ℕ). get_or xs k 0) (omega arith)
get_or-drop (suc n) i [] = refl
get_or-drop (suc n) i (x ∷ xs) = ap (λ (k : ℕ). get_or (x ∷ xs) k 0) (next n i) ∙ get_or-drop n i xs
  where
    next : (n i : ℕ) → suc n + i ≡ suc (n + i)
    next n i = omega arith

pub at-rest : (r : Cursor) (i : ℕ) (xs : Bytes) → rest r ≡ xs → at r i ≡ get_or xs i 0
at-rest r i xs e = get_or-drop r.offset i r.input ∙ ap (λ (ys : Bytes). get_or ys i 0) e

pub Reads-read_u8 : (b : ℕ) → Reads read_u8 b (b ∷ [])
unfolding read_u8
Reads-read_u8 b = record {
  run =
      λ r tail h e. ground (arith, advance_in_range r (b ∷ []) tail h e, at-rest r 0 (b ∷ tail) e);
}

pub Reads-read_raw_bytes : (bs : Bytes) → Reads (read_raw_bytes (length bs)) bs bs
unfolding read_raw_bytes
Reads-read_raw_bytes bs = record {
  run = λ r tail h e.
      rw (le→ltb (length r.input) (r.offset + length bs) (advance_in_range r bs tail h e)) (
        ap (λ (xs : Bytes). ok (xs, advance (length bs) r))
          (ap (take (length bs)) e ∙ take-append bs tail));
}

pub Reads-read_u16 : (n : ℕ) → n < 256 ^ 2 → Reads read_u16 n (to_big 2 n)
unfolding read_u16 to_big
Reads-read_u16 n fits = record {
  run = λ r tail h e. ground (
    arith,
    advance_in_range r (to_big 2 n) tail h e,
    at-rest r 0 _ e,
    at-rest r 1 _ e,
    bit_or_high 8 (n / 256 % 256) (n % 256),
  );
}

-- What is left of an action that reads all of the input.
pub Reads-start :
    {A : Type 0} (m : Read A) (a : A) (code : Bytes)
    → Reads m a code
    → m (start code) ≡ ok (a, advance (length code) (start code))
Reads-start m a code h = h.run (start code) [] (omega arith) (sym (append-nil code))
