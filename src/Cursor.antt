-- ===== src/Cursor.antt =====
-- Bytes and an offset into them: the state of `BincodeReader` (src/willow/grovedb/bincode.py) and of
-- `MerkDecoder` (src/willow/grovedb/merk_decoder.py), and the reads that both classes have.
--
-- A method is an action: it returns its result and the moved cursor, or raises. Nothing reads a
-- cursor again after a method of it raised.
pub mod Reads
pub mod Moves
use mathlib.Core.Path.{◌≡◌}
use willow_sdk_python.Prelude.{
  ℕ, zero, suc, ◌+◌, ◌*◌, ◌^◌, Bool, true, false, Option, none, some, Bytes, length, take, drop,
  get_elem?, get_or, bit_or, ltb, leb, if◌then◌else◌,
}
use willow_sdk_python.Prelude.Result.{Error, Result, ok, err, end_of_data}

pub record Cursor : Type 0 where
  pub input : Bytes
  pub offset : ℕ

abbrev pub Read {ℓ} : Type ℓ → Type ℓ
Read A = Cursor → Result (A × Cursor)

abbrev pub after {ℓ κ} :
    {A : Type ℓ} {B : Type κ} → Result (A × Cursor) → (A → Read B) → Result (B × Cursor)
after (ok (a, r)) f = f a r
after (err e) f = err e

infixl 5 ◌>>=◌ ◌>>◌
unfoldable pub ◌>>=◌ {ℓ κ} : {A : Type ℓ} {B : Type κ} → Read A → (A → Read B) → Read B
◌>>=◌ m f r = after (m r) f

abbrev pub ◌>>◌ {ℓ} : {B : Type ℓ} → Read (Unit {0}) → Read B → Read B
m >> k = m >>= λ _. k

unfoldable pub pure {ℓ} : {A : Type ℓ} → A → Read A
pure a r = ok (a, r)

unfoldable pub raise {ℓ} : {A : Type ℓ} → Error → Read A
raise e r = err e

-- `if bad: raise …`
unfoldable pub refuse_if : Bool → Error → Read (Unit {0})
refuse_if true e r = err e
refuse_if false e r = ok (tt, r)

abbrev pub advance : ℕ → Cursor → Cursor
advance n r = record r { offset = r.offset + n }

abbrev pub start : Bytes → Cursor
start input = record { input = input; offset = 0 }

unfoldable pub has_more : Cursor → Bool
has_more r = ltb r.offset (length r.input)

-- `self.data[self.offset + i]`, where that is in range.
abbrev pub at : Cursor → ℕ → ℕ
at r i = get_or r.input (r.offset + i) 0

unfoldable pub read_u8 : Read ℕ
read_u8 r = if leb (length r.input) r.offset then err end_of_data else ok (at r 0, advance 1 r)

unfoldable pub read_u16 : Read ℕ
read_u16 r =
    if ltb (length r.input) (r.offset + 2)
    then err end_of_data
    else ok (bit_or (at r 0 * 2 ^ 8) (at r 1), advance 2 r)

-- `length` bytes from the offset on.
unfoldable pub read_raw_bytes : ℕ → Read Bytes
read_raw_bytes n r =
    if ltb (length r.input) (r.offset + n)
    then err end_of_data
    else ok (take n (drop r.offset r.input), advance n r)
