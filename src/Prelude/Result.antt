-- ===== src/Prelude/Result.antt =====
-- The outcome of code that may raise.
use mathlib.Core.Bool.{Bool, true, false}
use willow_sdk_python.Prelude.Tests.{if◌then◌else◌}
use mathlib.Core.Path.{◌≡◌, refl, ap, ◌∙◌}

-- What the code raises, one name for each place or kind of message: `VarintError` and
-- `GroveDBVerificationError` in grovedb/, `ValueError` or `OverflowError` for hex text, lengths and
-- numbers elsewhere. `out_of_fuel` is no exception of the code.
pub data Error : Type 0 where
  negative_varint varint_too_long varint_end bad_hex_length bad_hex bad_nonce_state wrong_length
        too_large end_of_data bad_bool bad_option_tag bad_varint length_limit too_deep bad_version
        trailing_bytes bad_element bad_reference bad_op bad_feature value_too_short value_too_long
        out_of_fuel hash_has_children left_attached right_attached stack_underflow key_order
        key_order_inverted not_one_item not_balanced non_default_options no_lower_layer off_path
        below_path layer_mismatch layer_of_non_tree unproven_layer value_unbound no_path
        root_mismatch line_break not_unsigned bad_byte bad_text bad_did bad_subgrove no_sender
        bad_grant not_proven no_layer_key :
      Error

pub data Result {ℓ} (A : Type ℓ) : Type ℓ where
  err : Error → Result A
  ok : A → Result A

infixl 5 ◌>>=◌ ◌>>◌
abbrev pub ◌>>=◌ {ℓ κ} : {X : Type ℓ} {Y : Type κ} → Result X → (X → Result Y) → Result Y
err e >>= more = err e
ok x >>= more = more x

abbrev pub ◌>>◌ {ℓ} : {Y : Type ℓ} → Result (Unit {0}) → Result Y → Result Y
m >> more = m >>= λ _. more

-- A chain that succeeds: its first step did, and so did the rest.
pub >>=-eq-ok {ℓ κ} :
    {X : Type ℓ} {Y : Type κ} (m : Result X) (more : X → Result Y) {y : Y}
    → (m >>= more) ≡ ok y
    → (x : X) × (m ≡ ok x) × (more x ≡ ok y)
>>=-eq-ok (err e) more same = cc
>>=-eq-ok (ok x) more same = (x, refl, same)

pub ok-injective {ℓ} : {X : Type ℓ} {x y : X} → ok x ≡ ok y → x ≡ y
ok-injective same = cc

-- A step that succeeds is followed by the rest.
pub >>=-ok {ℓ κ} :
    {X : Type ℓ} {Y : Type κ} {m : Result X} {x : X} (more : X → Result Y) {y : Result Y}
    → m ≡ ok x
    → more x ≡ y
    → (m >>= more) ≡ y
>>=-ok more e same = ap (λ r. r >>= more) e ∙ same

-- A result behind a check that raises.
pub past_check {ℓ} :
    {X : Type ℓ} {r : Result X} {y : X} (b : Bool) (x : Error)
    → (if b then err x else r) ≡ ok y
    → r ≡ ok y
past_check true x same = cc
past_check false x same = same
