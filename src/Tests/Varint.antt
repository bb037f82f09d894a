-- ===== src/Tests/Varint.antt =====
-- src/willow/grovedb/varint.py on small inputs.
use willow_sdk_python.Prelude.{
  ℕ, ◌+◌, ◌*◌, ◌^◌, ◌≤◌, ◌<◌, ◌≡◌, refl, arith, [], ◌∷◌, ◌++◌, Bytes, length,
}
use willow_sdk_python.Prelude.Result.{ok, err, varint_end, varint_too_long}
use willow_sdk_python.Varint.{varint_bytes, decode_varint, decode_varint64, zigzag}
use willow_sdk_python.Varint.RoundTrip.{
  decode_varint-varint_bytes, decode_varint64-varint_bytes, varint_bytes_prefix,
}
use willow_sdk_python.Varint.Bounds.{decode_varint_takes}
use willow_sdk_python.Bincode.{unzigzag}
use willow_sdk_python.Bincode.Integers.{unzigzag-zigzag}

varint_bytes_300 : varint_bytes 300 ≡ 0xac ∷ 2 ∷ []
unfolding varint_bytes
varint_bytes_300 = refl

decode_300 : decode_varint (9 ∷ 0xac ∷ 2 ∷ 7 ∷ []) 1 ≡ ok (300, 2)
unfolding decode_varint
decode_300 = refl

decode64_300 : decode_varint64 (9 ∷ 0xac ∷ 2 ∷ 7 ∷ []) 1 ≡ ok (300, 2)
unfolding decode_varint64
decode64_300 = refl

decode_cut : decode_varint (0xac ∷ []) 0 ≡ err varint_end
unfolding decode_varint
decode_cut = refl

decode_endless :
    decode_varint (0x80 ∷ 0x80 ∷ 0x80 ∷ 0x80 ∷ 0x80 ∷ 0x80 ∷ 1 ∷ []) 0 ≡ err varint_too_long
unfolding decode_varint
decode_endless = refl

decode_varint-varint_bytes_example :
    decode_varint (5 ∷ [] ++ (varint_bytes 300 ++ (7 ∷ []))) 1 ≡ ok (300, length (varint_bytes 300))
decode_varint-varint_bytes_example = decode_varint-varint_bytes 300 (5 ∷ []) (7 ∷ []) (omega arith)

-- A number above 64 bits.
decode_varint64-varint_bytes_example :
    decode_varint64 ([] ++ (varint_bytes (2 ^ 64 + 5) ++ [])) 0
    ≡ ok (2 ^ 64 + 5, length (varint_bytes (2 ^ 64 + 5)))
decode_varint64-varint_bytes_example = decode_varint64-varint_bytes (2 ^ 64 + 5) [] [] (omega arith)

abbrev number : ℕ
number = 300

abbrev tail : Bytes
tail = 1 ∷ []

varint_bytes_prefix_example : (number ≡ 300) × (tail ≡ 1 ∷ [])
varint_bytes_prefix_example = varint_bytes_prefix number 300 tail (1 ∷ []) refl

decode_varint_takes_example : (300 < 2 ^ (7 * 2)) × (1 ≤ 2) × (1 + 2 ≤ 4) × (2 ≤ 6)
decode_varint_takes_example = decode_varint_takes (9 ∷ 0xac ∷ 2 ∷ 7 ∷ []) 1 300 2 decode_300

unzigzag-zigzag_example : unzigzag 9 ≡ zigzag 9
unzigzag-zigzag_example = unzigzag-zigzag 9
