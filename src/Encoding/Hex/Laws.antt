-- ===== src/Encoding/Hex/Laws.antt =====
-- The hexadecimal codec in both directions.
use capnp_import.Common.{codes, ℕ, ◌*◌, ◌/◌, ◌%◌, ◌^◌, ◌≡◌, List, [], ◌∷◌, length, All}
use capnp_import.Common.{true, false, some, arith, bit_or, refl, map}
use capnp_import.Common.{Option-cases, inl, inr}
use capnp_import.Common.Bits.{bit_or_disjoint}
use capnp_import.Encoding.{at, hex_digits, try_from_hex_digit, IsByte}
use capnp_import.Encoding.Digits.{
  lower, hex_digits-of_digit, try_from_hex_digit-hex_digits, try_from_hex_digit-lt,
}
use capnp_import.Encoding.Hex.{
  encode_hex, decode_hex, decode_hex_loop, high_digit, low_digit, flag_missing,
}

length-encode_hex : (bs : List ℕ) → length (encode_hex bs) % 2 ≡ 0
unfolding encode_hex
length-encode_hex [] = refl
length-encode_hex (b ∷ bs) = omega (arith, length-encode_hex bs)

decode_hex_loop-encode_hex :
    (bs : List ℕ)
    → All IsByte bs
    → decode_hex_loop false (encode_hex bs) ≡ record { value = bs; had_errors = false }
unfolding encode_hex decode_hex_loop high_digit low_digit flag_missing
decode_hex_loop-encode_hex [] h = refl
decode_hex_loop-encode_hex (b ∷ bs) (hb, hbs) = ground (
  arith,
  try_from_hex_digit-hex_digits (b / 16) (omega arith),
  try_from_hex_digit-hex_digits (b % 16) (omega arith),
  bit_or_disjoint 4 (b / 16) (b % 16) (omega arith),
  decode_hex_loop-encode_hex bs hbs,
)

-- `decodeHex` returns the bytes that `encodeHex` was given, with no error.
pub decode_hex-encode_hex :
    (bs : List ℕ)
    → All IsByte bs
    → decode_hex (encode_hex bs) ≡ record { value = bs; had_errors = false }
unfolding decode_hex
decode_hex-encode_hex bs h = ground (arith, length-encode_hex bs, decode_hex_loop-encode_hex bs h)

decode_hex_loop-true : (text : List ℕ) → (decode_hex_loop true text).had_errors ≡ true
unfolding decode_hex_loop flag_missing
decode_hex_loop-true [] = refl
decode_hex_loop-true (c ∷ []) = refl
decode_hex_loop-true (c1 ∷ c2 ∷ text) = ground (arith, decode_hex_loop-true text)

-- What a pair of digits does to the result of the rest.
pair_of_digits :
    (c1 c2 d1 d2 : ℕ)
    → try_from_hex_digit c1 ≡ some d1
    → try_from_hex_digit c2 ≡ some d2
    → IsByte (bit_or (d1 * 2 ^ 4 % 2 ^ 8) d2)
      × (at hex_digits (bit_or (d1 * 2 ^ 4 % 2 ^ 8) d2 / 16) ≡ lower c1)
      × (at hex_digits (bit_or (d1 * 2 ^ 4 % 2 ^ 8) d2 % 16) ≡ lower c2)
pair_of_digits c1 c2 d1 d2 e1 e2 = ground (
  arith,
  try_from_hex_digit-lt c1 d1 e1,
  try_from_hex_digit-lt c2 d2 e2,
  bit_or_disjoint 4 d1 d2,
  hex_digits-of_digit c1 d1 e1,
  hex_digits-of_digit c2 d2 e2,
)

decode_hex_loop-accepts :
    (text : List ℕ)
    → length text % 2 ≡ 0
    → (decode_hex_loop false text).had_errors ≡ false
    → All IsByte (decode_hex_loop false text).value
      × (encode_hex (decode_hex_loop false text).value ≡ map lower text)
unfolding decode_hex_loop flag_missing high_digit low_digit encode_hex
decode_hex_loop-accepts [] even h = (tt, refl)
decode_hex_loop-accepts (c ∷ []) even h = absurd (omega arith)
decode_hex_loop-accepts (c1 ∷ c2 ∷ text) even h = elim (Option-cases (try_from_hex_digit c1)) [
  | inl e1 ↦ ground (arith, e1)
  | inr (d1, e1) ↦ elim (Option-cases (try_from_hex_digit c2)) [
    | inl e2 ↦ ground (arith, e1, e2)
    | inr (d2, e2) ↦
        let (byte, first, second) = pair_of_digits c1 c2 d1 d2 e1 e2 in
        let (bytes, rest) = decode_hex_loop-accepts text (omega arith) (rw (e1, e2) at h) in
        rw (e1, e2) ((byte, bytes), ground arith)
  ]
]

-- Where `decodeHex` meets no error, it returns bytes whose `encodeHex` is the input in lower case.
pub encode_hex-decode_hex :
    (text : List ℕ)
    → (decode_hex text).had_errors ≡ false
    → All IsByte (decode_hex text).value × (encode_hex (decode_hex text).value ≡ map lower text)
unfolding decode_hex
encode_hex-decode_hex text h =
    ground (arith, decode_hex_loop-true text, decode_hex_loop-accepts text)

-- No error is met in the digits 0aFF.
pub had_none : (decode_hex (codes "0aFF")).had_errors ≡ false
unfolding decode_hex decode_hex_loop flag_missing try_from_hex_digit
had_none = refl
