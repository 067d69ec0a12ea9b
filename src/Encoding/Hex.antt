-- ===== src/Encoding/Hex.antt =====
-- `encodeHex` and `decodeHex` of capnproto/c++/src/kj/encoding.c++.
pub mod Laws
use capnp_import.Common.{ℕ, ◌+◌, ◌*◌, ◌/◌, ◌%◌, ◌^◌, ◌<◌, ◌≡◌, List, [], ◌∷◌, length, All}
use capnp_import.Common.{Bool, true, false, Option, some, none, ◌==◌, arith, bit_or, refl, codes}
use capnp_import.Common.{all_below, all_below_sound, if◌then◌else◌, ==-eq-true}
use capnp_import.Encoding.{EncodingResult, add, flag, at, hex_digits, try_from_hex_digit, IsByte}

-- `KJ_MAP(b, input) { HEX_DIGITS[b/16], HEX_DIGITS[b%16] }`, joined.
pub encode_hex : List ℕ → List ℕ
encode_hex [] = []
encode_hex (b ∷ input) = at hex_digits (b / 16) ∷ at hex_digits (b % 16) ∷ encode_hex input

-- The two assignments to `b`, a `byte`: each is skipped where its digit is none.
high_digit : Option ℕ → ℕ
high_digit none = 0
high_digit (some d) = d * 2 ^ 4 % 2 ^ 8

low_digit : Option ℕ → ℕ → ℕ
low_digit none b = b
low_digit (some d) b = bit_or b d

flag_missing : Option ℕ → EncodingResult → EncodingResult
flag_missing none r = flag r
flag_missing (some d) r = r

-- `result` has `text.size() / 2` elements, so a last odd character is not read.
decode_hex_loop : Bool → List ℕ → EncodingResult
decode_hex_loop had_errors (c1 ∷ c2 ∷ text) =
    let d1 = try_from_hex_digit c1 in
    let d2 = try_from_hex_digit c2 in
    add (low_digit d2 (high_digit d1))
      (flag_missing d1 (flag_missing d2 (decode_hex_loop had_errors text)))
decode_hex_loop had_errors _ = record { value = []; had_errors = had_errors }

pub decode_hex : List ℕ → EncodingResult
decode_hex text = decode_hex_loop (if length text % 2 == 0 then false else true) text
