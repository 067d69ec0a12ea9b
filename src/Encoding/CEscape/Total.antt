-- ===== src/Encoding/CEscape/Total.antt =====
-- `decodeBinaryCEscape` ends on every text.
use capnp_import.Common.{
  ℕ, zero, suc, length, ◌-◌, ◌≤◌, ◌≡◌, List, [], ◌∷◌, some, Bool, refl, arith, Option-cases, inl,
  inr,
}
use capnp_import.Common.{bit_or, ◌*◌, ◌%◌, ◌^◌}
use capnp_import.Encoding.{EncodingResult, try_from_hex_digit, try_from_oct_digit}
use capnp_import.Encoding.CEscape.{
  read_octal, read_hex_run, read_hex, read_escape, after_backslash, decode_piece, add_piece,
  decode_c_escape_loop, decode_binary_c_escape,
}

read_octal-le : (n value : ℕ) (text : List ℕ) → length (read_octal n value text).rest ≤ length text
unfolding read_octal
read_octal-le zero value text = omega arith
read_octal-le (suc n) value [] = omega arith
read_octal-le (suc n) value (c ∷ text) = elim (Option-cases (try_from_oct_digit c)) [
  | inl e ↦ ground (arith, e)
  | inr (d, e) ↦ ground (arith, e, read_octal-le n (bit_or (value * 2 ^ 3 % 2 ^ 32) d) text)
]

read_hex_run-le : (value : ℕ) (text : List ℕ) → length (read_hex_run value text).rest ≤ length text
unfolding read_hex_run
read_hex_run-le value [] = omega arith
read_hex_run-le value (c ∷ text) = elim (Option-cases (try_from_hex_digit c)) [
  | inl e ↦ ground (arith, e)
  | inr (d, e) ↦ ground (arith, e, read_hex_run-le (bit_or (value * 2 ^ 4 % 2 ^ 32) d) text)
]

read_hex-le : (w n value : ℕ) (text : List ℕ) → length (read_hex w n value text).rest ≤ length text
unfolding read_hex
read_hex-le w zero value text = omega arith
read_hex-le w (suc n) value [] = omega arith
read_hex-le w (suc n) value (c ∷ text) = elim (Option-cases (try_from_hex_digit c)) [
  | inl e ↦ ground (arith, e)
  | inr (d, e) ↦ ground (arith, e, read_hex-le w n (bit_or (value * 2 ^ 4 % 2 ^ w) d) text)
]

read_escape-le : (c2 : ℕ) (text : List ℕ) → length (read_escape c2 text).rest ≤ length text
unfolding read_escape
read_escape-le c2 text = ground (
  arith,
  read_octal-le 2 (c2 - b'0') text,
  read_hex_run-le 0 text,
  read_hex-le 16 4 0 text,
  read_hex-le 32 8 0 text,
)

decode_piece-le : (c : ℕ) (text : List ℕ) → length (decode_piece c text).rest ≤ length text
unfolding decode_piece after_backslash
decode_piece-le c [] = ground arith
decode_piece-le c (c2 ∷ text) = ground (arith, read_escape-le c2 text)

decode_c_escape_loop_total :
    (fuel : ℕ) (nul : Bool) (text : List ℕ)
    → length text ≤ fuel
    → (r : EncodingResult) × (decode_c_escape_loop fuel nul text ≡ some r)
unfolding decode_c_escape_loop
decode_c_escape_loop_total fuel nul [] h = (_, refl)
decode_c_escape_loop_total zero nul (c ∷ text) h = absurd (omega arith)
decode_c_escape_loop_total (suc fuel) nul (c ∷ text) h =
    let p = decode_piece c text in
    let (r, e) =
      decode_c_escape_loop_total fuel nul p.rest (omega (arith, decode_piece-le c text)) in
    (add_piece p r, rw e)

-- `decodeBinaryCEscape` ends on every text, with a result.
pub decode_binary_c_escape_total :
    (text : List ℕ) (nul : Bool) → (r : EncodingResult) × (decode_binary_c_escape text nul ≡ some r)
unfolding decode_binary_c_escape
decode_binary_c_escape_total text nul =
    decode_c_escape_loop_total (length text) nul text (omega arith)
