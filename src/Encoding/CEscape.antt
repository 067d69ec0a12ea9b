-- ===== src/Encoding/CEscape.antt =====
-- `encodeCEscapeImpl` and `decodeBinaryCEscape` of capnproto/c++/src/kj/encoding.c++.
pub mod Laws
pub mod Total
pub mod HexRun
use capnp_import.Common.{ℕ, zero, suc, length, ◌+◌, ◌-◌, ◌*◌, ◌/◌, ◌%◌, ◌^◌, List, [], ◌∷◌, ◌++◌}
use capnp_import.Common.{Bool, true, false, Option, some, none, ◌==◌, ltb, leb, bit_or}
use capnp_import.Common.{if◌then◌else◌, ◌&&◌, ◌||◌}
use mathlib.Core.Option
use capnp_import.Encoding.{EncodingResult, at, hex_digits, try_from_hex_digit, try_from_oct_digit}
use capnp_import.Encoding.Utf.{add_all, decode_utf16, decode_utf32, char, char16}

-- The characters that one byte becomes.
escape_byte : Bool → ℕ → List ℕ
escape_byte is_binary b =
    if b == 7
    then b'\\' ∷ b'a' ∷ []
    else if b == 8
    then b'\\' ∷ b'b' ∷ []
    else if b == 12
    then b'\\' ∷ b'f' ∷ []
    else if b == 10
    then b'\\' ∷ b'n' ∷ []
    else if b == 13
    then b'\\' ∷ b'r' ∷ []
    else if b == 9
    then b'\\' ∷ b't' ∷ []
    else if b == 11
    then b'\\' ∷ b'v' ∷ []
    else if b == 39
    then b'\\' ∷ 39 ∷ []
    else if b == 34
    then b'\\' ∷ 34 ∷ []
    else if b == b'\\'
    then b'\\' ∷ b'\\' ∷ []
    else if ltb b 0x20 || b == 0x7f || (is_binary && ltb 0x7f b)
    then b'\\' ∷ at hex_digits (b / 64) ∷ at hex_digits (b / 8 % 8) ∷ at hex_digits (b % 8) ∷ []
    else b ∷ []

pub encode_c_escape_impl : List ℕ → Bool → List ℕ
unfolding escape_byte
encode_c_escape_impl [] is_binary = []
encode_c_escape_impl (b ∷ bytes) is_binary =
    escape_byte is_binary b ++ encode_c_escape_impl bytes is_binary

-- A number that was read, whether an error was flagged, and the text from `i` on.
pub record Number : Type 0 where
  pub value : ℕ
  pub failed : Bool
  pub rest : List ℕ

-- `for (uint j = 0; j < n && i < text.size(); j++)`, over octal digits of a `uint`.
read_octal : ℕ → ℕ → List ℕ → Number
read_octal zero value text = record { value = value; failed = false; rest = text }
read_octal (suc n) value [] = record { value = value; failed = false; rest = [] }
read_octal (suc n) value (c ∷ text) = elim (try_from_oct_digit c) [
  | none ↦ record { value = value; failed = false; rest = c ∷ text }
  | some d ↦ read_octal n (bit_or (value * 2 ^ 3 % 2 ^ 32) d) text
]

-- `while (i < text.size())`, over hexadecimal digits of a `uint`.
read_hex_run : ℕ → List ℕ → Number
read_hex_run value [] = record { value = value; failed = false; rest = [] }
read_hex_run value (c ∷ text) = elim (try_from_hex_digit c) [
  | none ↦ record { value = value; failed = false; rest = c ∷ text }
  | some d ↦ read_hex_run (bit_or (value * 2 ^ 4 % 2 ^ 32) d) text
]

-- Exactly `n` hexadecimal digits of a `w`-bit number; fewer are an error.
read_hex : ℕ → ℕ → ℕ → List ℕ → Number
read_hex w zero value text = record { value = value; failed = false; rest = text }
read_hex w (suc n) value [] = record { value = value; failed = true; rest = [] }
read_hex w (suc n) value (c ∷ text) = elim (try_from_hex_digit c) [
  | none ↦ record { value = value; failed = true; rest = c ∷ text }
  | some d ↦ read_hex w n (bit_or (value * 2 ^ 4 % 2 ^ w) d) text
]

-- The bytes that one round adds, whether it flags an error, and the text from `i` on.
pub record Piece : Type 0 where
  pub bytes : List ℕ
  pub failed : Bool
  pub rest : List ℕ

abbrev plain : ℕ → List ℕ → Piece
plain b text = record { bytes = b ∷ []; failed = false; rest = text }

-- `if (value >= 0x100) hadErrors = true; result.add(value);`
abbrev add_number : Number → Piece
add_number n = record { bytes = char n.value ∷ []; failed = leb 0x100 n.value; rest = n.rest }

abbrev add_utf : EncodingResult → Number → Piece
add_utf utf n = record { bytes = utf.value; failed = n.failed || utf.had_errors; rest = n.rest }

-- The `switch (c2)`, at the text behind `c2`.
read_escape : ℕ → List ℕ → Piece
unfolding read_octal read_hex_run read_hex
read_escape c2 text =
    if c2 == b'a'
    then plain 7 text
    else if c2 == b'b'
    then plain 8 text
    else if c2 == b'f'
    then plain 12 text
    else if c2 == b'n'
    then plain 10 text
    else if c2 == b'r'
    then plain 13 text
    else if c2 == b't'
    then plain 9 text
    else if c2 == b'v'
    then plain 11 text
    else if c2 == 39
    then plain 39 text
    else if c2 == 34
    then plain 34 text
    else if c2 == b'\\'
    then plain b'\\' text
    else if leb b'0' c2 && leb c2 b'7'
    then add_number (read_octal 2 (c2 - b'0') text)
    else if c2 == b'x'
    then add_number (read_hex_run 0 text)
    else if c2 == b'u'
    then (let n = read_hex 16 4 0 text in add_utf (decode_utf16 (n.value ∷ [])) n)
    else if c2 == b'U'
    then (let n = read_hex 32 8 0 text in add_utf (decode_utf32 (n.value ∷ [])) n)
    else plain c2 text

after_backslash : List ℕ → Piece
unfolding read_escape
after_backslash [] = record { bytes = []; failed = true; rest = [] }
after_backslash (c2 ∷ text) = read_escape c2 text

-- One round of the loop, at the character `c`.
decode_piece : ℕ → List ℕ → Piece
unfolding after_backslash
decode_piece c text = if c == b'\\' then after_backslash text else plain c text

add_piece : Piece → EncodingResult → EncodingResult
add_piece p r = record { value = p.bytes ++ r.value; had_errors = p.failed || r.had_errors }

-- `none` is no result of the code: the fuel ran out. Each round reads a character at least.
decode_c_escape_loop : ℕ → Bool → List ℕ → Option EncodingResult
decode_c_escape_loop fuel nul_terminate [] =
    some (record { value = if nul_terminate then 0 ∷ [] else []; had_errors = false })
decode_c_escape_loop zero nul_terminate (c ∷ text) = none
decode_c_escape_loop (suc fuel) nul_terminate (c ∷ text) =
    let p = decode_piece c text in
    Option.map (add_piece p) (decode_c_escape_loop fuel nul_terminate p.rest)

pub decode_binary_c_escape : List ℕ → Bool → Option EncodingResult
decode_binary_c_escape text nul_terminate = decode_c_escape_loop (length text) nul_terminate text
