-- ===== src/Encoding/CEscape/HexRun.antt =====
-- What a `\x` escape of any length stands for.
use capnp_import.Common.{ℕ, ◌+◌, ◌*◌, ◌%◌, ◌^◌, ◌<◌, ◌≡◌, List, [], ◌∷◌}
use capnp_import.Common.{false, some, leb, refl, arith, bit_or}
use capnp_import.Common.Bits.{bit_or_disjoint}
use capnp_import.Encoding.{try_from_hex_digit}
use capnp_import.Encoding.Digits.{try_from_hex_digit-lt}
use capnp_import.Encoding.CEscape.{
  read_hex_run, read_escape, decode_piece, add_piece, decode_c_escape_loop, decode_binary_c_escape,
}

-- The number that hexadecimal digits write, without bound, `digits` being their values.
abbrev pub positional : ℕ → List ℕ → ℕ
positional value [] = value
positional value (d ∷ digits) = positional (value * 16 + d) digits

-- Characters that are hexadecimal digits with the listed values.
abbrev pub AreDigits : List ℕ → List ℕ → Type 0
AreDigits [] [] = Unit
AreDigits [] (d ∷ digits) = ⊥
AreDigits (c ∷ text) [] = ⊥
AreDigits (c ∷ text) (d ∷ digits) = (try_from_hex_digit c ≡ some d) × AreDigits text digits

shift_in :
    (value d : ℕ) → d < 16 → bit_or (value % 2 ^ 32 * 2 ^ 4 % 2 ^ 32) d ≡ (value * 16 + d) % 2 ^ 32
shift_in value d h = ground (arith, bit_or_disjoint 4 (value % 2 ^ 28) d h)

read_hex_run-digits :
    (text digits : List ℕ) (value : ℕ)
    → AreDigits text digits
    → read_hex_run (value % 2 ^ 32) text
      ≡ record { value = positional value digits % 2 ^ 32; failed = false; rest = [] }
unfolding read_hex_run
read_hex_run-digits [] [] value h = refl
read_hex_run-digits [] (d ∷ digits) value h = absurd h
read_hex_run-digits (c ∷ text) [] value h = absurd h
read_hex_run-digits (c ∷ text) (d ∷ digits) value (e, h) =
    let ih = read_hex_run-digits text digits (value * 16 + d) h in
    rw (e, read_hex_run) (rw (shift_in value d (try_from_hex_digit-lt c d e)) ih)

-- A `\x` escape of any number of digits adds the low eight bits of the number that the digits
-- write, and it is flagged as an error only if the low 32 bits of that number pass 0xff: of a
-- number of nine digits or more the rest is dropped unnoticed.
pub decode_binary_c_escape-hex_run :
    (text digits : List ℕ)
    → AreDigits text digits
    → decode_binary_c_escape (b'\\' ∷ b'x' ∷ text) false
      ≡ some (record {
        value = (positional 0 digits % 2 ^ 8) ∷ [];
        had_errors = leb 0x100 (positional 0 digits % 2 ^ 32);
      })
unfolding decode_binary_c_escape decode_c_escape_loop decode_piece read_escape add_piece
decode_binary_c_escape-hex_run text digits h =
    rw (read_hex_run-digits text digits 0 h) (ground arith)
