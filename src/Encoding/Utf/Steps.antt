-- ===== src/Encoding/Utf/Steps.antt =====
-- What one round of `encodeUtf` does with the bytes that the decoders write for a code point.
use capnp_import.Common.{ℕ, suc, ◌+◌, ◌*◌, ◌/◌, ◌%◌, ◌^◌, ◌<◌, ◌≤◌, ◌≡◌, List, [], ◌∷◌, ◌++◌}
use capnp_import.Common.{Bool, true, false, Option, some, arith, refl}
use capnp_import.Common.{if◌then◌else◌, ◌&&◌}
use capnp_import.Common.Bits.{bit_and_low, bit_or_disjoint}
use mathlib.Core.Option
use capnp_import.Encoding.Utf.{skip_continuations}
use capnp_import.Encoding.{add, flag}
use capnp_import.Encoding.Utf.Bytes.{
  mark_two, mark_three, mark_four, mark_continuation, top_two_bits, low_six,
}
use capnp_import.Encoding.Utf.{
  two_bytes, three_bytes, four_bytes, is_surrogate, CharType, Sequence, unit, char32, malformed,
  continuation, two_byte_unit, three_byte_unit, four_byte_char, joins, three_byte_sequence,
  read_sequence, finish_round, encode_utf_loop,
}

-- The bytes that are written, as arithmetic.
two_bytes-eq : (u : ℕ) → u < 2048 → two_bytes u ≡ (u / 64 + 192) ∷ (u % 64 + 128) ∷ []
unfolding two_bytes
two_bytes-eq u h =
    ground
      (arith, mark_two (u / 64) (omega arith), low_six u, mark_continuation (u % 64) (omega arith))

three_bytes-eq :
    (u : ℕ)
    → u < 65536
    → three_bytes u ≡ (u / 4096 + 224) ∷ (u / 64 % 64 + 128) ∷ (u % 64 + 128) ∷ []
unfolding three_bytes
three_bytes-eq u h = ground (
  arith,
  mark_three (u / 4096) (omega arith),
  low_six u,
  low_six (u / 64),
  mark_continuation (u % 64) (omega arith),
  mark_continuation (u / 64 % 64) (omega arith),
)

four_bytes-eq :
    (u : ℕ)
    → u < 0x200000
    → four_bytes u
      ≡ (u / 262144 + 240) ∷ (u / 4096 % 64 + 128) ∷ (u / 64 % 64 + 128) ∷ (u % 64 + 128) ∷ []
unfolding four_bytes
four_bytes-eq u h = ground (
  arith,
  mark_four (u / 262144) (omega arith),
  low_six u,
  low_six (u / 64),
  low_six (u / 4096),
  mark_continuation (u % 64) (omega arith),
  mark_continuation (u / 64 % 64) (omega arith),
  mark_continuation (u / 4096 % 64) (omega arith),
)

-- A continuation byte is recognised.
continuation_byte :
    (x : ℕ) (text : List ℕ) (next : ℕ → List ℕ → Sequence)
    → x < 64
    → continuation ((x + 128) ∷ text) next ≡ next (x + 128) text
unfolding continuation
continuation_byte x text next h = ground (arith, top_two_bits (x + 128) (omega arith))

two_byte_unit-eq : (a b : ℕ) → a < 32 → b < 64 → two_byte_unit (a + 192) (b + 128) ≡ a * 64 + b
unfolding two_byte_unit
two_byte_unit-eq a b ha hb =
    ground (arith, bit_and_low 5 (a + 192), low_six (b + 128), bit_or_disjoint 6 a b hb)

three_byte_unit-eq :
    (a b c : ℕ)
    → a < 16
    → b < 64
    → c < 64
    → three_byte_unit (a + 224) (b + 128) (c + 128) ≡ a * 4096 + b * 64 + c
unfolding three_byte_unit
three_byte_unit-eq a b c ha hb hc = ground (
  arith,
  bit_and_low 4 (a + 224),
  low_six (b + 128),
  low_six (c + 128),
  bit_or_disjoint 12 a (b * 2 ^ 6) (omega arith),
  bit_or_disjoint 6 (a * 64 + b) c hc,
)

four_byte_char-eq :
    (a b c d : ℕ)
    → a < 8
    → b < 64
    → c < 64
    → d < 64
    → four_byte_char (a + 240) (b + 128) (c + 128) (d + 128) ≡ a * 262144 + b * 4096 + c * 64 + d
unfolding four_byte_char
four_byte_char-eq a b c d ha hb hc hd = ground (
  arith,
  bit_and_low 3 (a + 240),
  low_six (b + 128),
  low_six (c + 128),
  low_six (d + 128),
  bit_or_disjoint 18 a (b * 2 ^ 12) (omega arith),
  bit_or_disjoint 12 (a * 64 + b) (c * 2 ^ 6) (omega arith),
  bit_or_disjoint 6 (a * 4096 + b * 64 + c) d hd,
)

-- The sequences that are read.
pub read_sequence-two_bytes :
    (back : Option ℕ) (u : ℕ) (text : List ℕ)
    → 0x80 ≤ u
    → u < 0x0800
    → read_sequence back (u / 64 + 192) ((u % 64 + 128) ∷ text) ≡ unit u false text
unfolding read_sequence
read_sequence-two_bytes back u text lo hi = ground (
  arith,
  top_two_bits (u % 64 + 128),
  two_byte_unit-eq (u / 64) (u % 64) (omega arith) (omega arith),
)

pub read_sequence-three_bytes :
    (back : Option ℕ) (u : ℕ) (text : List ℕ)
    → 0x0800 ≤ u
    → u < 0x10000
    → read_sequence back (u / 4096 + 224) ((u / 64 % 64 + 128) ∷ (u % 64 + 128) ∷ text)
      ≡ three_byte_sequence back u text
unfolding read_sequence
read_sequence-three_bytes back u text lo hi = ground (
  arith,
  top_two_bits (u % 64 + 128),
  top_two_bits (u / 64 % 64 + 128),
  three_byte_unit-eq (u / 4096) (u / 64 % 64) (u % 64) (omega arith) (omega arith) (omega arith),
)

pub read_sequence-four_bytes :
    (back : Option ℕ) (u : ℕ) (text : List ℕ)
    → 0x10000 ≤ u
    → u < 0x110000
    → read_sequence back
        (u / 262144 + 240)
        ((u / 4096 % 64 + 128) ∷ (u / 64 % 64 + 128) ∷ (u % 64 + 128) ∷ text)
      ≡ char32 u text
unfolding read_sequence
read_sequence-four_bytes back u text lo hi = ground (
  arith,
  top_two_bits (u % 64 + 128),
  top_two_bits (u / 64 % 64 + 128),
  top_two_bits (u / 4096 % 64 + 128),
  four_byte_char-eq (u / 262144) (u / 4096 % 64) (u / 64 % 64) (u % 64) (omega arith) (omega arith)
      (omega arith) (omega arith),
)

three_byte_sequence-eq :
    (back : Option ℕ) (u : ℕ) (text : List ℕ)
    → 0x0800 ≤ u
    → (is_surrogate u && joins back u) ≡ false
    → three_byte_sequence back u text ≡ unit u (is_surrogate u) text
unfolding three_byte_sequence
three_byte_sequence-eq back u text lo apart = ground arith

three_byte_sequence-joined :
    (back : Option ℕ) (u : ℕ) (text : List ℕ)
    → (is_surrogate u && joins back u) ≡ true
    → three_byte_sequence back u text ≡ malformed text
unfolding three_byte_sequence
three_byte_sequence-joined back u text joined = ground arith

-- One round on the bytes of a code point below 0x80, below 0x800, below 0x10000, and above.
module _ (t : CharType) (nul : Bool) (fuel : ℕ) (back : Option ℕ) (text : List ℕ) where
  pub round_one_byte :
      (u : ℕ)
      → u < 0x80
      → encode_utf_loop t nul (suc fuel) back (u ∷ text)
        ≡ Option.map (λ r. add u r) (encode_utf_loop t nul fuel (some u) text)
  unfolding encode_utf_loop read_sequence finish_round
  round_one_byte u h = ground arith

  pub round_two_bytes :
      (u : ℕ)
      → 0x80 ≤ u
      → u < 0x0800
      → encode_utf_loop t nul (suc fuel) back (two_bytes u ++ text)
        ≡ Option.map (λ r. add u r) (encode_utf_loop t nul fuel (some u) text)
  unfolding encode_utf_loop finish_round
  round_two_bytes u lo hi =
      rw (two_bytes-eq u hi) (rw (read_sequence-two_bytes back u text lo hi) refl)

  pub round_three_bytes :
      (u : ℕ)
      → 0x0800 ≤ u
      → u < 0x10000
      → (is_surrogate u && joins back u) ≡ false
      → encode_utf_loop t nul (suc fuel) back (three_bytes u ++ text)
        ≡ Option.map
            (λ r. if is_surrogate u then flag (add u r) else add u r)
            (encode_utf_loop t nul fuel (some u) text)
  unfolding encode_utf_loop finish_round
  round_three_bytes u lo hi apart = rw (three_bytes-eq u hi) (
      rw (read_sequence-three_bytes back u text lo hi)
        (rw (three_byte_sequence-eq back u text lo apart) refl))

  -- A surrogate that would complete a pair with the unit before it.
  pub round_joined :
      (u : ℕ)
      → 0x0800 ≤ u
      → u < 0x10000
      → (is_surrogate u && joins back u) ≡ true
      → encode_utf_loop t nul (suc fuel) back (three_bytes u ++ text)
        ≡ Option.map
            (λ r. flag (add 0xfffd r))
            (encode_utf_loop t nul fuel (some 0xfffd) (skip_continuations text))
  unfolding encode_utf_loop finish_round
  round_joined u lo hi joined = rw (three_bytes-eq u hi) (
      rw (read_sequence-three_bytes back u text lo hi)
        (rw (three_byte_sequence-joined back u text joined) refl))

  pub round_four_bytes :
      (u : ℕ)
      → 0x10000 ≤ u
      → u < 0x110000
      → encode_utf_loop t nul (suc fuel) back (four_bytes u ++ text)
        ≡ finish_round t (char32 u text) (encode_utf_loop t nul fuel)
  unfolding encode_utf_loop
  round_four_bytes u lo hi =
      rw (four_bytes-eq u (omega arith)) (rw (read_sequence-four_bytes back u text lo hi) refl)
