-- ===== src/Encoding/Utf/Total.antt =====
-- `encodeUtf` ends on every text, within the array that it reserves.
use capnp_import.Common.{
  ℕ, zero, suc, length, ◌+◌, ◌≤◌, ◌≡◌, List, [], ◌∷◌, Bool, false, Option, some, none, arith, refl,
  if◌then◌else◌,
}
use capnp_import.Encoding.Utf.{two_byte_unit, three_byte_unit, four_byte_char, surrogates}
use capnp_import.Common.{if_intro, ltb}
use capnp_import.Encoding.{EncodingResult, add, flag}
use capnp_import.Encoding.Utf.{
  CharType, char16_t, char32_t, Sequence, unit, char32, malformed, skip_continuations, continuation,
  read_sequence, finish_round, encode_utf_loop, encode_utf, two_byte_sequence, three_byte_sequence,
  four_byte_sequence,
}

rest_of : Sequence → List ℕ
rest_of (malformed text) = text
rest_of (unit u failed text) = text
rest_of (char32 u text) = text

units_of : CharType → Sequence → ℕ
units_of t (malformed text) = 1
units_of t (unit u failed text) = 1
units_of char16_t (char32 u text) = 2
units_of char32_t (char32 u text) = 1

-- The code units added are paid for by the bytes read.
IsPaid : CharType → ℕ → Sequence → Type 0
IsPaid t n s = length (rest_of s) + units_of t s ≤ n

continuation-IsPaid :
    (t : CharType) (n : ℕ) (text : List ℕ) (next : ℕ → List ℕ → Sequence)
    → length text + 1 ≤ n
    → ((c : ℕ) (rest : List ℕ) → length rest + 1 ≤ length text → IsPaid t n (next c rest))
    → IsPaid t n (continuation text next)
unfolding continuation IsPaid rest_of units_of
continuation-IsPaid char16_t n [] next h k = ground arith
continuation-IsPaid char32_t n [] next h k = ground arith
continuation-IsPaid char16_t n (c ∷ text) next h k = ground (arith, k c text (omega arith))
continuation-IsPaid char32_t n (c ∷ text) next h k = ground (arith, k c text (omega arith))

two_byte_sequence-IsPaid :
    (t : CharType) (n u : ℕ) (text : List ℕ)
    → length text + 1 ≤ n
    → IsPaid t n (two_byte_sequence u text)
unfolding two_byte_sequence IsPaid rest_of units_of
two_byte_sequence-IsPaid char16_t n u text h = ground arith
two_byte_sequence-IsPaid char32_t n u text h = ground arith

three_byte_sequence-IsPaid :
    (t : CharType) (n : ℕ) (back : Option ℕ) (u : ℕ) (text : List ℕ)
    → length text + 1 ≤ n
    → IsPaid t n (three_byte_sequence back u text)
unfolding three_byte_sequence IsPaid rest_of units_of
three_byte_sequence-IsPaid char16_t n back u text h = ground arith
three_byte_sequence-IsPaid char32_t n back u text h = ground arith

four_byte_sequence-IsPaid :
    (t : CharType) (n u : ℕ) (text : List ℕ)
    → length text + 2 ≤ n
    → IsPaid t n (four_byte_sequence u text)
unfolding four_byte_sequence IsPaid rest_of units_of
four_byte_sequence-IsPaid char16_t n u text h = ground arith
four_byte_sequence-IsPaid char32_t n u text h = ground arith

one_unit-IsPaid :
    (t : CharType) (c : ℕ) (text : List ℕ)
    → IsPaid t (length text + 1) (unit c false text) × IsPaid t (length text + 1) (malformed text)
unfolding IsPaid rest_of units_of
one_unit-IsPaid char16_t c text = omega arith
one_unit-IsPaid char32_t c text = omega arith

read_sequence-IsPaid :
    (t : CharType) (back : Option ℕ) (c : ℕ) (text : List ℕ)
    → IsPaid t (length text + 1) (read_sequence back c text)
unfolding read_sequence
read_sequence-IsPaid t back c text =
    let (plain, bad) = one_unit-IsPaid t c text in
    if_intro (IsPaid t n) (ltb c 0x80) _ _ plain (
      if_intro (IsPaid t n) (ltb c 0xc0) _ _ bad (
        if_intro (IsPaid t n) (ltb c 0xe0) _ _ two (
          if_intro (IsPaid t n) (ltb c 0xf0) _ _ three
            (if_intro (IsPaid t n) (ltb c 0xf8) _ _ four bad))))
  where
    n : ℕ
    n = length text + 1

    two : IsPaid t n (continuation text (λ c2 text2. two_byte_sequence (two_byte_unit c c2) text2))
    two =
        continuation-IsPaid t n text _ (omega arith)
          λ c2 text2 h2. two_byte_sequence-IsPaid t n (two_byte_unit c c2) text2 (omega arith)

    three : IsPaid t n (
        continuation text (λ c2 text2.
          continuation text2
            (λ c3 text3. three_byte_sequence back (three_byte_unit c c2 c3) text3)))
    three = continuation-IsPaid t n text _ (omega arith) λ c2 text2 h2.
        continuation-IsPaid t n text2 _ (omega arith) λ c3 text3 h3.
          three_byte_sequence-IsPaid t n back (three_byte_unit c c2 c3) text3 (omega arith)

    four : IsPaid t n (
        continuation text (λ c2 text2. continuation text2 (λ c3 text3.
          continuation text3 (λ c4 text4. four_byte_sequence (four_byte_char c c2 c3 c4) text4))))
    four = continuation-IsPaid t n text _ (omega arith) λ c2 text2 h2.
        continuation-IsPaid t n text2 _ (omega arith) λ c3 text3 h3.
          continuation-IsPaid t n text3 _ (omega arith) λ c4 text4 h4.
            four_byte_sequence-IsPaid t n (four_byte_char c c2 c3 c4) text4 (omega arith)

skip_continuations-le : (text : List ℕ) → length (skip_continuations text) ≤ length text
unfolding skip_continuations
skip_continuations-le [] = omega arith
skip_continuations-le (c ∷ text) = ground (arith, skip_continuations-le text)

units-pos : (t : CharType) (s : Sequence) → 1 ≤ units_of t s
unfolding units_of
units-pos t (malformed text) = omega arith
units-pos t (unit u failed text) = omega arith
units-pos char16_t (char32 u text) = omega arith
units-pos char32_t (char32 u text) = omega arith

-- A result that is there, of at most `n` code units.
abbrev pub EndsWithin : ℕ → Option EncodingResult → Type 0
EndsWithin n o = (r : EncodingResult) × (o ≡ some r) × (length r.value ≤ n)

abbrev pub nul_units : Bool → ℕ
nul_units nul = if nul then 1 else 0

finish_round-EndsWithin :
    (t : CharType) (s : Sequence) (loop : Option ℕ → List ℕ → Option EncodingResult) (m k n : ℕ)
    → ((back : Option ℕ) (text : List ℕ)
        → length text ≤ m
        → EndsWithin (length text + k) (loop back text))
    → length (rest_of s) + units_of t s ≤ n
    → length (rest_of s) ≤ m
    → EndsWithin (n + k) (finish_round t s loop)
unfolding finish_round rest_of units_of
finish_round-EndsWithin t (malformed text) loop m k n h paid fuel =
    let skipped = skip_continuations-le text in
    let (r, e, small) = h (some 0xfffd) (skip_continuations text) (omega arith) in
    (flag (add 0xfffd r), rw e, omega arith)
finish_round-EndsWithin t (unit u failed text) loop m k n h paid fuel =
    let (r, e, small) = h (some u) text fuel in
    (if failed then flag (add u r) else add u r, rw e, ground arith)
finish_round-EndsWithin char32_t (char32 u text) loop m k n h paid fuel =
    let (r, e, small) = h (some u) text fuel in (add u r, rw e, omega arith)
finish_round-EndsWithin char16_t (char32 u text) loop m k n h paid fuel =
    let (high, low) = surrogates u in
    let (r, e, small) = h (some low) text fuel in (add high (add low r), rw e, omega arith)

encode_utf_loop-EndsWithin :
    (t : CharType) (nul : Bool) (fuel : ℕ) (back : Option ℕ) (text : List ℕ)
    → length text ≤ fuel
    → EndsWithin (length text + nul_units nul) (encode_utf_loop t nul fuel back text)
unfolding encode_utf_loop IsPaid
encode_utf_loop-EndsWithin t nul fuel back [] h = (_, refl, ground arith)
encode_utf_loop-EndsWithin t nul zero back (c ∷ text) h = absurd (omega arith)
encode_utf_loop-EndsWithin t nul (suc fuel) back (c ∷ text) h =
    let paid = read_sequence-IsPaid t back c text in
    let units = units-pos t (read_sequence back c text) in
    finish_round-EndsWithin t (read_sequence back c text) (encode_utf_loop t nul fuel) fuel
      (nul_units nul) (suc (length text))
      (λ b rest k. encode_utf_loop-EndsWithin t nul fuel b rest k) (omega arith) (omega arith)

-- On every text `encodeUtf16` and `encodeUtf32` end, and they add no more code units than the
-- vector that they reserve holds: one for each byte, and the NUL that is asked for.
pub encode_utf_total :
    (t : CharType) (text : List ℕ) (nul : Bool)
    → EndsWithin (length text + nul_units nul) (encode_utf t text nul)
unfolding encode_utf
encode_utf_total t text nul = encode_utf_loop-EndsWithin t nul (length text) none text (omega arith)
