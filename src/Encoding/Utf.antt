-- ===== src/Encoding/Utf.antt =====
-- `encodeUtf16`, `encodeUtf32`, `decodeUtf16` and `decodeUtf32` of capnproto/c++/src/kj/encoding.c++.
-- "Encode" is from UTF-8 in that file, and "decode" is to UTF-8.
pub mod Bytes
pub mod Steps
pub mod Utf16
pub mod Utf32
pub mod Total
use capnp_import.Common.{ℕ, zero, suc, length, ◌+◌, ◌-◌, ◌*◌, ◌/◌, ◌%◌, ◌^◌, List, [], ◌∷◌, ◌++◌}
use capnp_import.Common.{
  Bool, true, false, Option, some, none, ◌==◌, ltb, leb, not, bit_and, bit_or,
}
use capnp_import.Common.{if◌then◌else◌, ◌&&◌, ◌||◌}
use mathlib.Core.Option
use capnp_import.Encoding.{EncodingResult, add, flag}

-- `static_cast<char>`, and the assignment to a `char16_t`.
abbrev pub char : ℕ → ℕ
char x = x % 2 ^ 8

abbrev pub char16 : ℕ → ℕ
char16 x = x % 2 ^ 16

-- `result.addAll(chars)` before the rest of the loop.
abbrev pub add_all : List ℕ → EncodingResult → EncodingResult
add_all chars r = record r { value = chars ++ r.value }

-- The lists of two, three and four bytes that both decoders add.
pub two_bytes : ℕ → List ℕ
two_bytes u = char (bit_or (u / 2 ^ 6) 0xc0) ∷ char (bit_or (bit_and u 0x3f) 0x80) ∷ []

pub three_bytes : ℕ → List ℕ
three_bytes u =
    char (bit_or (u / 2 ^ 12) 0xe0)
    ∷ char (bit_or (bit_and (u / 2 ^ 6) 0x3f) 0x80)
    ∷ char (bit_or (bit_and u 0x3f) 0x80)
    ∷ []

pub four_bytes : ℕ → List ℕ
four_bytes u =
    char (bit_or (u / 2 ^ 18) 0xf0)
    ∷ char (bit_or (bit_and (u / 2 ^ 12) 0x3f) 0x80)
    ∷ char (bit_or (bit_and (u / 2 ^ 6) 0x3f) 0x80)
    ∷ char (bit_or (bit_and u 0x3f) 0x80)
    ∷ []

abbrev pub is_surrogate : ℕ → Bool
is_surrogate u = bit_and u 0xf800 == 0xd800

-- The code point of a surrogate pair.
abbrev pub pair_value : ℕ → ℕ → ℕ
pair_value u u2 = bit_or (bit_and u 0x03ff * 2 ^ 10) (bit_and u2 0x03ff) + 0x10000

abbrev pub is_pair : ℕ → ℕ → Bool
is_pair u u2 = not (not (bit_and u 0x0400 == 0) || not (bit_and u2 0xfc00 == 0xdc00))

pub decode_utf16 : List ℕ → EncodingResult
decode_utf16 [] = record { value = []; had_errors = false }
decode_utf16 (u ∷ []) =
    if ltb u 0x80
    then record { value = u ∷ []; had_errors = false }
    else if ltb u 0x0800
    then record { value = two_bytes u; had_errors = false }
    else record { value = three_bytes u; had_errors = is_surrogate u }
decode_utf16 (u ∷ u2 ∷ utf16) =
    let rest = decode_utf16 (u2 ∷ utf16) in
    let after_pair = decode_utf16 utf16 in
    if ltb u 0x80
    then add u rest
    else if ltb u 0x0800
    then add_all (two_bytes u) rest
    else if is_surrogate u
    then (if is_pair u u2
        then add_all (four_bytes (pair_value u u2)) after_pair
        else flag (add_all (three_bytes u) rest))
    else add_all (three_bytes u) rest

-- One round of the loop of `decodeUtf32`. `u8"\ufffd"` is the bytes ef bf bd.
pub decode_char32 : ℕ → EncodingResult → EncodingResult
decode_char32 u rest =
    if ltb u 0x80
    then add u rest
    else if ltb u 0x0800
    then add_all (two_bytes u) rest
    else if ltb u 0x10000
    then (let r = add_all (three_bytes u) rest in
        if bit_and u 0xfffff800 == 0xd800 then flag r else r)
    else if leb 0x110000 u
    then flag (add_all (0xef ∷ 0xbf ∷ 0xbd ∷ []) rest)
    else add_all (four_bytes u) rest

pub decode_utf32 : List ℕ → EncodingResult
unfolding decode_char32
decode_utf32 [] = record { value = []; had_errors = false }
decode_utf32 (u ∷ utf32) = decode_char32 u (decode_utf32 utf32)

-- `char16_t` or `char32_t`: the template's parameter, which selects `addChar32`.
pub data CharType : Type 0 where
  char16_t char32_t : CharType

-- The code units that `addChar32` adds: the first ones and the last.
pub surrogates : ℕ → ℕ × ℕ
surrogates u = (
  char16 (bit_or 0xd800 ((u - 0x10000) / 2 ^ 10)),
  char16 (bit_or 0xdc00 (bit_and (u - 0x10000) 0x03ff)),
)

-- How the bytes at the front of the text were read, with the text from `i` on:
-- `goto error`; `result.add(u)`, with `hadErrors` set or not; or `addChar32(result, u)`.
pub data Sequence : Type 0 where
  malformed : List ℕ → Sequence
  unit : ℕ → Bool → List ℕ → Sequence
  char32 : ℕ → List ℕ → Sequence

abbrev pub is_continuation : ℕ → Bool
is_continuation c = bit_and c 0xc0 == 0x80

-- `GOTO_ERROR_IF(i == text.size() || ((c = text[i]) & 0xc0) != 0x80); ++i;`
continuation : List ℕ → (ℕ → List ℕ → Sequence) → Sequence
continuation [] next = malformed []
continuation (c ∷ text) next = if is_continuation c then next c text else malformed (c ∷ text)

two_byte_unit : ℕ → ℕ → ℕ
two_byte_unit c c2 = char16 (bit_or (bit_and c 0x1f * 2 ^ 6) (bit_and c2 0x3f))

three_byte_unit : ℕ → ℕ → ℕ → ℕ
three_byte_unit c c2 c3 =
    char16 (bit_or (bit_or (bit_and c 0x0f * 2 ^ 12) (bit_and c2 0x3f * 2 ^ 6)) (bit_and c3 0x3f))

four_byte_char : ℕ → ℕ → ℕ → ℕ → ℕ
four_byte_char c c2 c3 c4 =
    bit_or
      (bit_or (bit_or (bit_and c 0x07 * 2 ^ 18) (bit_and c2 0x3f * 2 ^ 12))
        (bit_and c3 0x3f * 2 ^ 6))
      (bit_and c4 0x3f)

-- `result.size() > 0 && (u & 0xfc00) == 0xdc00 && (result.back() & 0xfc00) == 0xd800`
unfoldable pub joins : Option ℕ → ℕ → Bool
joins none u = false
joins (some back) u = bit_and u 0xfc00 == 0xdc00 && bit_and back 0xfc00 == 0xd800

pub three_byte_sequence : Option ℕ → ℕ → List ℕ → Sequence
three_byte_sequence back u text =
    if ltb u 0x0800
    then malformed text
    else if is_surrogate u
    then (if joins back u then malformed text else unit u true text)
    else unit u false text

two_byte_sequence : ℕ → List ℕ → Sequence
two_byte_sequence u text = if ltb u 0x80 then malformed text else unit u false text

four_byte_sequence : ℕ → List ℕ → Sequence
four_byte_sequence u text =
    if ltb u 0x10000 || leb 0x110000 u then malformed text else char32 u text

-- `back` is the last code unit of `result`, and `text` is what follows the byte `c`.
pub read_sequence : Option ℕ → ℕ → List ℕ → Sequence
unfolding continuation two_byte_sequence three_byte_sequence four_byte_sequence
read_sequence back c text =
    if ltb c 0x80
    then unit c false text
    else if ltb c 0xc0
    then malformed text
    else if ltb c 0xe0
    then continuation text (λ c2 text2. two_byte_sequence (two_byte_unit c c2) text2)
    else if ltb c 0xf0
    then continuation text (λ c2 text2.
      continuation text2 (λ c3 text3. three_byte_sequence back (three_byte_unit c c2 c3) text3))
    else if ltb c 0xf8
    then continuation text (λ c2 text2. continuation text2 (λ c3 text3.
      continuation text3 (λ c4 text4. four_byte_sequence (four_byte_char c c2 c3 c4) text4)))
    else malformed text

pub skip_continuations : List ℕ → List ℕ
skip_continuations [] = []
skip_continuations (c ∷ text) =
    let rest = skip_continuations text in if is_continuation c then rest else c ∷ text

-- What the round adds, before the rest of the loop, which starts from the new last code unit.
pub finish_round :
    CharType → Sequence → (Option ℕ → List ℕ → Option EncodingResult) → Option EncodingResult
finish_round t (malformed text) loop =
    Option.map (λ r. flag (add 0xfffd r)) (loop (some 0xfffd) (skip_continuations text))
finish_round t (unit u had_errors text) loop =
    Option.map (λ r. if had_errors then flag (add u r) else add u r) (loop (some u) text)
finish_round char32_t (char32 u text) loop = Option.map (λ r. add u r) (loop (some u) text)
finish_round char16_t (char32 u text) loop =
    let (high, low) = surrogates u in Option.map (λ r. add high (add low r)) (loop (some low) text)

-- `none` is no result of the code: the fuel ran out. Each round reads a byte at least.
pub encode_utf_loop : CharType → Bool → ℕ → Option ℕ → List ℕ → Option EncodingResult
encode_utf_loop t nul_terminate fuel back [] =
    some (record { value = if nul_terminate then 0 ∷ [] else []; had_errors = false })
encode_utf_loop t nul_terminate zero back (c ∷ text) = none
encode_utf_loop t nul_terminate (suc fuel) back (c ∷ text) =
    finish_round t (read_sequence back c text) (encode_utf_loop t nul_terminate fuel)

pub encode_utf : CharType → List ℕ → Bool → Option EncodingResult
encode_utf t text nul_terminate = encode_utf_loop t nul_terminate (length text) none text

pub encode_utf16 : List ℕ → Bool → Option EncodingResult
unfolding encode_utf
encode_utf16 = encode_utf char16_t

pub encode_utf32 : List ℕ → Bool → Option EncodingResult
unfolding encode_utf
encode_utf32 = encode_utf char32_t
