-- ===== src/Encoding/Utf/Utf32.antt =====
-- UTF-32 to UTF-8 and back.
use capnp_import.Common.{ℕ, suc, length, ◌/◌, ◌%◌, ◌<◌, ◌≤◌, ◌≡◌, List, [], ◌∷◌, ◌++◌}
use capnp_import.Common.{Bool, true, false, Option, some, none, ◌==◌, bit_and, arith, refl}
use capnp_import.Common.{if◌then◌else◌, ltb, ◌&&◌}
use mathlib.Core.Option
use capnp_import.Encoding.Utf.{skip_continuations, char32}
use capnp_import.Encoding.Utf.Steps.{round_joined}
use capnp_import.Encoding.{EncodingResult, add, flag}
use capnp_import.Encoding.Utf.Bytes.{top_five, top_six}
use capnp_import.Encoding.Utf.Steps.{round_four_bytes}
use capnp_import.Encoding.Utf.{
  decode_utf32, decode_char32, three_bytes, four_bytes, is_surrogate, char32_t, joins, finish_round,
  encode_utf_loop, encode_utf32,
}

-- A code point, surrogates included.
abbrev pub IsCodePoint : ℕ → Type 0
IsCodePoint u = u < 0x110000

-- No low surrogate stands behind a code point of which the low 16 bits, the only ones that
-- `encodeUtf` looks at, are those of a high surrogate.
abbrev pub Unjoined : Option ℕ → List ℕ → Type 0
Unjoined back [] = Unit
Unjoined back (u ∷ us) =
    ((ltb u 0x10000 && (is_surrogate u && joins back u)) ≡ false) × Unjoined (some u) us

-- The test of `decodeUtf32`, on all 32 bits.
abbrev is_surrogate32 : ℕ → Bool
is_surrogate32 u = bit_and u 0xfffff800 == 0xd800

abbrev add_code_point : ℕ → EncodingResult → EncodingResult
add_code_point u s = if is_surrogate32 u then flag (add u s) else add u s

-- One code point, written by `decodeUtf32` before `r` and read back.
module _ (nul : Bool) (fuel : ℕ) (back : Option ℕ) (u : ℕ) (r : EncodingResult) where
  abbrev Reads : Type 0
  Reads =
      encode_utf_loop char32_t nul (suc fuel) back (decode_char32 u r).value
      ≡ Option.map (λ s. add_code_point u s) (encode_utf_loop char32_t nul fuel (some u) r.value)

value-pair :
    (u v : ℕ)
    → 0x10000 ≤ u
    → IsCodePoint u
    → v / 1024 ≡ 55
    → (decode_utf32 (u ∷ v ∷ [])).value ≡ four_bytes u ++ (three_bytes v ++ [])
unfolding decode_utf32 decode_char32
value-pair u v lo hi low = ground arith

length-pair : (u v : ℕ) → length (four_bytes u ++ (three_bytes v ++ [])) ≡ 7
unfolding four_bytes three_bytes
length-pair u v = refl

surrogate_joins :
    (u v : ℕ) → u / 1024 % 64 ≡ 54 → v / 1024 ≡ 55 → (is_surrogate v && joins (some u) v) ≡ true
unfolding joins
surrogate_joins u v high low = ground (arith, top_five v, top_six v, top_six u)

-- A low surrogate behind a code point above U+FFFF whose low 16 bits are those of a high surrogate
-- forms no pair, and yet `encodeUtf32` replaces it by U+FFFD.
pub encode_utf32_replaces :
    (u v : ℕ)
    → 0x10000 ≤ u
    → IsCodePoint u
    → u / 1024 % 64 ≡ 54
    → v / 1024 ≡ 55
    → encode_utf32 (decode_utf32 (u ∷ v ∷ [])).value false
      ≡ some (record { value = u ∷ 0xfffd ∷ []; had_errors = true })
unfolding encode_utf32
encode_utf32_replaces u v lo hi high low = rw (value-pair u v lo hi low) (
    rw (length-pair u v) (
      rw (round_four_bytes char32_t false 6 none (three_bytes v ++ []) u lo hi)
        (rest (surrogate_joins u v high low))))
  where
    rest :
        (is_surrogate v && joins (some u) v) ≡ true
        → finish_round char32_t (char32 u (three_bytes v ++ [])) (encode_utf_loop char32_t false 6)
          ≡ some (record { value = u ∷ 0xfffd ∷ []; had_errors = true })
    rest joined =
        unfold finish_round in
        rw (round_joined char32_t false 5 (some u) [] v (omega arith) (omega arith) joined)
          (unfold encode_utf_loop skip_continuations in refl)
