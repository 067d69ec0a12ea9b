-- ===== src/Encoding/Utf/Utf16.antt =====
-- UTF-16 to UTF-8 and back.
use capnp_import.Common.{
  ℕ, zero, suc, length, ◌+◌, ◌-◌, ◌*◌, ◌%◌, ◌^◌, ◌<◌, ◌≤◌, ◌≡◌, List, [], ◌∷◌, ◌++◌,
}
use capnp_import.Common.{Bool, true, false, Option, some, none, arith, refl, All}
use capnp_import.Common.{if◌then◌else◌, ltb, Bool-cases, inl, inr}
use capnp_import.Common.Bits.{bit_or_disjoint}
use capnp_import.Encoding.{add, flag}
use capnp_import.Encoding.Utf.Bytes.{low_ten, top_five, top_six, bit_ten}
use capnp_import.Encoding.Utf.Steps.{
  round_one_byte, round_two_bytes, round_three_bytes, round_four_bytes,
}
use capnp_import.Encoding.Utf.{
  decode_utf16, add_all, two_bytes, three_bytes, four_bytes, is_surrogate, is_pair, pair_value,
  char16_t, surrogates, joins, finish_round, encode_utf_loop, encode_utf16,
}

abbrev pub IsUnit16 : ℕ → Type 0
IsUnit16 u = u < 2 ^ 16

-- A pair's code point, and its surrogates again.
pair_value-eq : (u u2 : ℕ) → pair_value u u2 ≡ u % 1024 * 1024 + u2 % 1024 + 65536
pair_value-eq u u2 =
    ground (arith, low_ten u, low_ten u2, bit_or_disjoint 10 (u % 1024) (u2 % 1024) (omega arith))

surrogates-pair_value :
    (u u2 : ℕ)
    → IsUnit16 u
    → IsUnit16 u2
    → is_surrogate u ≡ true
    → is_pair u u2 ≡ true
    → surrogates (pair_value u u2) ≡ (u, u2)
unfolding surrogates
surrogates-pair_value u u2 hu hu2 s p = ground (
  arith,
  pair_value-eq u u2,
  top_five u,
  bit_ten u,
  top_six u2,
  low_ten (pair_value u u2 - 65536),
  bit_or_disjoint 10 54 (u % 1024) (omega arith),
  bit_or_disjoint 10 55 (u2 % 1024) (omega arith),
)

-- The first unit does not complete a pair with the unit before it.
abbrev Apart : Option ℕ → List ℕ → Type 0
Apart back [] = Unit
Apart back (u ∷ us) = joins back u ≡ false

joins-lone : (u u2 : ℕ) → is_surrogate u ≡ true → is_pair u u2 ≡ false → joins (some u) u2 ≡ false
unfolding joins
joins-lone u u2 s p = ground (arith, top_five u, top_six u, bit_ten u)

joins-plain : (u u2 : ℕ) → is_surrogate u ≡ false → joins (some u) u2 ≡ false
unfolding joins
joins-plain u u2 s = ground (arith, top_five u, top_six u)

joins-small : (u u2 : ℕ) → u < 0x0800 → joins (some u) u2 ≡ false
unfolding joins
joins-small u u2 h = ground (arith, top_six u)

joins-low : (u low u2 : ℕ) → is_pair u low ≡ true → joins (some low) u2 ≡ false
unfolding joins
joins-low u low u2 p = ground (arith, top_six low)

-- The code units come out again, behind whatever came before them.
abbrev Trip : Bool → ℕ → Option ℕ → List ℕ → Type 0
Trip nul fuel back us =
    encode_utf_loop char16_t nul fuel back (decode_utf16 us).value
    ≡ some (record {
      value = us ++ (if nul then 0 ∷ [] else []);
      had_errors = (decode_utf16 us).had_errors;
    })

-- Whether the first unit makes a pair with the second.
abbrev pairs : ℕ → List ℕ → Bool
pairs u [] = false
pairs u (u2 ∷ us) = is_pair u u2

-- The rounds of the decoder.
decode_one_byte :
    (u : ℕ) (us : List ℕ) → ltb u 0x80 ≡ true → decode_utf16 (u ∷ us) ≡ add u (decode_utf16 us)
unfolding decode_utf16
decode_one_byte u [] e = rw e
decode_one_byte u (u2 ∷ us) e = rw e

decode_two_bytes :
    (u : ℕ) (us : List ℕ)
    → ltb u 0x80 ≡ false
    → ltb u 0x0800 ≡ true
    → decode_utf16 (u ∷ us) ≡ add_all (two_bytes u) (decode_utf16 us)
unfolding decode_utf16 two_bytes
decode_two_bytes u [] e f = rw (e, f)
decode_two_bytes u (u2 ∷ us) e f = rw (e, f)

decode_three_bytes :
    (u : ℕ) (us : List ℕ)
    → ltb u 0x80 ≡ false
    → ltb u 0x0800 ≡ false
    → is_surrogate u ≡ false
    → decode_utf16 (u ∷ us) ≡ add_all (three_bytes u) (decode_utf16 us)
unfolding decode_utf16 three_bytes
decode_three_bytes u [] e f s = rw (e, f, s)
decode_three_bytes u (u2 ∷ us) e f s = rw (e, f, s)

decode_lone :
    (u : ℕ) (us : List ℕ)
    → ltb u 0x80 ≡ false
    → ltb u 0x0800 ≡ false
    → is_surrogate u ≡ true
    → pairs u us ≡ false
    → decode_utf16 (u ∷ us) ≡ flag (add_all (three_bytes u) (decode_utf16 us))
unfolding decode_utf16 three_bytes
decode_lone u [] e f s p = rw (e, f, s)
decode_lone u (u2 ∷ us) e f s p = rw (e, f, s, p)

decode_pair :
    (u u2 : ℕ) (us : List ℕ)
    → ltb u 0x80 ≡ false
    → ltb u 0x0800 ≡ false
    → is_surrogate u ≡ true
    → is_pair u u2 ≡ true
    → decode_utf16 (u ∷ u2 ∷ us) ≡ add_all (four_bytes (pair_value u u2)) (decode_utf16 us)
unfolding decode_utf16
decode_pair u u2 us e f s p = rw (e, f, s, p)

-- The rounds of the encoder on what those wrote.
module _ (nul : Bool) (fuel : ℕ) (back : Option ℕ) (u : ℕ) where
  Trip-one_byte :
      (us : List ℕ)
      → ltb u 0x80 ≡ true
      → Trip nul fuel (some u) us
      → Trip nul (suc fuel) back (u ∷ us)
  Trip-one_byte us e ih = rw (decode_one_byte u us e) (
      rw (round_one_byte char16_t nul fuel back (decode_utf16 us).value u (ground arith))
        (rw ih refl))

  Trip-two_bytes :
      (us : List ℕ)
      → ltb u 0x80 ≡ false
      → ltb u 0x0800 ≡ true
      → Trip nul fuel (some u) us
      → Trip nul (suc fuel) back (u ∷ us)
  Trip-two_bytes us e f ih = rw (decode_two_bytes u us e f) (
      rw
        (round_two_bytes char16_t nul fuel back (decode_utf16 us).value u (ground arith)
          (ground arith))
        (rw ih refl))

  Trip-three_bytes :
      (us : List ℕ)
      → ltb u 0x0800 ≡ false
      → IsUnit16 u
      → is_surrogate u ≡ false
      → Trip nul fuel (some u) us
      → Trip nul (suc fuel) back (u ∷ us)
  Trip-three_bytes us f hu s ih = rw (decode_three_bytes u us (ground arith) f s) (
      rw
        (round_three_bytes char16_t nul fuel back (decode_utf16 us).value u (ground arith) hu
          (rw s refl))
        (rw ih (rw s refl)))

  Trip-lone :
      (us : List ℕ)
      → ltb u 0x0800 ≡ false
      → IsUnit16 u
      → is_surrogate u ≡ true
      → pairs u us ≡ false
      → joins back u ≡ false
      → Trip nul fuel (some u) us
      → Trip nul (suc fuel) back (u ∷ us)
  Trip-lone us f hu s p apart ih = rw (decode_lone u us (ground arith) f s p) (
      rw
        (round_three_bytes char16_t nul fuel back (decode_utf16 us).value u (ground arith) hu
          (rw s apart))
        (rw ih (rw s refl)))

  Trip-pair :
      (u2 : ℕ) (us : List ℕ)
      → ltb u 0x0800 ≡ false
      → IsUnit16 u
      → IsUnit16 u2
      → is_surrogate u ≡ true
      → is_pair u u2 ≡ true
      → Trip nul fuel (some u2) us
      → Trip nul (suc fuel) back (u ∷ u2 ∷ us)
  unfolding finish_round
  Trip-pair u2 us f hu hu2 s p ih = rw (decode_pair u u2 us (ground arith) f s p) (
      rw
        (round_four_bytes char16_t nul fuel back (decode_utf16 us).value (pair_value u u2)
          (omega (arith, pair_value-eq u u2)) (omega (arith, pair_value-eq u u2)))
        (rw (surrogates-pair_value u u2 hu hu2 s p) (rw ih refl)))

Apart-lone : (u : ℕ) (us : List ℕ) → is_surrogate u ≡ true → pairs u us ≡ false → Apart (some u) us
Apart-lone u [] s p = tt
Apart-lone u (u2 ∷ us) s p = joins-lone u u2 s p

Apart-plain : (u : ℕ) (us : List ℕ) → is_surrogate u ≡ false → Apart (some u) us
Apart-plain u [] s = tt
Apart-plain u (u2 ∷ us) s = joins-plain u u2 s

Apart-small : (u : ℕ) (us : List ℕ) → u < 0x0800 → Apart (some u) us
Apart-small u [] h = tt
Apart-small u (u2 ∷ us) h = joins-small u u2 h

Apart-low : (u low : ℕ) (us : List ℕ) → is_pair u low ≡ true → Apart (some low) us
Apart-low u low [] p = tt
Apart-low u low (u2 ∷ us) p = joins-low u low u2 p

-- All rounds of a unit that starts no pair.
module _ (nul : Bool) (fuel : ℕ) (back : Option ℕ) (u : ℕ) (us : List ℕ) (hu : IsUnit16 u)
    (apart : joins back u ≡ false) (ih : Apart (some u) us → Trip nul fuel (some u) us) where
  Trip-single : (is_surrogate u ≡ true → pairs u us ≡ false) → Trip nul (suc fuel) back (u ∷ us)
  Trip-single p = elim (Bool-cases (ltb u 0x80)) [
    | inl e ↦ Trip-one_byte nul fuel back u us e (ih (Apart-small u us (ground arith)))
    | inr e ↦ elim (Bool-cases (ltb u 0x0800)) [
      | inl f ↦ Trip-two_bytes nul fuel back u us e f (ih (Apart-small u us (ground arith)))
      | inr f ↦ elim (Bool-cases (is_surrogate u)) [
        | inl s ↦ Trip-lone nul fuel back u us f hu s (p s) apart (ih (Apart-lone u us s (p s)))
        | inr s ↦ Trip-three_bytes nul fuel back u us f hu s (ih (Apart-plain u us s))
      ]
    ]
  ]

surrogate_large : (u : ℕ) → is_surrogate u ≡ true → ltb u 0x0800 ≡ false
surrogate_large u s = ground (arith, top_five u)

Trip-units :
    (nul : Bool) (us : List ℕ) (fuel : ℕ) (back : Option ℕ)
    → All IsUnit16 us
    → length us ≤ fuel
    → Apart back us
    → Trip nul fuel back us
Trip-units nul [] zero back h k apart = unfold decode_utf16 encode_utf_loop in refl
Trip-units nul [] (suc fuel) back h k apart = unfold decode_utf16 encode_utf_loop in refl
Trip-units nul (u ∷ us) zero back h k apart = absurd (omega arith)
Trip-units nul (u ∷ []) (suc fuel) back (hu, h) k apart =
    Trip-single nul fuel back u [] hu apart (Trip-units nul [] fuel (some u) tt (omega arith))
      (λ _. refl)
Trip-units nul (u ∷ u2 ∷ us) (suc fuel) back (hu, h) k apart =
    let next = Trip-units nul (u2 ∷ us) fuel (some u) h (omega arith) in
    let after = Trip-units nul us fuel (some u2) h.1 (omega arith) in
    let single = Trip-single nul fuel back u (u2 ∷ us) hu apart next in
    elim (Bool-cases (is_surrogate u)) [
      | inr plain ↦ single (λ s. cc)
      | inl s ↦ elim (Bool-cases (is_pair u u2)) [
        | inr lone ↦ single (λ _. lone)
        | inl p ↦
            Trip-pair nul fuel back u u2 us (surrogate_large u s) hu h.0 s p
              (after (Apart-low u u2 us p))
      ]
    ]

length-decode_utf16 : (us : List ℕ) → length us ≤ length (decode_utf16 us).value
unfolding decode_utf16 two_bytes three_bytes four_bytes
length-decode_utf16 [] = omega arith
length-decode_utf16 (u ∷ []) = ground arith
length-decode_utf16 (u ∷ u2 ∷ us) =
    ground (arith, length-decode_utf16 (u2 ∷ us), length-decode_utf16 us)

-- Any array of 16-bit code units, well formed or not, is the same again after `decodeUtf16` and
-- `encodeUtf16`, with a NUL behind it if that is asked for, and the two report an error for the
-- same arrays.
pub encode_utf16-decode_utf16 :
    (us : List ℕ) (nul : Bool)
    → All IsUnit16 us
    → encode_utf16 (decode_utf16 us).value nul
      ≡ some (record {
        value = us ++ (if nul then 0 ∷ [] else []);
        had_errors = (decode_utf16 us).had_errors;
      })
unfolding encode_utf16
encode_utf16-decode_utf16 us nul h = Trip-units nul us _ none h (length-decode_utf16 us) (first us)
  where
    first : (us : List ℕ) → Apart none us
    first [] = tt
    first (u ∷ us) = unfold joins in refl
