-- ===== src/Encoding/Uri/Laws.antt =====
-- The percent codecs: what the encoders write is read back.
use capnp_import.Common.{ℕ, zero, suc, length, ◌+◌, ◌*◌, ◌/◌, ◌%◌, ◌^◌, ◌<◌, ◌≤◌, ◌≡◌}
use capnp_import.Common.{List, [], ◌∷◌, ◌++◌, Bool, true, false, some, ◌==◌}
use capnp_import.Common.{if◌then◌else◌, ◌&&◌, All, arith, bit_or, refl, length-append}
use capnp_import.Common.{inl, inr, Bool-cases}
use capnp_import.Common.Bits.{bit_or_disjoint}
use mathlib.Core.Option
use capnp_import.Encoding.{EncodingResult, IsByte, at, hex_digits_uri}
use capnp_import.Encoding.Digits.{try_from_hex_digit-hex_digits_uri}
use capnp_import.Encoding.Uri.{
  escape, stays_in_component, stays_in_fragment, stays_in_path, stays_in_user_info, stays_in_form,
  encode_bytes, encode_uri_component, encode_uri_fragment, encode_uri_path, encode_uri_user_info,
  encode_www_form, DecodeUriOptions, decode_piece, add_piece, decode_uri_loop,
  decode_binary_uri_component,
}

-- The rounds of the decoder over the characters of one byte.
Reads : DecodeUriOptions → ℕ → List ℕ → Type 0
Reads o b chars =
    (fuel : ℕ) (text : List ℕ)
    → decode_uri_loop (suc fuel) o (chars ++ text)
      ≡ Option.map (λ (r : EncodingResult). record r { value = b ∷ r.value })
          (decode_uri_loop fuel o text)

digits_of_byte : (b : ℕ) → b < 256 → bit_or (b / 16 * 2 ^ 4 % 2 ^ 8) (b % 16) ≡ b
digits_of_byte b h = ground (arith, bit_or_disjoint 4 (b / 16) (b % 16) (omega arith))

decode_piece-escape :
    (o : DecodeUriOptions) (b : ℕ) (text : List ℕ)
    → b < 256
    → decode_piece o b'%' (at hex_digits_uri (b / 16) ∷ at hex_digits_uri (b % 16) ∷ text)
      ≡ record { byte = some b; failed = false; rest = text }
unfolding decode_piece
decode_piece-escape o b text h = ground (
  arith,
  try_from_hex_digit-hex_digits_uri (b / 16) (omega arith),
  try_from_hex_digit-hex_digits_uri (b % 16) (omega arith),
  digits_of_byte b h,
)

Reads-escape : (o : DecodeUriOptions) (b : ℕ) → b < 256 → Reads o b (escape b)
unfolding decode_uri_loop escape add_piece Reads
Reads-escape o b h fuel text = rw (decode_piece-escape o b text h)

-- A character that the decoder takes as it is.
Reads-self :
    (o : DecodeUriOptions) (b : ℕ)
    → (b == b'%') ≡ false
    → (o.plus_to_space && b == b'+') ≡ false
    → Reads o b (b ∷ [])
unfolding decode_uri_loop add_piece Reads decode_piece
Reads-self o b e p fuel text = rw (e, p)

abbrev pub nul : DecodeUriOptions → List ℕ
nul o = if o.nul_terminate then 0 ∷ [] else []

module _ (o : DecodeUriOptions) (f : ℕ → List ℕ)
    (reads : (b : ℕ) → IsByte b → Reads o b (f b)) where
  decode_uri_loop-encode_bytes :
      (bytes : List ℕ) (fuel : ℕ)
      → All IsByte bytes
      → length bytes ≤ fuel
      → decode_uri_loop fuel o (encode_bytes f bytes)
        ≡ some (record { value = bytes ++ nul o; had_errors = false })
  unfolding encode_bytes decode_uri_loop Reads
  decode_uri_loop-encode_bytes [] zero h k = refl
  decode_uri_loop-encode_bytes [] (suc fuel) h k = refl
  decode_uri_loop-encode_bytes (b ∷ bytes) zero h k = absurd (omega arith)
  decode_uri_loop-encode_bytes (b ∷ bytes) (suc fuel) (hb, hbs) k =
      rw (reads b hb fuel (encode_bytes f bytes))
        (rw (decode_uri_loop-encode_bytes bytes fuel hbs (omega arith)) refl)

  module _ (some_char : (b : ℕ) → 1 ≤ length (f b)) where
    length-encode_bytes : (bytes : List ℕ) → length bytes ≤ length (encode_bytes f bytes)
    unfolding encode_bytes
    length-encode_bytes [] = omega arith
    length-encode_bytes (b ∷ bytes) =
        rw length-append (omega (arith, some_char b, length-encode_bytes bytes))

    decode-encode_bytes :
        (bytes : List ℕ)
        → All IsByte bytes
        → decode_binary_uri_component o (encode_bytes f bytes)
          ≡ some (record { value = bytes ++ nul o; had_errors = false })
    unfolding decode_binary_uri_component
    decode-encode_bytes bytes h = decode_uri_loop-encode_bytes bytes _ h (length-encode_bytes bytes)

-- An encoder that keeps the characters of `stays` and escapes the rest.
module _ (o : DecodeUriOptions) (stays : ℕ → Bool)
    (kept : (b : ℕ) → stays b ≡ true → (b == b'%') ≡ false)
    (no_plus : (b : ℕ) → stays b ≡ true → (o.plus_to_space && b == b'+') ≡ false) where
  keep_or_escape : ℕ → List ℕ
  keep_or_escape b = if stays b then b ∷ [] else escape b

  Reads-keep_or_escape : (b : ℕ) → IsByte b → Reads o b (keep_or_escape b)
  unfolding keep_or_escape
  Reads-keep_or_escape b h = elim (Bool-cases (stays b)) [
    | inl e ↦ rw e (Reads-self o b (kept b e) (no_plus b e))
    | inr e ↦ rw e (Reads-escape o b h)
  ]

  some_char_kept : (b : ℕ) → 1 ≤ length (keep_or_escape b)
  unfolding keep_or_escape escape
  some_char_kept b = ground arith

  decode-keep_or_escape :
      (bytes : List ℕ)
      → All IsByte bytes
      → decode_binary_uri_component o (encode_bytes keep_or_escape bytes)
        ≡ some (record { value = bytes ++ nul o; had_errors = false })
  decode-keep_or_escape = decode-encode_bytes o keep_or_escape Reads-keep_or_escape some_char_kept

plus_off :
    (o : DecodeUriOptions) (b : ℕ)
    → o.plus_to_space ≡ false
    → (o.plus_to_space && b == b'+') ≡ false
plus_off o b h = rw h

abbrev pub IsReadBack : DecodeUriOptions → List ℕ → List ℕ → Type 0
IsReadBack o bytes text =
    decode_binary_uri_component o text
    ≡ some (record { value = bytes ++ nul o; had_errors = false })

-- What the four URI encoders write is decoded to the bytes that they were given, with no error
-- and with a NUL behind them where the options ask for one, unless `+` is read as a space.
pub decode_binary_uri_component-encode_uri :
    (o : DecodeUriOptions) (bytes : List ℕ)
    → o.plus_to_space ≡ false
    → All IsByte bytes
    → IsReadBack o bytes (encode_uri_component bytes)
      × IsReadBack o bytes (encode_uri_fragment bytes)
      × IsReadBack o bytes (encode_uri_path bytes)
      × IsReadBack o bytes (encode_uri_user_info bytes)
unfolding encode_uri_component encode_uri_fragment encode_uri_path encode_uri_user_info
    keep_or_escape
decode_binary_uri_component-encode_uri o bytes plus h = (
  decode-keep_or_escape o stays_in_component (λ b e. ground arith) (λ b e. plus_off o b plus) bytes
      h,
  decode-keep_or_escape o stays_in_fragment (λ b e. ground arith) (λ b e. plus_off o b plus) bytes
      h,
  decode-keep_or_escape o stays_in_path (λ b e. ground arith) (λ b e. plus_off o b plus) bytes h,
  decode-keep_or_escape o stays_in_user_info (λ b e. ground arith) (λ b e. plus_off o b plus) bytes
      h,
)

-- `encodeUriComponent` escapes `+`, so what it writes is read back under any options.
pub decode_binary_uri_component-encode_uri_component :
    (o : DecodeUriOptions) (bytes : List ℕ)
    → All IsByte bytes
    → IsReadBack o bytes (encode_uri_component bytes)
unfolding encode_uri_component keep_or_escape
decode_binary_uri_component-encode_uri_component o bytes h =
    decode-keep_or_escape o stays_in_component (λ b e. ground arith) (λ b e. ground arith) bytes h

Reads-plus : (o : DecodeUriOptions) → o.plus_to_space ≡ true → Reads o b' ' (b'+' ∷ [])
unfolding decode_uri_loop add_piece Reads decode_piece
Reads-plus o plus fuel text = rw plus

form_percent : (b : ℕ) → stays_in_form b ≡ true → (b == b'%') ≡ false
unfolding stays_in_form
form_percent b e = ground arith

form_plus :
    (o : DecodeUriOptions) (b : ℕ) → stays_in_form b ≡ true → (o.plus_to_space && b == b'+') ≡ false
unfolding stays_in_form
form_plus o b e = ground arith

==_eq : (a b : ℕ) → (a == b) ≡ true → a ≡ b
==_eq a b h = ground arith

form_chars : ℕ → List ℕ
form_chars b = if stays_in_form b then b ∷ [] else if b == b' ' then b'+' ∷ [] else escape b

Reads-form_chars :
    (o : DecodeUriOptions) (b : ℕ) → o.plus_to_space ≡ true → IsByte b → Reads o b (form_chars b)
unfolding form_chars
Reads-form_chars o b plus h = elim (Bool-cases (stays_in_form b)) [
  | inl e ↦ rw e (Reads-self o b (form_percent b e) (form_plus o b e))
  | inr e ↦ elim (Bool-cases (b == b' ')) [
    | inl space ↦ rw (e, space) (rw (==_eq b b' ' space) (Reads-plus o plus))
    | inr other ↦ rw (e, other) (Reads-escape o b h)
  ]
]

-- What `encodeWwwForm` writes is read back where `+` is read as a space.
pub decode_binary_uri_component-encode_www_form :
    (o : DecodeUriOptions) (bytes : List ℕ)
    → o.plus_to_space ≡ true
    → All IsByte bytes
    → IsReadBack o bytes (encode_www_form bytes)
unfolding encode_www_form form_chars escape
decode_binary_uri_component-encode_www_form o bytes plus h =
    decode-encode_bytes o form_chars (λ b k. Reads-form_chars o b plus k) (λ b. ground arith) bytes
      h

-- One round reads a character at least, and adds a byte at most for each that it reads.
decode_piece_shrinks :
    (o : DecodeUriOptions) (c : ℕ) (text : List ℕ) (r : EncodingResult)
    → (length (decode_piece o c text).rest ≤ length text)
      × (length (add_piece (decode_piece o c text) r).value + length (decode_piece o c text).rest
          ≤ length r.value + length text + 1)
unfolding decode_piece add_piece
decode_piece_shrinks o c text r = ground arith

decode_uri_loop_total :
    (fuel : ℕ) (o : DecodeUriOptions) (text : List ℕ)
    → length text ≤ fuel
    → (r : EncodingResult) × (decode_uri_loop fuel o text ≡ some r)
      × (length r.value ≤ length text + length (nul o))
unfolding decode_uri_loop
decode_uri_loop_total fuel o [] h = (_, refl, omega arith)
decode_uri_loop_total zero o (c ∷ text) h = absurd (omega arith)
decode_uri_loop_total (suc fuel) o (c ∷ text) h =
    let p = decode_piece o c text in
    let (r, e, small) =
      decode_uri_loop_total fuel o p.rest (
        omega (arith, decode_piece_shrinks o c text (record { value = []; had_errors = false }))) in
    (add_piece p r, rw e, omega (arith, decode_piece_shrinks o c text r))

-- On every text `decodeBinaryUriComponent` ends, and it adds no more bytes than the array that it
-- reserves has: one for each character, and the NUL that the options ask for.
pub decode_binary_uri_component_total :
    (o : DecodeUriOptions) (text : List ℕ)
    → (r : EncodingResult) × (decode_binary_uri_component o text ≡ some r)
      × (length r.value ≤ length text + length (nul o))
unfolding decode_binary_uri_component
decode_binary_uri_component_total o text = decode_uri_loop_total (length text) o text (omega arith)
