-- ===== src/Encoding/CEscape/Laws.antt =====
-- C escapes: what the encoder writes is read back, and every text is decoded.
use capnp_import.Common.{
  ℕ, zero, suc, length, ◌+◌, ◌*◌, ◌/◌, ◌%◌, ◌^◌, ◌<◌, ◌≤◌, ◌≡◌, List, [], ◌∷◌, ◌++◌,
}
use capnp_import.Common.{Bool, true, false, some, ◌==◌, ltb, bit_or, refl, All, arith}
use capnp_import.Common.{
  if◌then◌else◌, ◌&&◌, ◌||◌, all_below, all_below_sound, inl, inr, Bool-cases, length-append,
}
use capnp_import.Common.Bits.{bit_or_disjoint}
use mathlib.Core.Option
use capnp_import.Common.{if_intro, ◌∙◌}
use capnp_import.Encoding.{EncodingResult, IsByte, at, hex_digits, try_from_oct_digit}
use capnp_import.Encoding.Digits.{try_from_oct_digit-hex_digits}
use capnp_import.Encoding.CEscape.{
  escape_byte, encode_c_escape_impl, read_octal, plain, add_number, read_escape, decode_piece,
  add_piece, decode_c_escape_loop, decode_binary_c_escape,
}

Reads : ℕ → List ℕ → Type 0
Reads b chars =
    (nul : Bool) (fuel : ℕ) (text : List ℕ)
    → decode_c_escape_loop (suc fuel) nul (chars ++ text)
      ≡ Option.map (λ (r : EncodingResult). record r { value = b ∷ r.value })
          (decode_c_escape_loop fuel nul text)

oct_digit-eq : (d : ℕ) → d < 8 → at hex_digits d ≡ 48 + d
unfolding all_below
oct_digit-eq d h =
    let table = all_below_sound 8 (λ i. at hex_digits i == 48 + i) d refl h in ground arith

octal_value :
    (a b c : ℕ)
    → a < 4
    → b < 8
    → c < 8
    → bit_or (bit_or (a * 2 ^ 3 % 2 ^ 32) b * 2 ^ 3 % 2 ^ 32) c ≡ a * 64 + b * 8 + c
octal_value a b c ha hb hc =
    ground (arith, bit_or_disjoint 3 a b hb, bit_or_disjoint 3 (a * 8 + b) c hc)

read_octal-digit :
    (n value c d : ℕ) (text : List ℕ)
    → try_from_oct_digit c ≡ some d
    → read_octal (suc n) value (c ∷ text) ≡ read_octal n (bit_or (value * 2 ^ 3 % 2 ^ 32) d) text
unfolding read_octal
read_octal-digit n value c d text e = ground (arith, e)

read_octal-digits :
    (a b c x y : ℕ) (text : List ℕ)
    → a < 4
    → b < 8
    → c < 8
    → try_from_oct_digit x ≡ some b
    → try_from_oct_digit y ≡ some c
    → read_octal 2 a (x ∷ y ∷ text)
      ≡ record { value = a * 64 + b * 8 + c; failed = false; rest = text }
unfolding read_octal
read_octal-digits a b c x y text ha hb hc ex ey =
    read_octal-digit 1 a x b (y ∷ text) ex
    ∙ read_octal-digit 0 (bit_or (a * 2 ^ 3 % 2 ^ 32) b) y c text ey
    ∙ rw (octal_value a b c ha hb hc)

read_escape-octal :
    (a : ℕ) (text : List ℕ) → a < 8 → read_escape (48 + a) text ≡ add_number (read_octal 2 a text)
unfolding read_escape
read_escape-octal a text h = ground arith

read_escape-digits :
    (b : ℕ) (text : List ℕ)
    → b < 256
    → read_escape
        (at hex_digits (b / 64))
        (at hex_digits (b / 8 % 8) ∷ at hex_digits (b % 8) ∷ text)
      ≡ plain b text
read_escape-digits b text h = rw (oct_digit-eq (b / 64) (omega arith)) (
    rw
      (read_escape-octal (b / 64) (at hex_digits (b / 8 % 8) ∷ at hex_digits (b % 8) ∷ text)
        (omega arith))
      (rw
        (read_octal-digits (b / 64) (b / 8 % 8) (b % 8) (at hex_digits (b / 8 % 8))
          (at hex_digits (b % 8)) text (omega arith) (omega arith) (omega arith)
          (try_from_oct_digit-hex_digits (b / 8 % 8) (omega arith))
          (try_from_oct_digit-hex_digits (b % 8) (omega arith)))
        (ground arith)))

-- One round on an escape.
read_back :
    (b c2 : ℕ) (chars : List ℕ)
    → ((text : List ℕ) → read_escape c2 (chars ++ text) ≡ plain b text)
    → Reads b (b'\\' ∷ c2 ∷ chars)
unfolding decode_c_escape_loop decode_piece add_piece Reads
read_back b c2 chars h nul fuel text = rw (h text)

Reads-plain : (b : ℕ) → (b == b'\\') ≡ false → Reads b (b ∷ [])
unfolding decode_c_escape_loop decode_piece add_piece Reads
Reads-plain b h nul fuel text = rw h

==_eq : (a b : ℕ) → (a == b) ≡ true → a ≡ b
==_eq a b h = ground arith

Reads-octal :
    (is_binary : Bool) (b : ℕ)
    → IsByte b
    → (b == b'\\') ≡ false
    → Reads b (
        if ltb b 0x20 || b == 0x7f || (is_binary && ltb 0x7f b)
        then b'\\' ∷ at hex_digits (b / 64) ∷ at hex_digits (b / 8 % 8) ∷ at hex_digits (b % 8) ∷ []
        else b ∷ [])
Reads-octal is_binary b h e =
    if_intro (Reads b) (ltb b 0x20 || b == 0x7f || (is_binary && ltb 0x7f b)) _ _
      (read_back b (at hex_digits (b / 64)) (at hex_digits (b / 8 % 8) ∷ at hex_digits (b % 8) ∷ [])
        (λ text. read_escape-digits b text h))
      (Reads-plain b e)

-- A byte `k` with an escape of its own, and the bytes that have none.
Reads-named :
    (b k c2 : ℕ) (other : List ℕ)
    → ((text : List ℕ) → read_escape c2 text ≡ plain k text)
    → ((b == k) ≡ false → Reads b other)
    → Reads b (if b == k then b'\\' ∷ c2 ∷ [] else other)
Reads-named b k c2 other named rest = elim (Bool-cases (b == k)) [
  | inl e ↦ rw e (rw (==_eq b k e) (read_back k c2 [] named))
  | inr e ↦ rw e (rest e)
]

Reads-escape_byte : (is_binary : Bool) (b : ℕ) → IsByte b → Reads b (escape_byte is_binary b)
unfolding escape_byte
Reads-escape_byte is_binary b h =
    Reads-named b 7 b'a' _ (λ t. unfold read_escape in refl)
      λ _.
        Reads-named b 8 b'b' _ (λ t. unfold read_escape in refl)
          λ _.
            Reads-named b 12 b'f' _ (λ t. unfold read_escape in refl)
              λ _.
                Reads-named b 10 b'n' _ (λ t. unfold read_escape in refl)
                  λ _.
                    Reads-named b 13 b'r' _ (λ t. unfold read_escape in refl)
                      λ _.
                        Reads-named b 9 b't' _ (λ t. unfold read_escape in refl)
                          λ _.
                            Reads-named b 11 b'v' _ (λ t. unfold read_escape in refl)
                              λ _.
                                Reads-named b 39 39 _ (λ t. unfold read_escape in refl)
                                  λ _.
                                    Reads-named b 34 34 _ (λ t. unfold read_escape in refl)
                                      λ _.
                                        Reads-named b b'\\' b'\\' _
                                          (λ t. unfold read_escape in refl)
                                          λ e. Reads-octal is_binary b h e

encoded_byte :
    (is_binary nul : Bool) (b : ℕ) (bytes : List ℕ) (fuel : ℕ)
    → IsByte b
    → decode_c_escape_loop (suc fuel) nul (encode_c_escape_impl (b ∷ bytes) is_binary)
      ≡ Option.map
          (λ (r : EncodingResult). record r { value = b ∷ r.value })
          (decode_c_escape_loop fuel nul (encode_c_escape_impl bytes is_binary))
unfolding encode_c_escape_impl Reads
encoded_byte is_binary nul b bytes fuel h =
    Reads-escape_byte is_binary b h nul fuel (encode_c_escape_impl bytes is_binary)

escape_byte-ne-nil : (is_binary : Bool) (b : ℕ) → 1 ≤ length (escape_byte is_binary b)
unfolding escape_byte
escape_byte-ne-nil is_binary b = ground arith

decode_c_escape_loop-encode :
    (is_binary nul : Bool) (bytes : List ℕ) (fuel : ℕ)
    → All IsByte bytes
    → length bytes ≤ fuel
    → decode_c_escape_loop fuel nul (encode_c_escape_impl bytes is_binary)
      ≡ some (record { value = bytes ++ (if nul then 0 ∷ [] else []); had_errors = false })
decode_c_escape_loop-encode is_binary nul [] zero h k =
    unfold encode_c_escape_impl decode_c_escape_loop in refl
decode_c_escape_loop-encode is_binary nul [] (suc fuel) h k =
    unfold encode_c_escape_impl decode_c_escape_loop in refl
decode_c_escape_loop-encode is_binary nul (b ∷ bytes) zero h k = absurd (omega arith)
decode_c_escape_loop-encode is_binary nul (b ∷ bytes) (suc fuel) (hb, h) k =
    encoded_byte is_binary nul b bytes fuel hb
    ∙ rw (decode_c_escape_loop-encode is_binary nul bytes fuel h (omega arith)) refl

length-encode_c_escape_impl :
    (is_binary : Bool) (bytes : List ℕ)
    → length bytes ≤ length (encode_c_escape_impl bytes is_binary)
unfolding encode_c_escape_impl
length-encode_c_escape_impl is_binary [] = omega arith
length-encode_c_escape_impl is_binary (b ∷ bytes) =
    rw length-append
      (omega (arith, escape_byte-ne-nil is_binary b, length-encode_c_escape_impl is_binary bytes))

-- What `encodeCEscapeImpl` writes for bytes, as text or as binary, `decodeBinaryCEscape` reads back,
-- with no error, and with a NUL behind it if that is asked for.
pub decode_binary_c_escape-encode_c_escape_impl :
    (bytes : List ℕ) (is_binary nul : Bool)
    → All IsByte bytes
    → decode_binary_c_escape (encode_c_escape_impl bytes is_binary) nul
      ≡ some (record { value = bytes ++ (if nul then 0 ∷ [] else []); had_errors = false })
unfolding decode_binary_c_escape
decode_binary_c_escape-encode_c_escape_impl bytes is_binary nul h =
    decode_c_escape_loop-encode is_binary nul bytes _ h
      (length-encode_c_escape_impl is_binary bytes)
