-- ===== src/Encoding/Base64/RoundTrip.antt =====
-- Base64 text is decoded to the bytes that were encoded, with or without line breaks.
use capnp_import.Common.{
  ℕ, ◌+◌, ◌*◌, ◌%◌, ◌≡◌, List, [], ◌∷◌, ◌++◌, Bool, false, arith, refl, All, ap, if◌then◌else◌,
  ◌&&◌, ltb, ◌^◌, ◌<◌, some, length, ltb-eq-true, ==-eq-true, length-append,
}
use capnp_import.Encoding.Base64.Sizes.{length-code, narrowed_small}
use capnp_import.Encoding.{IsByte}
use capnp_import.Encoding.Base64.{
  step_A, step_a, Encoded, breaks, base64_encode_block, base64_encode_blockend, base64_decode_block,
  encode_base64, decode_base64, encode_part, encoded_size, base64_encode_value,
}
use capnp_import.Encoding.Base64.Encode.{
  encode_three, fragment1, fragment2, fragment4, fragment1-eq, fragment2-eq, carry1-eq, carry2-eq,
}
use capnp_import.Encoding.Base64.Decode.{
  IsClean, line_break, decode_line_break, skip_line_break, decode_two, decode_three, decode_four,
}

-- The code of one call with the end of the last line.
abbrev whole : Bool → Encoded → List ℕ
whole br block = block.code ++ base64_encode_blockend block.state br

encode_one :
    (br : Bool) (r n x : ℕ)
    → IsByte x
    → whole br (base64_encode_block br step_A r n (x ∷ []))
      ≡ base64_encode_value (fragment1 x)
        ∷ base64_encode_value (x % 4 * 16)
        ∷ b'='
        ∷ b'='
        ∷ line_break (br && ltb 0 (n + 1))
unfolding base64_encode_block base64_encode_blockend
encode_one br r n x h = rw (fragment1-eq x h, carry1-eq x) refl

encode_two :
    (br : Bool) (r n x y : ℕ)
    → IsByte x
    → IsByte y
    → whole br (base64_encode_block br step_A r n (x ∷ y ∷ []))
      ≡ base64_encode_value (fragment1 x)
        ∷ base64_encode_value (fragment2 x y)
        ∷ base64_encode_value (y % 16 * 4)
        ∷ b'='
        ∷ line_break (br && ltb 0 (n + 1))
unfolding base64_encode_block base64_encode_blockend
encode_two br r n x y hx hy =
    rw (fragment1-eq x hx, carry1-eq x, fragment2-eq x y hy, carry2-eq y) refl

decode-encode :
    (br : Bool) (r n : ℕ) (input : List ℕ)
    → All IsByte input
    → IsClean
        (base64_decode_block step_a false 0 0 (whole br (base64_encode_block br step_A r n input)))
        input
decode-encode br r n [] h =
    unfold base64_encode_block base64_encode_blockend in decode_line_break (br && ltb 0 n) 0
decode-encode br r n (x ∷ []) (hx, h) = rw (encode_one br r n x hx) (decode_two 0 x _ hx)
decode-encode br r n (x ∷ y ∷ []) (hx, h) =
    rw (encode_two br r n x y hx h.0) (decode_three 0 x y _ hx h.0)
decode-encode br r n (x ∷ y ∷ z ∷ input) (hx, h) =
    let (e, clean) =
      decode-encode br (fragment4 z) (if breaks br n then 0 else n + 1) input h.1.1 in
    rw (encode_three br r n x y z input hx h.0 h.1.0) (
      rw (decode_four 0 x y z _ hx h.0 h.1.0)
        (rw (skip_line_break (breaks br n) _ _) (ap (λ t. x ∷ y ∷ z ∷ t) e, clean)))

-- The code is at least as long as the bytes.
size-lt :
    (input : List ℕ) (br : Bool) → encoded_size (length input) br < 2 ^ 31 → length input < 2 ^ 31
unfolding encoded_size
size-lt input br h = ground arith

encode_base64-whole :
    (input : List ℕ) (br : Bool)
    → encoded_size (length input) br < 2 ^ 31
    → encode_base64 input br ≡ some (whole br (base64_encode_block br step_A 0 0 input))
unfolding encode_base64 encode_part
encode_base64-whole input br h =
    let block = base64_encode_block br step_A 0 0 input in
    let small = size-lt input br h in
    let filled = length-code input br small in
    let parts = length-append block.code (base64_encode_blockend block.state br) in
    rw (narrowed_small input small)
      (rw (ltb-eq-true (length block.code) (2 ^ 31) (omega arith), ==-eq-true _ _ filled) refl)

-- When the code has fewer than 2^31 characters, `encodeBase64` returns a text of the size that it
-- reserves, with line breaks or without, and `decodeBase64` returns the bytes again and reports no
-- error.
pub decode_base64-encode_base64 :
    (input : List ℕ) (break_lines : Bool)
    → All IsByte input
    → encoded_size (length input) break_lines < 2 ^ 31
    → (code : List ℕ) × (encode_base64 input break_lines ≡ some code)
      × (length code ≡ encoded_size (length input) break_lines)
      × (decode_base64 code ≡ some (record { value = input; had_errors = false }))
unfolding decode_base64
decode_base64-encode_base64 input br h fits =
    let (e, clean) = decode-encode br 0 0 input h in
    let filled = length-code input br (size-lt input br fits) in
    let code = whole br (base64_encode_block br step_A 0 0 input) in
    (
      code,
      encode_base64-whole input br fits,
      filled,
      rw (narrowed_small code (omega (arith, filled, fits)), e, clean) refl,
    )
