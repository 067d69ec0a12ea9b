-- ===== src/Encoding/Base64/Sizes.antt =====
-- The sizes that the base64 routines reserve are those that they fill.
use capnp_import.Common.{
  ℕ, suc, length, ◌+◌, ◌*◌, ◌/◌, ◌%◌, ◌≤◌, ◌<◌, ◌≡◌, List, [], ◌∷◌, ◌++◌, Bool, true, false, arith,
  refl, if◌then◌else◌, ◌||◌, ltb, ◌⊎◌, inl, inr, bit_and, ◌^◌, ap, take, some,
}
use capnp_import.Encoding.Utf.{char}
use capnp_import.Encoding.Base64.{
  step_A, step_a, step_b, step_c, step_d, DecodeStep, Fragment, value, whitespace, pad, invalid,
  Encoded, breaks, base64_encode_block, base64_encode_blockend, Decoded, base64_decode_value,
  base64_decode_block, narrowed, decode_base64, encoded_size, decoded_size, seen,
}

-- The bytes of the output that a call of the decoder has written, the unfinished one included.
pub written : Decoded → ℕ
written r = length r.plain + (elim r.state.step [ step_a ↦ 0 | _ ↦ 1 ])

Fragment-cases :
    (f : Fragment) → ((v : ℕ) × (f ≡ value v)) ⊎ ((f ≡ whitespace) ⊎ ((f ≡ pad) ⊎ (f ≡ invalid)))
Fragment-cases (value v) = inl (v, refl)
Fragment-cases whitespace = inr (inl refl)
Fragment-cases pad = inr (inr (inl refl))
Fragment-cases invalid = inr (inr (inr refl))

-- What the bits already read at a step allow beyond the characters to come, in quarters of a byte.
slack : DecodeStep → ℕ
slack step_a = 3
slack step_b = 6
slack step_c = 5
slack step_d = 4

written-le :
    (s : DecodeStep) (err : Bool) (n p : ℕ) (code : List ℕ)
    → 4 * written (base64_decode_block s err n p code) ≤ 3 * length code + slack s
unfolding base64_decode_block written slack
written-le step_a err n p [] = omega arith
written-le step_b err n p [] = omega arith
written-le step_c err n p [] = omega arith
written-le step_d err n p [] = omega arith
written-le step_a err n p (c ∷ code) = elim (Fragment-cases (base64_decode_value c)) [
  | inl (v, e) ↦ ground (arith, e, written-le step_b err n (char (bit_and v 0x03f * 2 ^ 2)) code)
  | inr (inl e) ↦ ground (arith, e, written-le step_a err n p code)
  | inr (inr (inl e)) ↦ ground (arith, e, written-le step_a true n p code)
  | inr (inr (inr e)) ↦ ground (arith, e, written-le step_a true n p code)
]
written-le step_b err n p (c ∷ code) = elim (Fragment-cases (base64_decode_value c)) [
  | inl (v, e) ↦ ground (arith, e, written-le step_c err n (char (bit_and v 0x00f * 2 ^ 4)) code)
  | inr (inl e) ↦ ground (arith, e, written-le step_b err n p code)
  | inr (inr (inl e)) ↦ ground (arith, e, written-le step_b true n p code)
  | inr (inr (inr e)) ↦ ground (arith, e, written-le step_b true n p code)
]
written-le step_c err n p (c ∷ code) = elim (Fragment-cases (base64_decode_value c)) [
  | inl (v, e) ↦
      ground (arith, e, written-le step_d (err || ltb 0 n) n (char (bit_and v 0x003 * 2 ^ 6)) code)
  | inr (inl e) ↦ ground (arith, e, written-le step_c err n p code)
  | inr (inr (inl e)) ↦
      ground (arith, e, written-le step_c (err || ltb 2 (seen err n)) (seen err n) p code)
  | inr (inr (inr e)) ↦ ground (arith, e, written-le step_c true n p code)
]
written-le step_d err n p (c ∷ code) = elim (Fragment-cases (base64_decode_value c)) [
  | inl (v, e) ↦ ground (arith, e, written-le step_a (err || ltb 0 n) n 0 code)
  | inr (inl e) ↦ ground (arith, e, written-le step_d err n p code)
  | inr (inr (inl e)) ↦
      ground (arith, e, written-le step_d (err || ltb 1 (seen err n)) (seen err n) p code)
  | inr (inr (inr e)) ↦ ground (arith, e, written-le step_d true n p code)
]

take-length : (bytes : List ℕ) → take (length bytes) bytes ≡ bytes
take-length [] = refl
take-length (b ∷ bytes) = ap (λ t. b ∷ t) (take-length bytes)

pub narrowed_small : (bytes : List ℕ) → length bytes < 2 ^ 31 → narrowed bytes ≡ some bytes
unfolding narrowed
narrowed_small bytes h = ground (arith, take-length bytes)

-- On fewer than 2^31 characters, well formed or not, the decoder ends with a result, and writes no
-- byte, finished or not, behind the end of the array that `decodeBase64` reserves.
pub written-le-decoded_size :
    (input : List ℕ)
    → length input < 2 ^ 31
    → (decode_base64 input
        ≡ some (record {
          value = (base64_decode_block step_a false 0 0 input).plain;
          had_errors = (base64_decode_block step_a false 0 0 input).state.had_errors;
        }))
      × (written (base64_decode_block step_a false 0 0 input) ≤ decoded_size (length input))
unfolding decoded_size slack decode_base64
written-le-decoded_size input h =
    (rw (narrowed_small input h) refl, omega (arith, written-le step_a false 0 0 input))

-- The characters of one call and of the end of the last line.
abbrev whole : Bool → Encoded → List ℕ
whole br block = block.code ++ base64_encode_blockend block.state br

-- The line breaks that are written from `stepcount` on, for `groups` groups of characters.
abbrev line_breaks : Bool → ℕ → ℕ → ℕ
line_breaks br stepcount groups =
    if br
    then (stepcount + groups) / 18 + (if ltb 0 ((stepcount + groups) % 18) then 1 else 0)
    else 0

length-append_left : (xs ys zs : List ℕ) → length ((xs ++ ys) ++ zs) ≡ length xs + length (ys ++ zs)
length-append_left [] ys zs = omega arith
length-append_left (x ∷ xs) ys zs = omega (arith, length-append_left xs ys zs)

groups_suc : (n : ℕ) → (suc (suc (suc n)) + 2) / 3 ≡ (n + 2) / 3 + 1
groups_suc n = omega arith

-- With line breaks, the groups of a line are counted below 18.
abbrev IsOnLine : Bool → ℕ → Type 0
IsOnLine br n = (br ≡ false) ⊎ (n < 18)

next_stepcount :
    (br : Bool) (n : ℕ) → IsOnLine br n → IsOnLine br (if breaks br n then 0 else n + 1)
unfolding breaks
next_stepcount br n h = ground arith

line_breaks_step :
    (br : Bool) (n groups : ℕ)
    → IsOnLine br n
    → length {A = ℕ} (if breaks br n then 10 ∷ [] else [])
        + line_breaks br (if breaks br n then 0 else n + 1) groups
      ≡ line_breaks br n (groups + 1)
unfolding breaks
line_breaks_step br n groups h = ground arith

length-whole :
    (br : Bool) (r n : ℕ) (input : List ℕ)
    → IsOnLine br n
    → length (whole br (base64_encode_block br step_A r n input))
      ≡ (length input + 2) / 3 * 4 + line_breaks br n ((length input + 2) / 3)
unfolding base64_encode_block base64_encode_blockend
length-whole br r n [] h = ground arith
length-whole br r n (x ∷ []) h = ground arith
length-whole br r n (x ∷ y ∷ []) h = ground arith
length-whole br r n (x ∷ y ∷ z ∷ input) h =
    let n' = if breaks br n then 0 else n + 1 in
    let block = base64_encode_block br step_A (bit_and z 0x03f) n' input in
    let ih = length-whole br (bit_and z 0x03f) n' input (next_stepcount br n h) in
    let arranged =
      length-append_left (if breaks br n then 10 ∷ [] else []) block.code
        (base64_encode_blockend block.state br) in
    let groups = groups_suc (length input) in
    let counted = line_breaks_step br n ((length input + 2) / 3) h in
    rw (arranged, ih, groups) (omega (arith, counted))

-- The code of as many bytes as an int counts fills the string that `encodeBase64` reserves.
pub length-code :
    (input : List ℕ) (break_lines : Bool)
    → length input < 2 ^ 31
    → length (whole break_lines (base64_encode_block break_lines step_A 0 0 input))
      ≡ encoded_size (length input) break_lines
unfolding encoded_size
length-code input br h = ground (arith, length-whole br 0 0 input)
