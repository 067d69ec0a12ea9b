-- ===== src/Encoding/Base64.antt =====
-- `encodeBase64` and `decodeBase64` of capnproto/c++/src/kj/encoding.c++, with the state machines
-- `base64_encode_block`, `base64_encode_blockend` and `base64_decode_block` that they run. A result
-- `none` is a failed assertion, or a loop or a pointer that leaves its array since a size that was
-- narrowed to int is negative.
pub mod Encode
pub mod Decode
pub mod Sizes
pub mod RoundTrip
pub mod Url
use capnp_import.Common.{ℕ, zero, suc, length, ◌+◌, ◌-◌, ◌*◌, ◌/◌, ◌%◌, ◌^◌, List, [], ◌∷◌, ◌++◌}
use capnp_import.Common.{Bool, true, false, ◌==◌, ltb, leb, bit_or, bit_and, codes}
use capnp_import.Common.{if◌then◌else◌, ◌&&◌, ◌||◌, take, Option, none, some}
use capnp_import.Encoding.{EncodingResult, at}
use capnp_import.Encoding.Utf.{char}

-- `base64_encodestep` and `base64_encodestate`.
pub data EncodeStep : Type 0 where
  step_A step_B step_C : EncodeStep

pub record EncodeState : Type 0 where
  pub step : EncodeStep
  pub result : ℕ
  pub stepcount : ℕ

abbrev pub chars_per_line : ℕ
chars_per_line = 72

abbrev encoding : List ℕ
encoding = codes "ABCDEFGHIJKLMNOPQRSTUVWXYZabcdefghijklmnopqrstuvwxyz0123456789+/"

pub base64_encode_value : ℕ → ℕ
base64_encode_value value_in = if ltb 63 value_in then b'=' else at encoding value_in

-- What a call of `base64_encode_block` wrote, and the state that it left.
pub record Encoded : Type 0 where
  pub code : List ℕ
  pub state : EncodeState

abbrev pub write : List ℕ → Encoded → Encoded
write chars r = record r { code = chars ++ r.code }

-- The last statements of a round: `++stepcount`, and a line break behind 72 characters.
pub breaks : Bool → ℕ → Bool
breaks break_lines stepcount = break_lines && stepcount + 1 == chars_per_line / 4

-- The loop over the bytes that `length_in` counts, entered at the step of the state.
pub base64_encode_block : Bool → EncodeStep → ℕ → ℕ → List ℕ → Encoded
base64_encode_block break_lines step result stepcount [] = record {
  code = [];
  state = record { step = step; result = result; stepcount = stepcount };
}
base64_encode_block break_lines step_A result stepcount (fragment ∷ plain) =
    write (base64_encode_value (bit_and fragment 0x0fc / 2 ^ 2) ∷ [])
      (base64_encode_block break_lines step_B (bit_and fragment 0x003 * 2 ^ 4) stepcount plain)
base64_encode_block break_lines step_B result stepcount (fragment ∷ plain) =
    write (base64_encode_value (bit_or result (bit_and fragment 0x0f0 / 2 ^ 4)) ∷ [])
      (base64_encode_block break_lines step_C (bit_and fragment 0x00f * 2 ^ 2) stepcount plain)
base64_encode_block break_lines step_C result stepcount (fragment ∷ plain) =
    let last = bit_and fragment 0x03f in
    write
      (base64_encode_value (bit_or result (bit_and fragment 0x0c0 / 2 ^ 6))
        ∷ base64_encode_value last
        ∷ (if breaks break_lines stepcount then 10 ∷ [] else []))
      (base64_encode_block break_lines step_A last
        (if breaks break_lines stepcount then 0 else stepcount + 1) plain)

-- The padding of the `switch`, and whether `stepcount` is raised.
padding : EncodeStep → ℕ → List ℕ
padding step_A result = []
padding step_B result = base64_encode_value result ∷ b'=' ∷ b'=' ∷ []
padding step_C result = base64_encode_value result ∷ b'=' ∷ []

final_stepcount : EncodeStep → ℕ → ℕ
final_stepcount step_A stepcount = stepcount
final_stepcount step_B stepcount = stepcount + 1
final_stepcount step_C stepcount = stepcount + 1

pub base64_encode_blockend : EncodeState → Bool → List ℕ
unfolding padding final_stepcount
base64_encode_blockend s break_lines =
    padding s.step s.result
    ++ (if break_lines && ltb 0 (final_stepcount s.step s.stepcount) then 10 ∷ [] else [])

abbrev pub and_then {ℓ κ} : {A : Type ℓ} {B : Type κ} → Option A → (A → Option B) → Option B
and_then none f = none
and_then (some a) f = f a

-- The bytes that `length_in` counts, an int that is given the size of the array. The loops of
-- both blocks start behind their end when it is negative.
pub narrowed : List ℕ → Option (List ℕ)
narrowed bytes =
    let length_in = length bytes % 2 ^ 32 in
    if ltb length_in (2 ^ 31) then some (take length_in bytes) else none

-- The size of the string that `encodeBase64` reserves for `n` bytes, and asserts to be filled.
unfoldable pub encoded_size : ℕ → Bool → ℕ
encoded_size n break_lines =
    let num_chars = (n + 2) / 3 * 4 in
    if break_lines
    then num_chars
      + (num_chars / chars_per_line + (if ltb 0 (num_chars % chars_per_line) then 1 else 0))
        % 2 ^ 32
    else num_chars

-- What `encodeBase64` does with the bytes that `length_in` counts, for an array of the size `n`: the
-- count `cnt` of the characters of the block is an int, and the assertion compares the sizes.
pub encode_part : ℕ → Bool → List ℕ → Option (List ℕ)
encode_part n break_lines part =
    let block = base64_encode_block break_lines step_A 0 0 part in
    let code = block.code ++ base64_encode_blockend block.state break_lines in
    if ltb (length block.code) (2 ^ 31) && length code == encoded_size n break_lines
    then some code
    else none

pub encode_base64 : List ℕ → Bool → Option (List ℕ)
encode_base64 input break_lines =
    and_then (narrowed input) (λ part. encode_part (length input) break_lines part)

-- `base64_decodestep` and `base64_decodestate`.
pub data DecodeStep : Type 0 where
  step_a step_b step_c step_d : DecodeStep

pub record DecodeState : Type 0 where
  pub had_errors : Bool
  pub padding_seen : ℕ
  pub step : DecodeStep
  pub plainchar : ℕ

-- What `base64_decode_value` returns: a fragment value, -1, -2 or -3.
pub data Fragment : Type 0 where
  value : ℕ → Fragment
  whitespace pad invalid : Fragment

pub base64_decode_value : ℕ → Fragment
base64_decode_value c =
    if leb b'A' c && leb c b'Z'
    then value (c - b'A')
    else if leb b'a' c && leb c b'z'
    then value (c - b'a' + 26)
    else if leb b'0' c && leb c b'9'
    then value (c - b'0' + 52)
    else if c == b'+'
    then value 62
    else if c == b'/'
    then value 63
    else if c == b'='
    then pad
    else if c == 9 || c == 10 || c == 12 || c == 13 || c == 32
    then whitespace
    else invalid

-- What a call of `base64_decode_block` wrote, and the state that it left.
pub record Decoded : Type 0 where
  pub plain : List ℕ
  pub state : DecodeState

abbrev pub emit : ℕ → Decoded → Decoded
emit b r = record r { plain = b ∷ r.plain }

-- `*plainchar |= bits`, with the bits of `plainchar` that the step before wrote.
abbrev pub merge : ℕ → ℕ → ℕ
merge plainchar bits = char (bit_or plainchar bits)

-- `++nPaddingBytesSeen` stands behind `hadErrors ||`, so it is skipped after an error.
abbrev pub seen : Bool → ℕ → ℕ
seen had_errors padding_seen = if had_errors then padding_seen else padding_seen + 1

-- The loop over the characters that `length_in` counts, entered at the step of the state, with the fields of the state and the byte that
-- `*plainchar` holds.
pub base64_decode_block : DecodeStep → Bool → ℕ → ℕ → List ℕ → Decoded
base64_decode_block step_a err padding_seen plainchar [] = record {
  plain = [];
  state = record { had_errors = err; padding_seen = padding_seen; step = step_a; plainchar = 0 };
}
base64_decode_block step_b err padding_seen plainchar [] = record {
  plain = [];
  state = record {
    had_errors = true;
    padding_seen = padding_seen;
    step = step_b;
    plainchar = plainchar;
  };
}
base64_decode_block step_c err padding_seen plainchar [] = record {
  plain = [];
  state = record {
    had_errors = err || padding_seen == 1;
    padding_seen = padding_seen;
    step = step_c;
    plainchar = plainchar;
  };
}
base64_decode_block step_d err padding_seen plainchar [] = record {
  plain = [];
  state = record {
    had_errors = err;
    padding_seen = padding_seen;
    step = step_d;
    plainchar = plainchar;
  };
}
base64_decode_block step_a err padding_seen plainchar (c ∷ code) = elim (base64_decode_value c) [
  | value v ↦ base64_decode_block step_b err padding_seen (char (bit_and v 0x03f * 2 ^ 2)) code
  | whitespace ↦ base64_decode_block step_a err padding_seen plainchar code
  | pad ↦ base64_decode_block step_a true padding_seen plainchar code
  | invalid ↦ base64_decode_block step_a true padding_seen plainchar code
]
base64_decode_block step_b err padding_seen plainchar (c ∷ code) = elim (base64_decode_value c) [
  | value v ↦
      emit (merge plainchar (bit_and v 0x030 / 2 ^ 4))
        (base64_decode_block step_c err padding_seen (char (bit_and v 0x00f * 2 ^ 4)) code)
  | whitespace ↦ base64_decode_block step_b err padding_seen plainchar code
  | pad ↦ base64_decode_block step_b true padding_seen plainchar code
  | invalid ↦ base64_decode_block step_b true padding_seen plainchar code
]
base64_decode_block step_c err padding_seen plainchar (c ∷ code) = elim (base64_decode_value c) [
  | value v ↦ emit (merge plainchar (bit_and v 0x03c / 2 ^ 2)) (
      base64_decode_block step_d (err || ltb 0 padding_seen) padding_seen
        (char (bit_and v 0x003 * 2 ^ 6)) code)
  | whitespace ↦ base64_decode_block step_c err padding_seen plainchar code
  | pad ↦
      let n = seen err padding_seen in base64_decode_block step_c (err || ltb 2 n) n plainchar code
  | invalid ↦ base64_decode_block step_c true padding_seen plainchar code
]
base64_decode_block step_d err padding_seen plainchar (c ∷ code) = elim (base64_decode_value c) [
  | value v ↦
      emit (merge plainchar (bit_and v 0x03f))
        (base64_decode_block step_a (err || ltb 0 padding_seen) padding_seen 0 code)
  | whitespace ↦ base64_decode_block step_d err padding_seen plainchar code
  | pad ↦
      let n = seen err padding_seen in base64_decode_block step_d (err || ltb 1 n) n plainchar code
  | invalid ↦ base64_decode_block step_d true padding_seen plainchar code
]

pub decode_base64 : List ℕ → Option EncodingResult
decode_base64 input = and_then (narrowed input) (λ part.
    let block = base64_decode_block step_a false 0 0 part in
    some (record { value = block.plain; had_errors = block.state.had_errors }))

-- The size of the array that `decodeBase64` reserves for `n` characters.
pub decoded_size : ℕ → ℕ
decoded_size n = (n * 6 + 7) / 8
