-- ===== src/Encoding/Uri.antt =====
-- The percent codecs of capnproto/c++/src/kj/encoding.c++: `encodeUriComponent`, `encodeUriFragment`,
-- `encodeUriPath`, `encodeUriUserInfo`, `encodeWwwForm` and `decodeBinaryUriComponent`.
pub mod Laws
use capnp_import.Common.{
  ℕ, zero, suc, length, ◌+◌, ◌*◌, ◌/◌, ◌%◌, ◌^◌, ◌<◌, ◌≡◌, List, [], ◌∷◌, ◌++◌,
}
use capnp_import.Common.{Bool, true, false, Option, some, none, ◌==◌, leb, bit_or}
use capnp_import.Common.{if◌then◌else◌, ◌&&◌, ◌||◌}
use mathlib.Core.Option
use capnp_import.Encoding.{EncodingResult, add, flag, at, hex_digits_uri, try_from_hex_digit}

-- The bodies of the encoders' loops differ in the test of the characters that stay.
escape : ℕ → List ℕ
escape b = b'%' ∷ at hex_digits_uri (b / 16) ∷ at hex_digits_uri (b % 16) ∷ []

is_alphanumeric : ℕ → Bool
is_alphanumeric b =
    (leb b'A' b && leb b b'Z') || (leb b'a' b && leb b b'z') || (leb b'0' b && leb b b'9')

stays_in_component : ℕ → Bool
unfolding is_alphanumeric
stays_in_component b =
    is_alphanumeric b
    || b == b'-'
    || b == b'_'
    || b == b'.'
    || b == b'!'
    || b == b'~'
    || b == b'*'
    || b == 39
    || b == b'('
    || b == b')'

stays_in_fragment : ℕ → Bool
stays_in_fragment b =
    (leb b'?' b && leb b b'_')
    || (leb b'a' b && leb b b'~')
    || (leb b'&' b && leb b b';')
    || b == b'!'
    || b == b'='
    || b == b'#'
    || b == b'$'

stays_in_path : ℕ → Bool
stays_in_path b =
    (leb b'@' b && leb b b'[')
    || (leb b'a' b && leb b b'z')
    || (leb b'0' b && leb b b';')
    || (leb b'&' b && leb b b'.')
    || b == b'_'
    || b == b'!'
    || b == b'='
    || b == b']'
    || b == b'^'
    || b == b'|'
    || b == b'~'
    || b == b'$'

stays_in_user_info : ℕ → Bool
unfolding is_alphanumeric
stays_in_user_info b =
    is_alphanumeric b
    || (leb b'&' b && leb b b'.')
    || b == b'_'
    || b == b'!'
    || b == b'~'
    || b == b'$'

stays_in_form : ℕ → Bool
unfolding is_alphanumeric
stays_in_form b = is_alphanumeric b || b == b'-' || b == b'_' || b == b'.' || b == b'*'

-- `for (byte b: bytes)`, with the characters that each round adds.
encode_bytes : (ℕ → List ℕ) → List ℕ → List ℕ
encode_bytes f [] = []
encode_bytes f (b ∷ bytes) = f b ++ encode_bytes f bytes

pub encode_uri_component : List ℕ → List ℕ
unfolding escape stays_in_component
encode_uri_component bytes =
    encode_bytes (λ b. if stays_in_component b then b ∷ [] else escape b) bytes

pub encode_uri_fragment : List ℕ → List ℕ
unfolding escape stays_in_fragment
encode_uri_fragment bytes =
    encode_bytes (λ b. if stays_in_fragment b then b ∷ [] else escape b) bytes

pub encode_uri_path : List ℕ → List ℕ
unfolding escape stays_in_path
encode_uri_path bytes = encode_bytes (λ b. if stays_in_path b then b ∷ [] else escape b) bytes

pub encode_uri_user_info : List ℕ → List ℕ
unfolding escape stays_in_user_info
encode_uri_user_info bytes =
    encode_bytes (λ b. if stays_in_user_info b then b ∷ [] else escape b) bytes

pub encode_www_form : List ℕ → List ℕ
unfolding escape stays_in_form
encode_www_form bytes =
    encode_bytes
      (λ b. if stays_in_form b then b ∷ [] else if b == b' ' then b'+' ∷ [] else escape b) bytes

-- `DecodeUriOptions`.
pub record DecodeUriOptions : Type 0 where
  pub nul_terminate : Bool
  pub plus_to_space : Bool

-- Where the loop goes on: the byte that was added, if any, an error if one was flagged, and the
-- text from `ptr` on.
pub record Piece : Type 0 where
  pub byte : Option ℕ
  pub failed : Bool
  pub rest : List ℕ

-- After `%` and the digit `d1`.
second_digit : ℕ → List ℕ → Piece
second_digit d1 [] = record { byte = some d1; failed = true; rest = [] }
second_digit d1 (c ∷ rest) = elim (try_from_hex_digit c) [
  | none ↦ record { byte = some d1; failed = true; rest = c ∷ rest }
  | some d2 ↦ record { byte = some (bit_or (d1 * 2 ^ 4 % 2 ^ 8) d2); failed = false; rest = rest }
]

-- After `%`.
first_digit : List ℕ → Piece
unfolding second_digit
first_digit [] = record { byte = none; failed = true; rest = [] }
first_digit (c ∷ rest) = elim (try_from_hex_digit c) [
  | none ↦ record { byte = none; failed = true; rest = c ∷ rest }
  | some d1 ↦ second_digit d1 rest
]

-- One round of the loop, at the character `c`.
decode_piece : DecodeUriOptions → ℕ → List ℕ → Piece
unfolding first_digit
decode_piece options c rest =
    if c == b'%'
    then first_digit rest
    else if options.plus_to_space && c == b'+'
    then record { byte = some b' '; failed = false; rest = rest }
    else record { byte = some c; failed = false; rest = rest }

add_piece : Piece → EncodingResult → EncodingResult
add_piece p r = record {
  value = elim p.byte [ none ↦ r.value | some b ↦ b ∷ r.value ];
  had_errors = p.failed || r.had_errors;
}

-- `none` is no result of the code: the fuel ran out. Each round reads a character at least.
decode_uri_loop : ℕ → DecodeUriOptions → List ℕ → Option EncodingResult
decode_uri_loop fuel options [] =
    some (record { value = if options.nul_terminate then 0 ∷ [] else []; had_errors = false })
decode_uri_loop zero options (c ∷ text) = none
decode_uri_loop (suc fuel) options (c ∷ text) =
    let p = decode_piece options c text in
    Option.map (add_piece p) (decode_uri_loop fuel options p.rest)

pub decode_binary_uri_component : DecodeUriOptions → List ℕ → Option EncodingResult
decode_binary_uri_component options text = decode_uri_loop (length text) options text
