-- ===== src/Tests/Texts.antt =====
-- The codecs of kj/encoding.c++ at concrete inputs.
use capnp_import.Common.{
  ℕ, ◌+◌, ◌%◌, ◌^◌, ◌≤◌, ◌≡◌, List, [], ◌∷◌, ◌++◌, length, true, false, some, All, refl, arith,
  codes, leb,
}
use capnp_import.Encoding.{EncodingResult, IsByte, try_from_hex_digit}
use capnp_import.Encoding.Hex.{encode_hex, decode_hex}
use capnp_import.Encoding.Hex.Laws.{decode_hex-encode_hex}
use capnp_import.Encoding.Utf.{
  encode_utf, encode_utf16, encode_utf32, decode_utf16, decode_utf32, char16_t,
}
use capnp_import.Encoding.Utf.Utf16.{IsUnit16, encode_utf16-decode_utf16}
use capnp_import.Encoding.Utf.Utf32.{encode_utf32_replaces}
use capnp_import.Encoding.Utf.Total.{encode_utf_total, EndsWithin, nul_units}
use capnp_import.Encoding.Uri.{
  DecodeUriOptions, decode_binary_uri_component, encode_uri_component, encode_uri_fragment,
  encode_uri_path, encode_uri_user_info,
}
use capnp_import.Encoding.Uri.Laws.{
  decode_binary_uri_component-encode_uri, decode_binary_uri_component_total, IsReadBack,
}
use capnp_import.Encoding.CEscape.{encode_c_escape_impl, decode_binary_c_escape}
use capnp_import.Encoding.CEscape.Laws.{decode_binary_c_escape-encode_c_escape_impl}
use capnp_import.Encoding.CEscape.Total.{decode_binary_c_escape_total}
use capnp_import.Encoding.CEscape.HexRun.{AreDigits, positional, decode_binary_c_escape-hex_run}
use capnp_import.Encoding.Base64.{
  encode_base64, decode_base64, encoded_size, decoded_size, base64_decode_block, step_a,
}
use capnp_import.Encoding.Base64.RoundTrip.{decode_base64-encode_base64}
use capnp_import.Encoding.Base64.Sizes.{written, written-le-decoded_size}

-- Bytes of all kinds: letters, a quote, a plus, a percent sign, a line feed and a high byte.
abbrev some_bytes : List ℕ
some_bytes = 65 ∷ 34 ∷ 43 ∷ 37 ∷ 10 ∷ 233 ∷ 0 ∷ []

-- A pair, a lone low surrogate, and units of one, two and three bytes.
abbrev some_units : List ℕ
some_units = 0xd83d ∷ 0xde00 ∷ 0xdc00 ∷ 65 ∷ 0xe9 ∷ 0x20ac ∷ []

abbrev plus_is_space : DecodeUriOptions
plus_is_space = record { nul_terminate = true; plus_to_space = true }

abbrev plus_is_plus : DecodeUriOptions
plus_is_plus = record { nul_terminate = false; plus_to_space = false }

some_bytes-IsByte : All IsByte some_bytes
some_bytes-IsByte = (
  omega arith,
  (omega arith, (omega arith, (omega arith, (omega arith, (omega arith, (omega arith, tt)))))),
)

some_units-IsUnit16 : All IsUnit16 some_units
some_units-IsUnit16 =
    (omega arith, (omega arith, (omega arith, (omega arith, (omega arith, (omega arith, tt))))))

encode_utf16-decode_utf16_example :
    encode_utf16 (decode_utf16 some_units).value true
    ≡ some (record {
      value = some_units ++ (0 ∷ []);
      had_errors = (decode_utf16 some_units).had_errors;
    })
encode_utf16-decode_utf16_example = encode_utf16-decode_utf16 some_units true some_units-IsUnit16

encode_utf32_replaces_example :
    encode_utf32 (decode_utf32 (0x1d800 ∷ 0xdc00 ∷ [])).value false
    ≡ some (record { value = 0x1d800 ∷ 0xfffd ∷ []; had_errors = true })
encode_utf32_replaces_example =
    encode_utf32_replaces 0x1d800 0xdc00 (omega arith) (omega arith) refl refl

encode_utf_total_example :
    EndsWithin (3 + nul_units true) (encode_utf char16_t (0xe2 ∷ 0x82 ∷ 65 ∷ []) true)
encode_utf_total_example = encode_utf_total char16_t (0xe2 ∷ 0x82 ∷ 65 ∷ []) true

decode_base64-encode_base64_example :
    (code : List ℕ) × (encode_base64 some_bytes true ≡ some code)
    × (length code ≡ encoded_size (length some_bytes) true)
    × (decode_base64 code ≡ some (record { value = some_bytes; had_errors = false }))
decode_base64-encode_base64_example =
    decode_base64-encode_base64 some_bytes true some_bytes-IsByte
      (unfold encoded_size in omega arith)

written-le-decoded_size_example :
    (decode_base64 (codes "QU=J!")
      ≡ some (record {
        value = (base64_decode_block step_a false 0 0 (codes "QU=J!")).plain;
        had_errors = (base64_decode_block step_a false 0 0 (codes "QU=J!")).state.had_errors;
      }))
    × (written (base64_decode_block step_a false 0 0 (codes "QU=J!")) ≤ decoded_size 5)
written-le-decoded_size_example = written-le-decoded_size (codes "QU=J!") (omega arith)

decode_binary_uri_component-encode_uri_example :
    IsReadBack plus_is_plus some_bytes (encode_uri_component some_bytes)
    × IsReadBack plus_is_plus some_bytes (encode_uri_fragment some_bytes)
    × IsReadBack plus_is_plus some_bytes (encode_uri_path some_bytes)
    × IsReadBack plus_is_plus some_bytes (encode_uri_user_info some_bytes)
decode_binary_uri_component-encode_uri_example =
    decode_binary_uri_component-encode_uri plus_is_plus some_bytes refl some_bytes-IsByte

decode_binary_uri_component_total_example :
    (r : EncodingResult) × (decode_binary_uri_component plus_is_space (codes "a%4+%") ≡ some r)
    × (length r.value ≤ 5 + 1)
decode_binary_uri_component_total_example =
    decode_binary_uri_component_total plus_is_space (codes "a%4+%")

decode_binary_c_escape-encode_c_escape_impl_example :
    decode_binary_c_escape (encode_c_escape_impl some_bytes true) true
    ≡ some (record { value = some_bytes ++ (0 ∷ []); had_errors = false })
decode_binary_c_escape-encode_c_escape_impl_example =
    decode_binary_c_escape-encode_c_escape_impl some_bytes true true some_bytes-IsByte

decode_binary_c_escape_total_example :
    (r : EncodingResult) × (decode_binary_c_escape (codes "\\777\\u12") false ≡ some r)
decode_binary_c_escape_total_example = decode_binary_c_escape_total (codes "\\777\\u12") false

-- Nine digits, of which the first is lost.
abbrev nine_digits : List ℕ
nine_digits = 1 ∷ 0 ∷ 0 ∷ 0 ∷ 0 ∷ 0 ∷ 0 ∷ 4 ∷ 1 ∷ []

nine_digits-AreDigits : AreDigits (codes "100000041") nine_digits
nine_digits-AreDigits =
    unfold try_from_hex_digit in
    (refl, (refl, (refl, (refl, (refl, (refl, (refl, (refl, (refl, tt)))))))))

decode_binary_c_escape-hex_run_example :
    decode_binary_c_escape (b'\\' ∷ b'x' ∷ codes "100000041") false
    ≡ some (record {
      value = (positional 0 nine_digits % 2 ^ 8) ∷ [];
      had_errors = leb 0x100 (positional 0 nine_digits % 2 ^ 32);
    })
decode_binary_c_escape-hex_run_example =
    decode_binary_c_escape-hex_run (codes "100000041") nine_digits nine_digits-AreDigits

decode_hex-encode_hex_example :
    decode_hex (encode_hex some_bytes) ≡ record { value = some_bytes; had_errors = false }
decode_hex-encode_hex_example = decode_hex-encode_hex some_bytes some_bytes-IsByte
