-- ===== src/Encoding/Base64/Url.antt =====
-- `encodeBase64Url` of capnproto/c++/src/kj/encoding.c++.
use capnp_import.Common.{ℕ, length, List, [], ◌∷◌, false, ◌==◌, if◌then◌else◌, ◌&&◌, Option, some}
use capnp_import.Encoding.Base64.{encode_base64, and_then}

-- `if (c == '+') c = '-'; if (c == '/') c = '_';`
abbrev url_char : ℕ → ℕ
url_char c = let c' = if c == 43 then 45 else c in if c' == 47 then 95 else c'

abbrev url_chars : List ℕ → List ℕ
url_chars [] = []
url_chars (c ∷ code) = url_char c ∷ url_chars code

-- The text without the '=' at its end.
abbrev strip_padding : List ℕ → List ℕ
strip_padding [] = []
strip_padding (c ∷ code) =
    let rest = strip_padding code in if length rest == 0 && c == 61 then [] else c ∷ rest

pub encode_base64_url : List ℕ → Option (List ℕ)
encode_base64_url bytes =
    and_then (encode_base64 bytes false) (λ base64. some (strip_padding (url_chars base64)))
