-- ===== src/Encoding.antt =====
-- What the codecs of capnproto/c++/src/kj/encoding.c++ and encoding.h share: the result type and the
-- digits. Texts and byte arrays are lists of numbers; a `kj::String` is listed without the NUL that
-- ends it.
pub mod Digits
pub mod Hex
pub mod Uri
pub mod Utf
pub mod CEscape
pub mod Base64
use capnp_import.Common.{ℕ, ◌+◌, ◌-◌, ◌<◌, List, Bool, true, ◌&&◌, Option, some, none}
use capnp_import.Common.{leb, if◌then◌else◌, ◌∷◌, codes, get_elem?}
use mathlib.Core.Option

-- `EncodingResult<T>`: the array, and whether an error was met on the way.
pub record EncodingResult : Type 0 where
  pub value : List ℕ
  pub had_errors : Bool

abbrev pub IsByte : ℕ → Type 0
IsByte b = b < 256

-- `result.add(b)` before the rest of the loop, and `hadErrors = true`.
abbrev pub add : ℕ → EncodingResult → EncodingResult
add b r = record r { value = b ∷ r.value }

abbrev pub flag : EncodingResult → EncodingResult
flag r = record r { had_errors = true }

-- `table[d]` for a `const char table[]`; no caller indexes past the end.
abbrev pub at : List ℕ → ℕ → ℕ
at table d = Option.get_or (get_elem? table d) 0

abbrev pub hex_digits : List ℕ
hex_digits = codes "0123456789abcdef"

abbrev pub hex_digits_uri : List ℕ
hex_digits_uri = codes "0123456789ABCDEF"

unfoldable pub try_from_hex_digit : ℕ → Option ℕ
try_from_hex_digit c =
    if leb b'0' c && leb c b'9'
    then some (c - b'0')
    else if leb b'a' c && leb c b'f'
    then some (c - (b'a' - 10))
    else if leb b'A' c && leb c b'F'
    then some (c - (b'A' - 10))
    else none

unfoldable pub try_from_oct_digit : ℕ → Option ℕ
try_from_oct_digit c = if leb b'0' c && leb c b'7' then some (c - b'0') else none
