-- ===== src/Encoding/Digits.antt =====
-- Facts about the digits of capnproto/c++/src/kj/encoding.c++ that several codecs use.
use capnp_import.Common.{ℕ, ◌+◌, ◌<◌, ◌≡◌, Bool, true, false, Option, some, none}
use capnp_import.Common.{◌==◌, leb, arith, refl, all_below, all_below_sound, if◌then◌else◌, ◌&&◌}
use capnp_import.Encoding.{at, hex_digits, hex_digits_uri, try_from_hex_digit, try_from_oct_digit}

is_some : Option ℕ → ℕ → Bool
is_some none d = false
is_some (some c) d = c == d

is_some-eq : (o : Option ℕ) (d : ℕ) → is_some o d ≡ true → o ≡ some d
unfolding is_some
is_some-eq o d h = ground arith

pub try_from_hex_digit-hex_digits : (d : ℕ) → d < 16 → try_from_hex_digit (at hex_digits d) ≡ some d
unfolding all_below try_from_hex_digit is_some
try_from_hex_digit-hex_digits d h =
    is_some-eq _ d
      (all_below_sound 16 (λ i. is_some (try_from_hex_digit (at hex_digits i)) i) d refl h)

pub try_from_hex_digit-hex_digits_uri :
    (d : ℕ) → d < 16 → try_from_hex_digit (at hex_digits_uri d) ≡ some d
unfolding all_below try_from_hex_digit is_some
try_from_hex_digit-hex_digits_uri d h =
    is_some-eq _ d
      (all_below_sound 16 (λ i. is_some (try_from_hex_digit (at hex_digits_uri i)) i) d refl h)

pub try_from_oct_digit-hex_digits : (d : ℕ) → d < 8 → try_from_oct_digit (at hex_digits d) ≡ some d
unfolding all_below try_from_oct_digit is_some
try_from_oct_digit-hex_digits d h =
    is_some-eq _ d
      (all_below_sound 8 (λ i. is_some (try_from_oct_digit (at hex_digits i)) i) d refl h)

pub try_from_hex_digit-lt : (c d : ℕ) → try_from_hex_digit c ≡ some d → d < 16
unfolding try_from_hex_digit
try_from_hex_digit-lt c d h = ground arith

pub try_from_oct_digit-lt : (c d : ℕ) → try_from_oct_digit c ≡ some d → d < 8
unfolding try_from_oct_digit
try_from_oct_digit-lt c d h = ground arith

-- A letter A to F in lower case; any other character unchanged.
abbrev pub lower : ℕ → ℕ
lower c = if leb b'A' c && leb c b'F' then c + 32 else c

digit_matches : ℕ → Option ℕ → Bool
digit_matches c none = true
digit_matches c (some d) = at hex_digits d == lower c

pub hex_digits-of_digit : (c d : ℕ) → try_from_hex_digit c ≡ some d → at hex_digits d ≡ lower c
unfolding try_from_hex_digit all_below digit_matches
hex_digits-of_digit c d h =
    let below : c < 128 = ground arith in
    ground
      (arith, h, all_below_sound 128 (λ i. digit_matches i (try_from_hex_digit i)) c refl below)
