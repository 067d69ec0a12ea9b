-- ===== src/Encoding/Utf/Bytes.antt =====
-- The bit operations of the UTF-8 codecs as arithmetic.
use capnp_import.Common.{ℕ, ◌+◌, ◌*◌, ◌/◌, ◌%◌, ◌<◌, ◌≡◌, refl}
use capnp_import.Common.{true, ◌==◌, bit_and, bit_or, all_below, all_below_sound, arith}
use capnp_import.Common.Bits.{bit_and_low, bit_and_high}

==_eq : (a b : ℕ) → (a == b) ≡ true → a ≡ b
==_eq a b h = ground arith

-- The marks of the leading bytes and of a continuation byte.
pub mark_two : (x : ℕ) → x < 32 → bit_or x 0xc0 ≡ x + 192
unfolding all_below
mark_two x h = ==_eq _ _ (all_below_sound 32 (λ i. bit_or i 0xc0 == i + 192) x refl h)

pub mark_three : (x : ℕ) → x < 16 → bit_or x 0xe0 ≡ x + 224
unfolding all_below
mark_three x h = ==_eq _ _ (all_below_sound 16 (λ i. bit_or i 0xe0 == i + 224) x refl h)

pub mark_four : (x : ℕ) → x < 8 → bit_or x 0xf0 ≡ x + 240
unfolding all_below
mark_four x h = ==_eq _ _ (all_below_sound 8 (λ i. bit_or i 0xf0 == i + 240) x refl h)

pub mark_continuation : (x : ℕ) → x < 64 → bit_or x 0x80 ≡ x + 128
unfolding all_below
mark_continuation x h = ==_eq _ _ (all_below_sound 64 (λ i. bit_or i 0x80 == i + 128) x refl h)

pub top_two_bits : (c : ℕ) → c < 256 → bit_and c 0xc0 ≡ c / 64 * 64
unfolding all_below
top_two_bits c h = ==_eq _ _ (all_below_sound 256 (λ i. bit_and i 0xc0 == i / 64 * 64) c refl h)

pub low_six : (u : ℕ) → bit_and u 0x3f ≡ u % 64
low_six u = bit_and_low 6 u

pub low_ten : (u : ℕ) → bit_and u 0x03ff ≡ u % 1024
low_ten u = bit_and_low 10 u

-- The masks of the surrogates, at every number.
pub top_five : (u : ℕ) → bit_and u 0xf800 ≡ u / 2048 % 32 * 2048
top_five u = omega (arith, bit_and_high 11 31 u, bit_and_low 5 (u / 2048))

pub top_six : (u : ℕ) → bit_and u 0xfc00 ≡ u / 1024 % 64 * 1024
top_six u = omega (arith, bit_and_high 10 63 u, bit_and_low 6 (u / 1024))

pub bit_ten : (u : ℕ) → bit_and u 0x0400 ≡ u / 1024 % 2 * 1024
bit_ten u = omega (arith, bit_and_high 10 1 u, bit_and_low 1 (u / 1024))

pub top_21 : (u : ℕ) → bit_and u 0xfffff800 ≡ u / 2048 % 2097152 * 2048
top_21 u = omega (arith, bit_and_high 11 2097151 u, bit_and_low 21 (u / 2048))
