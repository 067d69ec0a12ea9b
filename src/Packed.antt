-- ===== src/Packed.antt =====
-- What the parts of capnproto/c++/src/capnp/serialize-packed.c++ share: words, their tags, and
-- results that may be an exception.
pub mod Format
pub mod Write
pub mod Read
pub mod Size
pub mod Skip
use capnp_import.Common.{
  ℕ, ◌+◌, ◌*◌, ◌^◌, List, [], ◌∷◌, ◌++◌, Bool, true, false, not, ◌==◌, ltb, bit_and, bit_or,
  if◌then◌else◌, ◌&&◌, ◌≡◌,
}

-- The eight bytes of a word, in memory order.
pub record Word : Type 0 where
  pub b0 : ℕ
  pub b1 : ℕ
  pub b2 : ℕ
  pub b3 : ℕ
  pub b4 : ℕ
  pub b5 : ℕ
  pub b6 : ℕ
  pub b7 : ℕ

abbrev pub bytes_of : Word → List ℕ
bytes_of w = w.b0 ∷ w.b1 ∷ w.b2 ∷ w.b3 ∷ w.b4 ∷ w.b5 ∷ w.b6 ∷ w.b7 ∷ []

abbrev pub bytes_of_words : List Word → List ℕ
bytes_of_words [] = []
bytes_of_words (w ∷ words) = bytes_of w ++ bytes_of_words words

-- `premature_eof`, `bad_boundary` and `invalid_data` are the exceptions of the code. The other two
-- are no results of it: an access behind the end of a buffer, and fuel that ran out.
pub data Error : Type 0 where
  premature_eof bad_boundary invalid_data overrun out_of_fuel : Error

pub data Result {ℓ} (A : Type ℓ) : Type ℓ where
  ok : A → Result A
  err : Error → Result A

infixl 5 ◌>>=◌
abbrev pub ◌>>=◌ {ℓ κ} : {A : Type ℓ} {B : Type κ} → Result A → (A → Result B) → Result B
ok a >>= f = f a
err e >>= f = err e

-- `uint8_t bit##n = *in != 0;`
abbrev pub is_nonzero : ℕ → Bool
is_nonzero b = not (b == 0)

abbrev pub to_bit : Bool → ℕ
to_bit true = 1
to_bit false = 0

abbrev pub tag_of_bits : Bool → Bool → Bool → Bool → Bool → Bool → Bool → Bool → ℕ
tag_of_bits b0 b1 b2 b3 b4 b5 b6 b7 =
    bit_or
      (bit_or
        (bit_or
          (bit_or
            (bit_or (bit_or (bit_or (to_bit b0 * 2 ^ 0) (to_bit b1 * 2 ^ 1)) (to_bit b2 * 2 ^ 2))
              (to_bit b3 * 2 ^ 3))
            (to_bit b4 * 2 ^ 4))
          (to_bit b5 * 2 ^ 5))
        (to_bit b6 * 2 ^ 6))
      (to_bit b7 * 2 ^ 7)

-- The tag that `PackedOutputStream::write` computes for a word.
unfoldable pub tag_of : Word → ℕ
tag_of w =
    tag_of_bits (is_nonzero w.b0) (is_nonzero w.b1) (is_nonzero w.b2) (is_nonzero w.b3)
      (is_nonzero w.b4) (is_nonzero w.b5) (is_nonzero w.b6) (is_nonzero w.b7)

-- `tag & (1u << i)`
abbrev pub has_bit : ℕ → ℕ → Bool
has_bit tag i = not (bit_and tag (2 ^ i) == 0)
