-- ===== src/Encoding/Base64/Encode.antt =====
-- What the base64 encoder writes for one, two and three bytes, as arithmetic.
use capnp_import.Common.{
  ℕ, ◌+◌, ◌*◌, ◌/◌, ◌%◌, ◌^◌, ◌≡◌, List, [], ◌∷◌, Bool, bit_and, bit_or, arith, refl, if◌then◌else◌,
}
use capnp_import.Common.Bits.{bit_and_low, bit_and_high, bit_or_disjoint}
use capnp_import.Encoding.{IsByte}
use capnp_import.Encoding.Base64.{step_A, write, breaks, base64_encode_value, base64_encode_block}

-- The six-bit fragments of the bytes `x y z`.
abbrev pub fragment1 : ℕ → ℕ
fragment1 x = x / 4

abbrev pub fragment2 : ℕ → ℕ → ℕ
fragment2 x y = x % 4 * 16 + y / 16

abbrev pub fragment3 : ℕ → ℕ → ℕ
fragment3 y z = y % 16 * 4 + z / 64

abbrev pub fragment4 : ℕ → ℕ
fragment4 z = z % 64

pub fragment1-eq : (x : ℕ) → IsByte x → bit_and x 0x0fc / 2 ^ 2 ≡ fragment1 x
fragment1-eq x h = omega (arith, bit_and_high 2 63 x, bit_and_low 6 (x / 4))

pub carry1-eq : (x : ℕ) → bit_and x 0x003 * 2 ^ 4 ≡ x % 4 * 16
carry1-eq x = omega (arith, bit_and_low 2 x)

pub fragment2-eq :
    (x y : ℕ) → IsByte y → bit_or (x % 4 * 16) (bit_and y 0x0f0 / 2 ^ 4) ≡ fragment2 x y
fragment2-eq x y h =
    ground (arith, bit_and_high 4 15 y, bit_and_low 4 (y / 16), bit_or_disjoint 4 (x % 4) (y / 16))

pub carry2-eq : (y : ℕ) → bit_and y 0x00f * 2 ^ 2 ≡ y % 16 * 4
carry2-eq y = omega (arith, bit_and_low 4 y)

pub fragment3-eq :
    (y z : ℕ) → IsByte z → bit_or (y % 16 * 4) (bit_and z 0x0c0 / 2 ^ 6) ≡ fragment3 y z
fragment3-eq y z h =
    ground (arith, bit_and_high 6 3 z, bit_and_low 2 (z / 64), bit_or_disjoint 2 (y % 16) (z / 64))

pub fragment4-eq : (z : ℕ) → bit_and z 0x03f ≡ fragment4 z
fragment4-eq z = bit_and_low 6 z

-- Three bytes take the encoder from step A to step A.
pub encode_three :
    (br : Bool) (r n x y z : ℕ) (plain : List ℕ)
    → IsByte x
    → IsByte y
    → IsByte z
    → base64_encode_block br step_A r n (x ∷ y ∷ z ∷ plain)
      ≡ write
          (base64_encode_value (fragment1 x)
            ∷ base64_encode_value (fragment2 x y)
            ∷ base64_encode_value (fragment3 y z)
            ∷ base64_encode_value (fragment4 z)
            ∷ (if breaks br n then 10 ∷ [] else []))
          (base64_encode_block br step_A (fragment4 z) (if breaks br n then 0 else n + 1) plain)
unfolding base64_encode_block
encode_three br r n x y z plain hx hy hz =
    rw
      (
        fragment1-eq x hx,
        carry1-eq x,
        fragment2-eq x y hy,
        carry2-eq y,
        fragment3-eq y z hz,
        fragment4-eq z,
      )
      refl
