-- ===== src/Encoding/Base64/Decode.antt =====
-- What the base64 decoder does with the characters of the encoder.
use capnp_import.Common.{
  ℕ, ◌*◌, ◌/◌, ◌%◌, ◌^◌, ◌<◌, ◌≡◌, List, [], ◌∷◌, ◌++◌, Bool, true, false, bit_and, arith, refl,
  if◌then◌else◌, all_below, all_below_sound, ◌==◌,
}
use capnp_import.Common.Bits.{bit_and_low, bit_and_high, bit_or_disjoint}
use capnp_import.Common.{ap}
use capnp_import.Encoding.{IsByte}
use capnp_import.Encoding.Utf.{char}
use capnp_import.Encoding.Base64.{
  step_a, step_b, step_c, step_d, Fragment, value, Decoded, emit, merge, base64_encode_value,
  base64_decode_value, base64_decode_block,
}
use capnp_import.Encoding.Base64.Encode.{fragment1, fragment2, fragment3, fragment4}

has_value : Fragment → ℕ → Bool
has_value (value v) w = v == w
has_value _ w = false

has_value-eq : (f : Fragment) (w : ℕ) → has_value f w ≡ true → f ≡ value w
unfolding has_value
has_value-eq f w h = ground arith

pub decode_value-encode_value :
    (v : ℕ) → v < 64 → base64_decode_value (base64_encode_value v) ≡ value v
unfolding all_below has_value base64_decode_value base64_encode_value
decode_value-encode_value v h =
    has_value-eq _ v
      (all_below_sound 64 (λ i. has_value (base64_decode_value (base64_encode_value i)) i) v refl h)

-- One character with the value `v`, at each step.
module _ (p v c : ℕ) (code : List ℕ) (e : base64_decode_value c ≡ value v) where
  at_step_a :
      base64_decode_block step_a false 0 p (c ∷ code)
      ≡ base64_decode_block step_b false 0 (char (bit_and v 0x03f * 2 ^ 2)) code
  unfolding base64_decode_block
  at_step_a = rw (e, base64_decode_block)

  at_step_b :
      base64_decode_block step_b false 0 p (c ∷ code)
      ≡ emit
          (merge p (bit_and v 0x030 / 2 ^ 4))
          (base64_decode_block step_c false 0 (char (bit_and v 0x00f * 2 ^ 4)) code)
  unfolding base64_decode_block
  at_step_b = rw (e, base64_decode_block)

  at_step_c :
      base64_decode_block step_c false 0 p (c ∷ code)
      ≡ emit
          (merge p (bit_and v 0x03c / 2 ^ 2))
          (base64_decode_block step_d false 0 (char (bit_and v 0x003 * 2 ^ 6)) code)
  unfolding base64_decode_block
  at_step_c = rw (e, base64_decode_block)

  at_step_d :
      base64_decode_block step_d false 0 p (c ∷ code)
      ≡ emit (merge p (bit_and v 0x03f)) (base64_decode_block step_a false 0 0 code)
  unfolding base64_decode_block
  at_step_d = rw (e, base64_decode_block)

-- The bytes that the fragments are merged to.
abbrev pending1 : ℕ → ℕ
pending1 v = char (bit_and v 0x03f * 2 ^ 2)

abbrev pending2 : ℕ → ℕ
pending2 v = char (bit_and v 0x00f * 2 ^ 4)

abbrev pending3 : ℕ → ℕ
pending3 v = char (bit_and v 0x003 * 2 ^ 6)

merge1 :
    (x v : ℕ)
    → IsByte x
    → v / 16 ≡ x % 4
    → merge (pending1 (fragment1 x)) (bit_and v 0x030 / 2 ^ 4) ≡ x
merge1 x v h k = ground (
  arith,
  bit_and_low 6 (fragment1 x),
  bit_and_high 4 3 v,
  bit_and_low 2 (v / 16),
  bit_or_disjoint 2 (x / 4) (x % 4) (omega arith),
)

merge2 :
    (u v y : ℕ)
    → IsByte y
    → u % 16 ≡ y / 16
    → v / 4 ≡ y % 16
    → merge (pending2 u) (bit_and v 0x03c / 2 ^ 2) ≡ y
merge2 u v y h j k = ground (
  arith,
  bit_and_low 4 u,
  bit_and_high 2 15 v,
  bit_and_low 4 (v / 4),
  bit_or_disjoint 4 (y / 16) (y % 16) (omega arith),
)

merge3 :
    (u z : ℕ) → IsByte z → u % 4 ≡ z / 64 → merge (pending3 u) (bit_and (fragment4 z) 0x03f) ≡ z
merge3 u z h k = ground (
  arith,
  bit_and_low 2 u,
  bit_and_low 6 (fragment4 z),
  bit_or_disjoint 6 (z / 64) (z % 64) (omega arith),
)

abbrev ev : ℕ → ℕ
ev = base64_encode_value

-- The characters of three bytes are decoded to them.
pub decode_four :
    (p x y z : ℕ) (code : List ℕ)
    → IsByte x
    → IsByte y
    → IsByte z
    → base64_decode_block step_a false 0 p
        (ev (fragment1 x) ∷ ev (fragment2 x y) ∷ ev (fragment3 y z) ∷ ev (fragment4 z) ∷ code)
      ≡ emit x (emit y (emit z (base64_decode_block step_a false 0 0 code)))
decode_four p x y z code hx hy hz =
    rw (at_step_a p _ _ _ (decode_value-encode_value (fragment1 x) (omega arith))) (
      rw (at_step_b _ _ _ _ (decode_value-encode_value (fragment2 x y) (omega arith))) (
        rw (at_step_c _ _ _ _ (decode_value-encode_value (fragment3 y z) (omega arith))) (
          rw (at_step_d _ _ _ code (decode_value-encode_value (fragment4 z) (omega arith))) (
            rw
              (
                merge1 x (fragment2 x y) hx (omega arith),
                merge2 (fragment2 x y) (fragment3 y z) y hy (omega arith) (omega arith),
                merge3 (fragment3 y z) z hz (omega arith),
              )
              refl))))

-- A result with the plain bytes `bytes` and no error.
abbrev pub IsClean : Decoded → List ℕ → Type 0
IsClean r bytes = (r.plain ≡ bytes) × (r.state.had_errors ≡ false)

-- The line break that may end the code.
abbrev pub line_break : Bool → List ℕ
line_break b = if b then 10 ∷ [] else []

pub decode_line_break :
    (b : Bool) (p : ℕ) → IsClean (base64_decode_block step_a false 0 p (line_break b)) []
unfolding base64_decode_block base64_decode_value
decode_line_break true p = (refl, refl)
decode_line_break false p = (refl, refl)

pub skip_line_break :
    (b : Bool) (code rest : List ℕ)
    → base64_decode_block step_a false 0 0 ((line_break b ++ code) ++ rest)
      ≡ base64_decode_block step_a false 0 0 (code ++ rest)
unfolding base64_decode_block base64_decode_value
skip_line_break true code rest = refl
skip_line_break false code rest = refl

two_pads :
    (b : Bool) (p : ℕ)
    → IsClean (base64_decode_block step_c false 0 p (b'=' ∷ b'=' ∷ line_break b)) []
unfolding base64_decode_block base64_decode_value
two_pads true p = (refl, refl)
two_pads false p = (refl, refl)

one_pad :
    (b : Bool) (p : ℕ) → IsClean (base64_decode_block step_d false 0 p (b'=' ∷ line_break b)) []
unfolding base64_decode_block base64_decode_value
one_pad true p = (refl, refl)
one_pad false p = (refl, refl)

-- The padded characters of one byte and of two.
pub decode_two :
    (p x : ℕ) (b : Bool)
    → IsByte x
    → IsClean
        (base64_decode_block step_a false 0 p
          (ev (fragment1 x) ∷ ev (x % 4 * 16) ∷ b'=' ∷ b'=' ∷ line_break b))
        (x ∷ [])
decode_two p x b hx =
    rw (at_step_a p _ _ _ (decode_value-encode_value (fragment1 x) (omega arith))) (
      rw (at_step_b _ _ _ _ (decode_value-encode_value (x % 4 * 16) (omega arith))) (
        rw (merge1 x (x % 4 * 16) hx (omega arith))
          (let (e, clean) = two_pads b (pending2 (x % 4 * 16)) in (ap (λ t. x ∷ t) e, clean))))

pub decode_three :
    (p x y : ℕ) (b : Bool)
    → IsByte x
    → IsByte y
    → IsClean
        (base64_decode_block step_a false 0 p
          (ev (fragment1 x) ∷ ev (fragment2 x y) ∷ ev (y % 16 * 4) ∷ b'=' ∷ line_break b))
        (x ∷ y ∷ [])
decode_three p x y b hx hy =
    rw (at_step_a p _ _ _ (decode_value-encode_value (fragment1 x) (omega arith))) (
      rw (at_step_b _ _ _ _ (decode_value-encode_value (fragment2 x y) (omega arith))) (
        rw (at_step_c _ _ _ _ (decode_value-encode_value (y % 16 * 4) (omega arith))) (
          rw
            (
              merge1 x (fragment2 x y) hx (omega arith),
              merge2 (fragment2 x y) (y % 16 * 4) y hy (omega arith) (omega arith),
            )
            (let (e, clean) = one_pad b (pending3 (y % 16 * 4)) in
              (ap (λ t. x ∷ y ∷ t) e, clean)))))
