-- ===== src/Common/Bits.antt =====
-- Masks and disjoint unions of bit fields as arithmetic, for every width.
use Prim.Native.Nat.{ℕ, zero, suc, ◌+◌, ◌-◌, ◌*◌, ◌/◌, ◌%◌, ◌^◌, ◌≤◌, ◌<◌, min, max}
use Prim.Native.Nat.{bit_and, bit_or, bitwise, digits, bit_and-bitwise, bit_or-bitwise}
use mathlib.Core.Path.{◌≡◌, refl, ap}
use native.Mathlib.Nat.{pow-suc, one-le-pow}
use native.Mathlib.Omega.{arith}

module _ (rest : ℕ → ℕ) (bit : ℕ → ℕ → ℕ) where
  -- The recursion on digits does not depend on its fuel once that covers the number.
  more_fuel : (n m a b : ℕ) → a ≤ n → a ≤ m → digits rest bit n a b ≡ digits rest bit m a b
  more_fuel zero zero a b p q = refl
  more_fuel (suc n) zero zero b p q = refl
  more_fuel zero (suc m) zero b p q = refl
  more_fuel (suc n) (suc m) zero b p q = refl
  more_fuel (suc n) zero (suc a) b p q = absurd (omega arith)
  more_fuel zero (suc m) (suc a) b p q = absurd (omega arith)
  more_fuel (suc n) (suc m) (suc a) b p q =
      let deeper = more_fuel n m (suc a / 2) (b / 2) (omega arith) (omega arith) in
      ap (λ (t : ℕ). t * 2 + bit (suc a % 2) (b % 2)) deeper

  low_digit :
      (a b : ℕ)
      → bitwise rest bit (suc a) b
        ≡ bitwise rest bit (suc a / 2) (b / 2) * 2 + bit (suc a % 2) (b % 2)
  low_digit a b =
      let deeper = more_fuel a (suc a / 2) (suc a / 2) (b / 2) (omega arith) (omega arith) in
      ap (λ (t : ℕ). t * 2 + bit (suc a % 2) (b % 2)) deeper

and_digit : (a b : ℕ) → bit_and a b ≡ bit_and (a / 2) (b / 2) * 2 + min (a % 2) (b % 2)
and_digit zero b = simp bit_and-bitwise (omega arith)
and_digit (suc a) b = simp bit_and-bitwise (low_digit (λ y. 0) min a b)

or_digit : (a b : ℕ) → bit_or a b ≡ bit_or (a / 2) (b / 2) * 2 + max (a % 2) (b % 2)
or_digit zero b = simp bit_or-bitwise (omega arith)
or_digit (suc a) b = simp bit_or-bitwise (low_digit (λ y. y) max a b)

and-zero_fuel : (n a : ℕ) → a ≤ n → bit_and a 0 ≡ 0
and-zero_fuel zero zero h = refl
and-zero_fuel zero (suc a) h = absurd (omega arith)
and-zero_fuel (suc n) zero h = refl
and-zero_fuel (suc n) (suc a) h =
    omega (arith, and_digit (suc a) 0, and-zero_fuel n (suc a / 2) (omega arith))

or-zero_fuel : (n a : ℕ) → a ≤ n → bit_or a 0 ≡ a
or-zero_fuel zero zero h = refl
or-zero_fuel zero (suc a) h = absurd (omega arith)
or-zero_fuel (suc n) zero h = refl
or-zero_fuel (suc n) (suc a) h =
    omega (arith, or_digit (suc a) 0, or-zero_fuel n (suc a / 2) (omega arith))

double : (m k : ℕ) → m * 2 ^ suc k ≡ 2 * (m * 2 ^ k)
double m k = omega (arith, ap (λ (t : ℕ). m * t) (pow-suc 2 k))

low_of_fields : (k q r : ℕ) → r < 2 ^ k → bit_and (q * 2 ^ k + r) (2 ^ k - 1) ≡ r
low_of_fields zero q r h = omega (arith, and-zero_fuel (q * 2 ^ 0 + r) (q * 2 ^ 0 + r))
low_of_fields (suc k) q r h = ground (
  arith,
  and_digit (q * 2 ^ suc k + r) (2 ^ suc k - 1),
  double q k,
  pow-suc 2 k,
  low_of_fields k q (r / 2) (omega (arith, pow-suc 2 k)),
)

-- `a & (2^k - 1)`.
pub bit_and_low : (k a : ℕ) → bit_and a (2 ^ k - 1) ≡ a % 2 ^ k
bit_and_low k a = ground (arith, one-le-pow k 2, low_of_fields k (a / 2 ^ k) (a % 2 ^ k))

high_of_fields :
    (k q r m : ℕ) → r < 2 ^ k → bit_and (q * 2 ^ k + r) (m * 2 ^ k) ≡ bit_and q m * 2 ^ k
high_of_fields zero q r m h = ground arith
high_of_fields (suc k) q r m h = ground (
  arith,
  and_digit (q * 2 ^ suc k + r) (m * 2 ^ suc k),
  double q k,
  double m k,
  double (bit_and q m) k,
  high_of_fields k q (r / 2) m (omega (arith, pow-suc 2 k)),
)

-- `a & (m << k)`: a mask whose `k` lowest bits are clear.
pub bit_and_high : (k m a : ℕ) → bit_and a (m * 2 ^ k) ≡ bit_and (a / 2 ^ k) m * 2 ^ k
bit_and_high k m a = ground (arith, one-le-pow k 2, high_of_fields k (a / 2 ^ k) (a % 2 ^ k) m)

-- `(q << k) | r` is a sum where `r` fits in `k` bits.
pub bit_or_disjoint : (k q r : ℕ) → r < 2 ^ k → bit_or (q * 2 ^ k) r ≡ q * 2 ^ k + r
bit_or_disjoint zero q r h = ground (arith, or-zero_fuel q q)
bit_or_disjoint (suc k) q r h = ground (
  arith,
  or_digit (q * 2 ^ suc k) r,
  double q k,
  bit_or_disjoint k q (r / 2) (omega (arith, pow-suc 2 k)),
)
