-- ===== src/Build/Copy/Bytes.antt =====
-- Bytes of words that are stored.
use capnp_import.Common.{
  ℕ, zero, suc, ◌+◌, ◌-◌, ◌*◌, ◌^◌, ◌≤◌, ◌<◌, ◌≡◌, ◌⊎◌, true, false, ◌==◌, ltb, if◌then◌else◌, refl,
  sym, ap, ◌∙◌, arith, Bool-cases, inl, inr,
}
use capnp_import.Serialize.{Word}
use capnp_import.Wire.Read.Bytes.{byte_of}
use capnp_import.Build.Copy.{half_byte, pick_byte, put_byte, set_byte}

abbrev joined : ℕ → ℕ → ℕ → ℕ → ℕ
joined b0 b1 b2 b3 = b0 + 2 ^ 8 * b1 + 2 ^ 16 * b2 + 2 ^ 24 * b3

half_byte-joined :
    (b0 b1 b2 b3 : ℕ)
    → b0 < 2 ^ 8
    → b1 < 2 ^ 8
    → b2 < 2 ^ 8
    → b3 < 2 ^ 8
    → (half_byte (joined b0 b1 b2 b3) 0 ≡ b0)
      × (half_byte (joined b0 b1 b2 b3) 1 ≡ b1)
      × (half_byte (joined b0 b1 b2 b3) 2 ≡ b2)
      × (half_byte (joined b0 b1 b2 b3) 3 ≡ b3)
half_byte-joined b0 b1 b2 b3 h0 h1 h2 h3 = (omega arith, omega arith, omega arith, omega arith)

pick_byte-lt : (i b half k : ℕ) → b < 2 ^ 8 → pick_byte i b half k < 2 ^ 8
pick_byte-lt i b half k h = elim (Bool-cases (k == i)) [
  | inl e ↦ rw e h
  | inr e ↦ let below : half_byte half k < 2 ^ 8 = omega arith in rw e below
]

half_byte-put_byte :
    (i b half k : ℕ) → b < 2 ^ 8 → k < 4 → half_byte (put_byte i b half) k ≡ pick_byte i b half k
half_byte-put_byte i b half k h few = go k few
  where
    bytes :
        (half_byte (put_byte i b half) 0 ≡ pick_byte i b half 0)
        × (half_byte (put_byte i b half) 1 ≡ pick_byte i b half 1)
        × (half_byte (put_byte i b half) 2 ≡ pick_byte i b half 2)
        × (half_byte (put_byte i b half) 3 ≡ pick_byte i b half 3)
    bytes =
        half_byte-joined (pick_byte i b half 0) (pick_byte i b half 1) (pick_byte i b half 2)
          (pick_byte i b half 3) (pick_byte-lt i b half 0 h) (pick_byte-lt i b half 1 h)
          (pick_byte-lt i b half 2 h) (pick_byte-lt i b half 3 h)

    go : (k : ℕ) → k < 4 → half_byte (put_byte i b half) k ≡ pick_byte i b half k
    go zero few = bytes.0
    go (suc zero) few = bytes.1
    go (suc (suc zero)) few = bytes.2
    go (suc (suc (suc zero))) few = bytes.3
    go (suc (suc (suc (suc k)))) few = absurd (omega arith)

-- The byte that is stored, and the others.
pub byte_of-set_byte :
    (i b j : ℕ) (w : Word)
    → i < 8
    → j < 8
    → b < 2 ^ 8
    → byte_of (set_byte i b w) j ≡ (if j == i then b else byte_of w j)
byte_of-set_byte i b j w i_few j_few h = go (Bool-cases (ltb i 4)) (Bool-cases (ltb j 4))
  where
    same_byte : 4 ≤ i → 4 ≤ j → (j == i ≡ true) ⊎ (j == i ≡ false) → (j - 4 == i - 4) ≡ (j == i)
    same_byte hi hj (inl e) = let f : (j - 4 == i - 4) ≡ true = ground (arith, e) in f ∙ sym e
    same_byte hi hj (inr e) = let f : (j - 4 == i - 4) ≡ false = ground (arith, e) in f ∙ sym e

    go :
        (ltb i 4 ≡ true) ⊎ (ltb i 4 ≡ false)
        → (ltb j 4 ≡ true) ⊎ (ltb j 4 ≡ false)
        → byte_of (set_byte i b w) j ≡ (if j == i then b else byte_of w j)
    go (inl low_i) (inl low_j) =
        rw (low_i, low_j) (half_byte-put_byte i b w.low j h (ground (arith, low_j)))
    go (inl low_i) (inr high_j) =
        let other : (j == i) ≡ false = ground (arith, low_i, high_j) in
        rw (low_i, high_j, other) refl
    go (inr high_i) (inl low_j) =
        let other : (j == i) ≡ false = ground (arith, high_i, low_j) in
        rw (high_i, low_j, other) refl
    go (inr high_i) (inr high_j) =
        let four_i : 4 ≤ i = ground (arith, high_i) in
        let four_j : 4 ≤ j = ground (arith, high_j) in
        let same : (j - 4 == i - 4) ≡ (j == i) = same_byte four_i four_j (Bool-cases (j == i)) in
        rw (high_i, high_j)
          (half_byte-put_byte (i - 4) b w.high (j - 4) h (omega arith)
            ∙ ap (λ t. if t then b else half_byte w.high (j - 4)) same)
