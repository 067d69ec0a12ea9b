-- ===== src/Packed/Format/Tags.antt =====
-- The tag of a word tells which of its bytes are not zero.
use capnp_import.Common.{
  ℕ, suc, ◌+◌, ◌^◌, ◌<◌, ◌==◌, if◌then◌else◌, ◌≡◌, List, [], ◌∷◌, Bool, true, false, not, ◌&&◌, ltb,
  refl, arith,
}
use capnp_import.Common.{All, sym, ◌∙◌}
use capnp_import.Packed.Format.{squeeze, format_tag}
use capnp_import.Packed.{Word, bytes_of, tag_of, tag_of_bits, has_bit, is_nonzero}

both : (Bool → Bool) → Bool
both f = f true && f false

both_sound : (f : Bool → Bool) (b : Bool) → both f ≡ true → f b ≡ true
unfolding both
both_sound f true h = ground arith
both_sound f false h = ground arith

same : Bool → Bool → Bool
same true b = b
same false b = not b

same-eq : (a b : Bool) → same a b ≡ true → a ≡ b
unfolding same
same-eq true b h = ground arith
same-eq false b h = ground arith

-- All eight bits, and the range, for one choice of the bits.
checked : Bool → Bool → Bool → Bool → Bool → Bool → Bool → Bool → Bool
checked b0 b1 b2 b3 b4 b5 b6 b7 =
    let t = tag_of_bits b0 b1 b2 b3 b4 b5 b6 b7 in
    same (has_bit t 0) b0
    && same (has_bit t 1) b1
    && same (has_bit t 2) b2
    && same (has_bit t 3) b3
    && same (has_bit t 4) b4
    && same (has_bit t 5) b5
    && same (has_bit t 6) b6
    && same (has_bit t 7) b7
    && ltb t 256

all_checked :
    both (λ b0. both (λ b1. both (λ b2.
      both (λ b3.
        both (λ b4. both (λ b5. both (λ b6. both (λ b7. checked b0 b1 b2 b3 b4 b5 b6 b7))))))))
    ≡ true
unfolding both checked same
all_checked = refl

checked_all : (b0 b1 b2 b3 b4 b5 b6 b7 : Bool) → checked b0 b1 b2 b3 b4 b5 b6 b7 ≡ true
checked_all b0 b1 b2 b3 b4 b5 b6 b7 = both_sound _ b7 (
    both_sound _ b6 (
      both_sound _ b5 (
        both_sound _ b4
          (both_sound _ b3 (both_sound _ b2 (both_sound _ b1 (both_sound _ b0 all_checked)))))))

-- The sum of the weights of the bits that are set.
summed : Bool → Bool → Bool → Bool → Bool → Bool → Bool → Bool → ℕ
summed b0 b1 b2 b3 b4 b5 b6 b7 =
    (if b0 then 2 ^ 0 else 0)
    + ((if b1 then 2 ^ 1 else 0)
        + ((if b2 then 2 ^ 2 else 0)
            + ((if b3 then 2 ^ 3 else 0)
                + ((if b4 then 2 ^ 4 else 0)
                    + ((if b5 then 2 ^ 5 else 0)
                        + ((if b6 then 2 ^ 6 else 0) + ((if b7 then 2 ^ 7 else 0) + 0)))))))

is_summed : Bool → Bool → Bool → Bool → Bool → Bool → Bool → Bool → Bool
is_summed b0 b1 b2 b3 b4 b5 b6 b7 =
    tag_of_bits b0 b1 b2 b3 b4 b5 b6 b7 == summed b0 b1 b2 b3 b4 b5 b6 b7

all_summed :
    both (λ b0. both (λ b1. both (λ b2. both (λ b3.
      both (λ b4. both (λ b5. both (λ b6. both (λ b7. is_summed b0 b1 b2 b3 b4 b5 b6 b7))))))))
    ≡ true
unfolding both is_summed summed
all_summed = refl

summed_all : (b0 b1 b2 b3 b4 b5 b6 b7 : Bool) → is_summed b0 b1 b2 b3 b4 b5 b6 b7 ≡ true
summed_all b0 b1 b2 b3 b4 b5 b6 b7 = both_sound _ b7 (
    both_sound _ b6 (
      both_sound _ b5 (
        both_sound _ b4
          (both_sound _ b3 (both_sound _ b2 (both_sound _ b1 (both_sound _ b0 all_summed)))))))

eq-of-test : (a b : ℕ) → (a == b) ≡ true → a ≡ b
eq-of-test a b h = ground arith

if-not : (b : Bool) (n : ℕ) → (if not b then n else 0) ≡ (if b then 0 else n)
if-not true n = refl
if-not false n = refl

summed-format_tag :
    (w : Word)
    → summed
        (is_nonzero w.b0)
        (is_nonzero w.b1)
        (is_nonzero w.b2)
        (is_nonzero w.b3)
        (is_nonzero w.b4)
        (is_nonzero w.b5)
        (is_nonzero w.b6)
        (is_nonzero w.b7)
      ≡ format_tag w
unfolding summed format_tag
summed-format_tag w =
    rw
      (
        if-not (w.b0 == 0) (2 ^ 0),
        if-not (w.b1 == 0) (2 ^ 1),
        if-not (w.b2 == 0) (2 ^ 2),
        if-not (w.b3 == 0) (2 ^ 3),
        if-not (w.b4 == 0) (2 ^ 4),
        if-not (w.b5 == 0) (2 ^ 5),
        if-not (w.b6 == 0) (2 ^ 6),
        if-not (w.b7 == 0) (2 ^ 7),
      )
      refl

-- The writer computes the tag that the format asks for.
pub tag_of-format_tag : (w : Word) → tag_of w ≡ format_tag w
unfolding tag_of is_summed
tag_of-format_tag w =
    eq-of-test _ _ (
      summed_all (is_nonzero w.b0) (is_nonzero w.b1) (is_nonzero w.b2) (is_nonzero w.b3)
        (is_nonzero w.b4) (is_nonzero w.b5) (is_nonzero w.b6) (is_nonzero w.b7))
    ∙ summed-format_tag w

-- The bits of `tag` from the `i`th on tell which of the bytes are not zero.
abbrev pub Fits : ℕ → ℕ → List ℕ → Type 0
Fits tag i [] = Unit
Fits tag i (b ∷ bytes) = (has_bit tag i ≡ is_nonzero b) × Fits tag (suc i) bytes

nine :
    (x0 x1 x2 x3 x4 x5 x6 x7 x8 : Bool)
    → (x0 && x1 && x2 && x3 && x4 && x5 && x6 && x7 && x8) ≡ true
    → (x0 ≡ true)
      × (x1 ≡ true)
      × (x2 ≡ true)
      × (x3 ≡ true)
      × (x4 ≡ true)
      × (x5 ≡ true)
      × (x6 ≡ true)
      × (x7 ≡ true)
      × (x8 ≡ true)
nine x0 x1 x2 x3 x4 x5 x6 x7 x8 h = ground arith

pub Fits-tag_of : (w : Word) → Fits (tag_of w) 0 (bytes_of w) × (tag_of w < 256)
unfolding checked tag_of
Fits-tag_of w =
    let t = tag_of w in
    let (h0, h1, h2, h3, h4, h5, h6, h7, h8) = nine _ _ _ _ _ _ _ _ _ (
      checked_all (is_nonzero w.b0) (is_nonzero w.b1) (is_nonzero w.b2) (is_nonzero w.b3)
        (is_nonzero w.b4) (is_nonzero w.b5) (is_nonzero w.b6) (is_nonzero w.b7)) in
    (
      (
        same-eq _ _ h0,
        (
          same-eq _ _ h1,
          (
            same-eq _ _ h2,
            (
              same-eq _ _ h3,
              (same-eq _ _ h4, (same-eq _ _ h5, (same-eq _ _ h6, (same-eq _ _ h7, tt)))),
            ),
          ),
        ),
      ),
      ground (arith, h8),
    )

-- A word with the tag 0 is zero, and one with the tag 255 has no zero byte.
pub zero_tag :
    (w : Word)
    → tag_of w ≡ 0
    → w ≡ record { b0 = 0; b1 = 0; b2 = 0; b3 = 0; b4 = 0; b5 = 0; b6 = 0; b7 = 0 }
zero_tag w e = let (fits, small) = rw e at (Fits-tag_of w) in ground arith

squeeze-full : (bytes : List ℕ) → All (λ b. is_nonzero b ≡ true) bytes → squeeze bytes ≡ bytes
squeeze-full [] h = refl
squeeze-full (b ∷ bytes) (hb, h) = ground (arith, squeeze-full bytes h)

pub full_tag : (w : Word) → tag_of w ≡ 0xff → squeeze (bytes_of w) ≡ bytes_of w
full_tag w e =
    let ((h0, (h1, (h2, (h3, (h4, (h5, (h6, (h7, u)))))))), small) = rw e at (Fits-tag_of w) in
    squeeze-full (bytes_of w)
      (sym h0, (sym h1, (sym h2, (sym h3, (sym h4, (sym h5, (sym h6, (sym h7, tt))))))))
