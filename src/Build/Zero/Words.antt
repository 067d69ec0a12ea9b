-- ===== src/Build/Zero/Words.antt =====
-- Words of segments that are overwritten with zeros.
use capnp_import.Common.{
  ℕ, zero, suc, ◌-◌, ◌≡◌, List, [], ◌∷◌, length, get_elem?, drop, replicate, All, ◌==◌, Option,
  some, refl, sym, ap, ◌∙◌, subst, arith, Bool-cases, inl, inr, ==-eq-false, ◌&&◌, if◌then◌else◌,
}
use mathlib.Core.Option.{none-ne-some}
use capnp_import.Serialize.{Word}
use capnp_import.Build.{zero_word, SegmentBuilder, and_then}
use capnp_import.Build.Segments.{IsSegment}
use capnp_import.Build.Memory.{modify_at}
use capnp_import.Build.Memory.Laws.{
  get_elem?-modify_at, get_elem?-modify_at_other, length-modify_at,
}

modify_at-replicate : (i n : ℕ) (x : Word) → modify_at i (λ _. x) (replicate n x) ≡ replicate n x
modify_at-replicate i zero x = refl
modify_at-replicate zero (suc n) x = refl
modify_at-replicate (suc i) (suc n) x = ap (x ∷◌) (modify_at-replicate i n x)

-- Words that are free stay zero.
drop-zeroed :
    (n i k : ℕ) (words : List Word)
    → drop n words ≡ replicate k zero_word
    → drop n (modify_at i (λ _. zero_word) words) ≡ replicate k zero_word
drop-zeroed zero i k words h =
    ap (modify_at i (λ _. zero_word)) h ∙ modify_at-replicate i k zero_word
drop-zeroed (suc n) i k [] h = h
drop-zeroed (suc n) zero k (w ∷ words) h = h
drop-zeroed (suc n) (suc i) k (w ∷ words) h = drop-zeroed n i k words h

abbrev zeroed : ℕ → ℕ → List SegmentBuilder → List SegmentBuilder
zeroed id pos segments =
    modify_at id (λ s. record s { words = modify_at pos (λ _. zero_word) s.words }) segments

pub zeroed-IsSegment :
    (id pos : ℕ) (segments : List SegmentBuilder)
    → All IsSegment segments
    → All IsSegment (zeroed id pos segments)
zeroed-IsSegment id pos [] valid = valid
zeroed-IsSegment zero pos (s ∷ segments) ((within, small, zeros), valid) =
    let len = length-modify_at pos (λ _. zero_word) s.words in
    (
      (
        omega arith,
        omega arith,
        drop-zeroed s.pos pos (length s.words - s.pos) s.words zeros
            ∙ ap (λ n. replicate (n - s.pos) zero_word) (sym len),
      ),
      valid,
    )
zeroed-IsSegment (suc id) pos (s ∷ segments) (v, valid) =
    (v, zeroed-IsSegment id pos segments valid)

abbrev word_in : List SegmentBuilder → ℕ → ℕ → Option Word
word_in segments i p = and_then (get_elem? segments i) λ s. get_elem? s.words p

pub word_in-zeroed :
    (id pos i p : ℕ) (segments : List SegmentBuilder) (w : Word)
    → word_in segments i p ≡ some w
    → word_in (zeroed id pos segments) i p ≡ some (if i == id && p == pos then zero_word else w)
word_in-zeroed id pos i p [] w h = absurd (none-ne-some w h)
word_in-zeroed zero pos zero p (s ∷ segments) w h = elim (Bool-cases (p == pos)) [
  | inl same ↦
      let e : pos ≡ p = ground (arith, same) in
      rw same (
        subst (λ q. get_elem? (modify_at q (λ _. zero_word) s.words) p ≡ some zero_word) (sym e)
          (get_elem?-modify_at p (λ _. zero_word) w s.words h))
  | inr other ↦
      rw other (
        get_elem?-modify_at_other p pos (λ _. zero_word) s.words (λ e. ground (arith, other, e))
        ∙ h)
]
word_in-zeroed (suc id) pos zero p (s ∷ segments) w h =
    rw (==-eq-false 0 (suc id) (λ e. omega arith)) h
word_in-zeroed zero pos (suc i) p (s ∷ segments) w h =
    rw (==-eq-false (suc i) 0 (λ e. omega arith)) h
word_in-zeroed (suc id) pos (suc i) p (s ∷ segments) w h =
    let same : (suc i == suc id) ≡ (i == id) = ground arith in
    rw same (word_in-zeroed id pos i p segments w h)
