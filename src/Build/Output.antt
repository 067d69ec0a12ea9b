-- ===== src/Build/Output.antt =====
-- What the arena of a builder outputs, as a list of segments to which words are appended.
use capnp_import.Common.{
  ℕ, zero, suc, ◌+◌, ◌≤◌, ◌≡◌, List, [], ◌∷◌, ◌++◌, map, length, take, drop, replicate, get_elem?,
  some, refl, sym, ap, ◌∙◌, arith, inl, inr,
}
use mathlib.Core.Option.{some-injective, none-ne-some}
use capnp_import.Serialize.{Word, Segment}
use capnp_import.Build.{
  zero_word, max_segment_words, SegmentBuilder, BuilderArena, replace_at, allocate,
  get_segments_for_output,
}
use capnp_import.Build.Laws.{IsArena, IsAllocated, allocate-IsAllocated}

-- Words behind a segment, which is a new one if it is the first that is not there.
abbrev pub extend : ℕ → List Word → List Segment → List Segment
extend zero added [] = added ∷ []
extend (suc i) added [] = []
extend zero added (s ∷ message) = (s ++ added) ∷ message
extend (suc i) added (s ∷ message) = s ∷ extend i added message

take-nil : (n : ℕ) → take {A = Word} n [] ≡ []
take-nil zero = refl
take-nil (suc n) = refl

take-add : (m n : ℕ) (xs : List Word) → take (m + n) xs ≡ take m xs ++ take n (drop m xs)
take-add zero n xs = ap (λ k. take k xs) e
  where
    e : 0 + n ≡ n
    e = omega arith
take-add (suc m) n [] = take-nil (suc m + n) ∙ sym (take-nil n)
take-add (suc m) n (x ∷ xs) =
    let e : suc m + n ≡ suc (m + n) = omega arith in
    ap (λ k. take k (x ∷ xs)) e ∙ ap (x ∷◌) (take-add m n xs)

abbrev output : SegmentBuilder → Segment
output s = take s.pos s.words

map-replace_at :
    (id : ℕ) (added : List Word) (before s : SegmentBuilder) (segments : List SegmentBuilder)
    → get_elem? segments id ≡ some before
    → output s ≡ output before ++ added
    → map output (replace_at id s segments) ≡ extend id added (map output segments)
map-replace_at id added before s [] there e = absurd (none-ne-some before there)
map-replace_at zero added before s (x ∷ segments) there e =
    ap (λ o. o ∷ map output segments)
      (e ∙ ap (λ b. output b ++ added) (sym (some-injective x before there)))
map-replace_at (suc id) added before s (x ∷ segments) there e =
    ap (output x ∷◌) (map-replace_at id added before s segments there e)

map-end :
    (added : List Word) (s : SegmentBuilder) (segments : List SegmentBuilder)
    → output s ≡ added
    → map output (segments ++ (s ∷ [])) ≡ extend (length segments) added (map output segments)
map-end added s [] e = ap (λ o. o ∷ []) e
map-end added s (x ∷ segments) e = ap (output x ∷◌) (map-end added s segments e)

output-added :
    (amount pos : ℕ) (s : SegmentBuilder)
    → s.pos ≡ pos + amount
    → take amount (drop pos s.words) ≡ replicate amount zero_word
    → output s ≡ take pos s.words ++ replicate amount zero_word
output-added amount pos s e zeros =
    ap (λ k. take k s.words) e ∙ take-add pos amount s.words ∙ ap (take pos s.words ++◌) zeros

-- An allocation on what an arena outputs.
pub IsAllocated-output :
    (amount : ℕ) (a : BuilderArena) (id pos : ℕ) (a' : BuilderArena)
    → IsAllocated amount a (id, pos, a')
    → get_segments_for_output a'
      ≡ extend id (replicate amount zero_word) (get_segments_for_output a)
unfolding get_segments_for_output
IsAllocated-output amount a id pos a' (arena, (s, there, end, zeros, inl (before, same))) =
    ap (map output) same
    ∙ map-replace_at id (replicate amount zero_word) (record s { pos = pos }) s a.segments before
        (output-added amount pos s end zeros)
IsAllocated-output amount a id pos a' (arena, (s, there, end, zeros, inr (new, start, same))) =
    ap (map output) same
    ∙ map-end (replicate amount zero_word) s a.segments (
        output-added amount pos s end zeros
        ∙ ap (λ k. take k s.words ++ replicate amount zero_word) start)
    ∙ ap (λ i. extend i (replicate amount zero_word) (map output a.segments)) (sym new)

-- From a well-formed arena every amount up to the largest segment can be allocated, and what the
-- arena outputs then is what it output before, with as many zero words as were asked for behind one
-- of its segments or as a new one.
pub get_segments_for_output-allocate :
    (amount : ℕ) (a : BuilderArena)
    → IsArena a
    → amount ≤ max_segment_words
    → (id : ℕ) × (pos : ℕ) × (a' : BuilderArena) × (allocate amount a ≡ some (id, pos, a'))
      × (get_segments_for_output a'
          ≡ extend id (replicate amount zero_word) (get_segments_for_output a))
get_segments_for_output-allocate amount a valid fits =
    let ((id, pos, a'), e, allocated) = allocate-IsAllocated amount a valid fits in
    (id, pos, a', e, IsAllocated-output amount a id pos a' allocated)
