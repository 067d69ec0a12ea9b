-- ===== src/Build/Segments.antt =====
-- Segments of a builder, and new ones from `MallocMessageBuilder`.
use capnp_import.Common.{
  ℕ, ◌+◌, ◌-◌, ◌≤◌, ◌<◌, ◌≡◌, max, length, take, drop, replicate, true, none, some, ltb, leb, ◌&&◌,
  refl, ap, ◌∙◌, arith, Bool-cases, inl, inr, length-replicate,
}
use capnp_import.Build.{
  zero_word, max_segment_words, SegmentBuilder, Malloc, next_size_behind, allocate_segment,
  allocate_words,
}
use capnp_import.Build.Lists.{drop-drop, drop-replicate, take-replicate}

-- The allocated words are in the segment, and the words behind them are zero.
abbrev pub IsSegment : SegmentBuilder → Type 0
IsSegment s =
    (s.pos ≤ length s.words)
    × (length s.words ≤ max_segment_words)
    × (drop s.pos s.words ≡ replicate (length s.words - s.pos) zero_word)

pub allocated-IsSegment :
    (amount : ℕ) (s : SegmentBuilder)
    → IsSegment s
    → s.pos + amount ≤ length s.words
    → IsSegment (record s { pos = s.pos + amount })
      × (take amount (drop s.pos s.words) ≡ replicate amount zero_word)
allocated-IsSegment amount s (within, small, zeros) fits = (
  (
    fits,
    small,
    drop-drop s.pos amount s.words
        ∙ ap (drop amount) zeros
        ∙ drop-replicate amount (length s.words - s.pos) zero_word
        ∙ ap (λ n. replicate n zero_word) (omega arith),
  ),
  ap (take amount) zeros ∙ take-replicate amount (length s.words - s.pos) zero_word (omega arith),
)

pub allocate_words-fits :
    (amount : ℕ) (s : SegmentBuilder)
    → s.pos + amount ≤ length s.words
    → allocate_words amount s ≡ some (s.pos, record s { pos = s.pos + amount })
unfolding allocate_words
allocate_words-fits amount s fits = elim (Bool-cases (ltb (length s.words - s.pos) amount)) [
  | inl e ↦ absurd (ground (arith, e, fits))
  | inr e ↦ rw e refl
]

pub allocate_words-full :
    (amount : ℕ) (s : SegmentBuilder)
    → length s.words < s.pos + amount
    → s.pos ≤ length s.words
    → allocate_words amount s ≡ none
unfolding allocate_words
allocate_words-full amount s full h = elim (Bool-cases (ltb (length s.words - s.pos) amount)) [
  | inl e ↦ rw e refl
  | inr e ↦ absurd (ground (arith, e, full, h))
]

next_size_behind-le :
    (minimum : ℕ) (m : Malloc)
    → minimum ≤ max_segment_words
    → m.next_size ≤ max_segment_words
    → next_size_behind m (max minimum m.next_size) ≤ max_segment_words
next_size_behind-le minimum m fits small = elim (Bool-cases m.grows) [
  | inr e ↦ rw e small
  | inl e ↦ elim (Bool-cases m.returned_first_segment) [
    | inr e' ↦ rw (e, e') (omega arith)
    | inl e' ↦ rw (e, e') (ground arith)
  ]
]

pub allocate_segment-words :
    (minimum : ℕ) (m : Malloc)
    → minimum ≤ max_segment_words
    → m.next_size ≤ max_segment_words
    → (message : Malloc) × (allocate_segment minimum m
        ≡ some (replicate (max minimum m.next_size) zero_word, message))
      × (message.next_size ≤ max_segment_words)
unfolding allocate_segment
allocate_segment-words minimum m fits small =
    let size = max minimum m.next_size in
    let message = record m { next_size = next_size_behind m size; returned_first_segment = true } in
    elim (Bool-cases (leb minimum max_segment_words && leb m.next_size max_segment_words)) [
      | inl e ↦ (message, rw e refl, next_size_behind-le minimum m fits small)
      | inr e ↦ absurd (ground (arith, e))
    ]

abbrev pub new_segment : ℕ → SegmentBuilder
new_segment size = record { words = replicate size zero_word; pos = 0 }

pub new_segment-IsSegment : (size : ℕ) → size ≤ max_segment_words → IsSegment (new_segment size)
new_segment-IsSegment size small =
    let e : length (replicate size zero_word) ≡ size = length-replicate size zero_word in
    let e' : size ≡ length (replicate size zero_word) - 0 = omega arith in
    (omega arith, omega arith, ap (λ n. replicate n zero_word) e')

pub fits_size :
    (amount next : ℕ)
    → amount ≤ max_segment_words
    → next ≤ max_segment_words
    → leb (length (replicate (max amount next) zero_word)) max_segment_words ≡ true
fits_size amount next fits small =
    let e : length (replicate (max amount next) zero_word) ≡ max amount next =
      length-replicate (max amount next) zero_word in
    ground arith
