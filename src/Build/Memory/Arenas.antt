-- ===== src/Build/Memory/Arenas.antt =====
-- What stores and allocations of an arena do to what it outputs.
use capnp_import.Common.{
  ℕ, zero, suc, ◌+◌, ◌-◌, ◌≤◌, ◌<◌, ◌≡◌, List, [], ◌∷◌, map, length, get_elem?, take, drop,
  replicate, All, some, refl, sym, ap, ◌∙◌, arith, inl, inr, length-take,
}
use mathlib.Core.Option.{some-injective, none-ne-some}
use capnp_import.Serialize.{Word, Segment}
use capnp_import.Build.{
  zero_word, max_segment_words, SegmentBuilder, BuilderArena, and_then, get_segments_for_output,
}
use capnp_import.Build.Lists.{All-get_elem?}
use capnp_import.Build.Segments.{IsSegment}
use capnp_import.Build.Laws.{IsArena, IsAllocated}
use capnp_import.Build.Output.{extend, IsAllocated-output}
use capnp_import.Build.Memory.{modify_at, read_word, modify_word, get_word, poke, segment_length}
use capnp_import.Build.Memory.Laws.{length-modify_at, get_word-poke}

take-modify_at :
    (n i : ℕ) (f : Word → Word) (xs : List Word)
    → take n (modify_at i f xs) ≡ modify_at i f (take n xs)
take-modify_at zero i f xs = refl
take-modify_at (suc n) i f [] = refl
take-modify_at (suc n) zero f (x ∷ xs) = refl
take-modify_at (suc n) (suc i) f (x ∷ xs) = ap (x ∷◌) (take-modify_at n i f xs)

drop-modify_at :
    (n i : ℕ) (f : Word → Word) (xs : List Word) → i < n → drop n (modify_at i f xs) ≡ drop n xs
drop-modify_at zero i f xs h = absurd (omega arith)
drop-modify_at (suc n) i f [] h = refl
drop-modify_at (suc n) zero f (x ∷ xs) h = refl
drop-modify_at (suc n) (suc i) f (x ∷ xs) h = drop-modify_at n i f xs (omega arith)

get_elem?-take :
    (n i : ℕ) (x : Word) (xs : List Word)
    → get_elem? (take n xs) i ≡ some x
    → (i < n) × (get_elem? xs i ≡ some x)
get_elem?-take zero i x xs h = absurd (none-ne-some x h)
get_elem?-take (suc n) i x [] h = absurd (none-ne-some x h)
get_elem?-take (suc n) zero x (y ∷ xs) h = (omega arith, h)
get_elem?-take (suc n) (suc i) x (y ∷ xs) h =
    let (below, there) = get_elem?-take n i x xs h in (omega arith, there)

abbrev outputs : List SegmentBuilder → List Segment
outputs segments = map (λ s. take s.pos s.words) segments

outputs-modify_at :
    (id pos : ℕ) (f : Word → Word) (segments : List SegmentBuilder)
    → outputs (modify_at id (λ s. record s { words = modify_at pos f s.words }) segments)
      ≡ poke id pos f (outputs segments)
outputs-modify_at id pos f [] = refl
outputs-modify_at zero pos f (s ∷ segments) =
    ap (λ o. o ∷ outputs segments) (take-modify_at s.pos pos f s.words)
outputs-modify_at (suc id) pos f (s ∷ segments) =
    ap (take s.pos s.words ∷◌) (outputs-modify_at id pos f segments)

pub get_segments_for_output-modify_word :
    (id pos : ℕ) (f : Word → Word) (a : BuilderArena)
    → get_segments_for_output (modify_word id pos f a) ≡ poke id pos f (get_segments_for_output a)
unfolding get_segments_for_output
get_segments_for_output-modify_word id pos f a = outputs-modify_at id pos f a.segments

-- A word that is output is a word of its segment.
outputs-get_word :
    (id pos : ℕ) (w : Word) (segments : List SegmentBuilder)
    → get_word (outputs segments) id pos ≡ some w
    → and_then (get_elem? segments id) (λ s. get_elem? s.words pos) ≡ some w
outputs-get_word id pos w [] h = absurd (none-ne-some w h)
outputs-get_word zero pos w (s ∷ segments) h = (get_elem?-take s.pos pos w s.words h).1
outputs-get_word (suc id) pos w (s ∷ segments) h = outputs-get_word id pos w segments h

pub read_word-get_word :
    (a : BuilderArena) (id pos : ℕ) (w : Word)
    → get_word (get_segments_for_output a) id pos ≡ some w
    → read_word a id pos ≡ some w
unfolding get_segments_for_output
read_word-get_word a id pos w h = outputs-get_word id pos w a.segments h

modify_at-IsSegment :
    (id pos : ℕ) (f : Word → Word) (w : Word) (segments : List SegmentBuilder)
    → All IsSegment segments
    → get_word (outputs segments) id pos ≡ some w
    → All IsSegment (modify_at id (λ s. record s { words = modify_at pos f s.words }) segments)
modify_at-IsSegment id pos f w [] valid h = valid
modify_at-IsSegment zero pos f w (s ∷ segments) ((within, small, zeros), valid) h =
    let len = length-modify_at pos f s.words in
    let below = (get_elem?-take s.pos pos w s.words h).0 in
    (
      (
        omega arith,
        omega arith,
        drop-modify_at s.pos pos f s.words below
            ∙ zeros
            ∙ ap (λ n. replicate (n - s.pos) zero_word) (sym len),
      ),
      valid,
    )
modify_at-IsSegment (suc id) pos f w (s ∷ segments) (v, valid) h =
    (v, modify_at-IsSegment id pos f w segments valid h)

-- Stores into what is output keep an arena well-formed.
pub modify_word-IsArena :
    (id pos : ℕ) (f : Word → Word) (w : Word) (a : BuilderArena)
    → IsArena a
    → get_word (get_segments_for_output a) id pos ≡ some w
    → IsArena (modify_word id pos f a)
unfolding get_segments_for_output
modify_word-IsArena id pos f w a (valid, small) h =
    (modify_at-IsSegment id pos f w a.segments valid h, small)

outputs-segment_length :
    (id : ℕ) (segments : List SegmentBuilder)
    → All IsSegment segments
    → segment_length (outputs segments) id ≤ max_segment_words
outputs-segment_length id [] valid = omega arith
outputs-segment_length zero (s ∷ segments) ((within, small, zeros), valid) =
    let len = length-take s.pos s.words in omega arith
outputs-segment_length (suc id) (s ∷ segments) (v, valid) = outputs-segment_length id segments valid

pub segment_length-le :
    (id : ℕ) (a : BuilderArena)
    → IsArena a
    → segment_length (get_segments_for_output a) id ≤ max_segment_words
unfolding get_segments_for_output
segment_length-le id a (valid, small) = outputs-segment_length id a.segments valid

outputs-end :
    (id pos : ℕ) (s : SegmentBuilder) (segments : List SegmentBuilder)
    → get_elem? segments id ≡ some (record s { pos = pos })
    → pos ≤ length s.words
    → (segment_length (outputs segments) id ≡ pos) × (id ≤ length (outputs segments))
outputs-end id pos s [] h within = absurd (none-ne-some (record s { pos = pos }) h)
outputs-end zero pos s (x ∷ segments) h within = (
  ap (λ x. length (take x.pos x.words)) (some-injective x (record s { pos = pos }) h)
      ∙ length-take pos s.words
      ∙ omega arith,
  omega arith,
)
outputs-end (suc id) pos s (x ∷ segments) h within =
    let (end, among) = outputs-end id pos s segments h within in (end, omega arith)

outputs-new :
    (segments : List SegmentBuilder)
    → (segment_length (outputs segments) (length segments) ≡ 0)
      × (length segments ≤ length (outputs segments))
outputs-new [] = (refl, omega arith)
outputs-new (s ∷ segments) = let (end, among) = outputs-new segments in (end, omega arith)

-- What an arena outputs behind an allocation, and where the allocated words lie in it.
pub IsAllocated-extend :
    (amount : ℕ) (a : BuilderArena) (id pos : ℕ) (a' : BuilderArena)
    → IsAllocated amount a (id, pos, a')
    → (get_segments_for_output a'
        ≡ extend id (replicate amount zero_word) (get_segments_for_output a))
      × (segment_length (get_segments_for_output a) id ≡ pos)
      × (id ≤ length (get_segments_for_output a))
      × (pos + amount ≤ max_segment_words)
unfolding get_segments_for_output
IsAllocated-extend amount a id pos a' (arena, (s, there, end, zeros, inl (before, same))) =
    let (within, small, free) = All-get_elem? IsSegment id s a'.segments arena.0 there in
    let (at_end, among) = outputs-end id pos s a.segments before (omega arith) in
    (
      IsAllocated-output amount a id pos a' (arena, (s, there, end, zeros, inl (before, same))),
      at_end,
      among,
      omega arith,
    )
IsAllocated-extend amount a id pos a' (arena, (s, there, end, zeros, inr (new, start, same))) =
    let (at_end, among) = outputs-new a.segments in
    let (within, small, free) = All-get_elem? IsSegment id s a'.segments arena.0 there in
    (
      IsAllocated-output amount a id pos a' (arena, (s, there, end, zeros, inr (new, start, same))),
      ap (segment_length (outputs a.segments)) new ∙ at_end ∙ sym start,
      omega arith,
      omega arith,
    )

-- A store into a word that is output.
pub modify_word-stored :
    (id pos : ℕ) (f : Word → Word) (w : Word) (a : BuilderArena)
    → IsArena a
    → get_word (get_segments_for_output a) id pos ≡ some w
    → IsArena (modify_word id pos f a)
      × (get_word (get_segments_for_output (modify_word id pos f a)) id pos ≡ some (f w))
modify_word-stored id pos f w a valid h = (
  modify_word-IsArena id pos f w a valid h,
  ap (λ m. get_word m id pos) (get_segments_for_output-modify_word id pos f a)
      ∙ get_word-poke id pos f w (get_segments_for_output a) h,
)
