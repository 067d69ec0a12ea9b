-- ===== src/Build.antt =====
-- Messages that are built: `SegmentBuilder` and `BuilderArena` of capnproto/c++/src/capnp/arena.h
-- and arena.c++, over the segments of `MallocMessageBuilder` of message.c++ that has no first segment
-- of its own. `none` is an exception.
pub mod Laws
pub mod Output
pub mod Root
pub mod Memory
pub mod Caps
pub mod Zero
pub mod Objects
pub mod Copy
pub mod Fields
pub mod Whole
pub mod Segments
pub mod Lists
use capnp_import.Common.{
  ℕ, zero, suc, ◌+◌, ◌-◌, ◌^◌, max, List, [], ◌∷◌, ◌++◌, map, length, take, replicate, get_elem?,
  Bool, true, false, Option, none, some, ltb, leb, ◌&&◌, ◌==◌, if◌then◌else◌,
}
use capnp_import.Serialize.{Word, Segment}

abbrev pub zero_word : Word
zero_word = record { low = 0; high = 0 }

-- `MAX_SEGMENT_WORDS`
abbrev pub max_segment_words : ℕ
max_segment_words = 2 ^ 29 - 1

-- The words of the segment, and the position of the first that is free.
pub record SegmentBuilder : Type 0 where
  pub words : Segment
  pub pos : ℕ

-- `nextSize`, and whether the allocation strategy is GROW_HEURISTICALLY.
pub record Malloc : Type 0 where
  pub next_size : ℕ
  pub grows : Bool
  pub returned_first_segment : Bool

-- `segmentWithSpace` as its id, and the local capability table with numbers for the `ClientHook`s.
pub record BuilderArena : Type 0 where
  pub message : Malloc
  pub segments : List SegmentBuilder
  pub segment_with_space : Option ℕ
  pub cap_table : List (Option ℕ)

abbrev pub and_then {ℓ κ} : {A : Type ℓ} {B : Type κ} → Option A → (A → Option B) → Option B
and_then none f = none
and_then (some a) f = f a

-- `MallocMessageBuilder::allocateSegment`, whose memory `calloc` has zeroed. That `calloc` fails, which
-- is an exception too, is left out.
abbrev pub next_size_behind : Malloc → ℕ → ℕ
next_size_behind m size =
    if m.grows
    then if m.returned_first_segment
      then (if leb size (max_segment_words - m.next_size)
          then m.next_size + size
          else max_segment_words)
      else size
    else m.next_size

pub allocate_segment : ℕ → Malloc → Option (Segment × Malloc)
allocate_segment minimum m =
    let size = max minimum m.next_size in
    if leb minimum max_segment_words && leb m.next_size max_segment_words
    then some (
      replicate size zero_word,
      record m { next_size = next_size_behind m size; returned_first_segment = true },
    )
    else none

-- `SegmentBuilder::allocate`, where `none` is the null pointer.
pub allocate_words : ℕ → SegmentBuilder → Option (ℕ × SegmentBuilder)
allocate_words amount s =
    if ltb (length s.words - s.pos) amount
    then none
    else some (s.pos, record s { pos = s.pos + amount })

abbrev pub replace_at {ℓ} : {A : Type ℓ} → ℕ → A → List A → List A
replace_at i a [] = []
replace_at zero a (x ∷ xs) = a ∷ xs
replace_at (suc i) a (x ∷ xs) = x ∷ replace_at i a xs

-- An allocation in the segment of an id, with its position there.
abbrev pub allocate_in : ℕ → ℕ → BuilderArena → Option (ℕ × ℕ × BuilderArena)
allocate_in amount id a = and_then (get_elem? a.segments id) λ s.
    and_then (allocate_words amount s)
      λ (pos, s'). some (id, pos, record a { segments = replace_at id s' a.segments })

-- `addSegmentInternal` of a segment that is allocated, and an allocation in it.
abbrev pub allocate_new : ℕ → BuilderArena → Option (ℕ × ℕ × BuilderArena)
allocate_new amount a =
    let id = length a.segments in
    and_then (allocate_segment amount a.message) λ (words, message).
      if leb (length words) max_segment_words
      then allocate_in amount id (record {
        message = message;
        segments = a.segments ++ (record { words = words; pos = 0 } ∷ []);
        segment_with_space = some id;
        cap_table = a.cap_table;
      })
      else none

abbrev or_else {ℓ} : {A : Type ℓ} → Option A → Option A → Option A
or_else (some a) o = some a
or_else none o = o

-- In the segment with space, if there is one, or else in a new one.
abbrev pub allocate_from : ℕ → BuilderArena → Option ℕ → Option (ℕ × ℕ × BuilderArena)
allocate_from amount a (some id) = or_else (allocate_in amount id a) (allocate_new amount a)
allocate_from amount a none = allocate_new amount a

-- `BuilderArena::allocate`, with the id of the segment and the position of the words.
pub allocate : ℕ → BuilderArena → Option (ℕ × ℕ × BuilderArena)
unfolding allocate_words allocate_segment
allocate amount a = allocate_from amount a a.segment_with_space

-- `getSegmentsForOutput`, of what `currentlyAllocated` returns of each.
unfoldable pub get_segments_for_output : BuilderArena → List Segment
get_segments_for_output a = map (λ s. take s.pos s.words) a.segments

-- `MessageBuilder::getRootSegment` of a message without an arena: the arena with the root pointer.
pub get_root_segment : Malloc → Option BuilderArena
unfolding allocate
get_root_segment m =
    and_then
      (allocate 1
        (record { message = m; segments = []; segment_with_space = none; cap_table = [] }))
      λ (id, pos, a). if id == 0 && pos == 0 then some a else none
