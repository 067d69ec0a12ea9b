-- ===== src/Build/Root.antt =====
-- A message that is built and not written to, as it is read.
use capnp_import.Common.{
  ℕ, ◌+◌, ◌-◌, ◌≤◌, ◌≡◌, List, [], ◌∷◌, replicate, take, drop, map, none, some, refl, sym, ap, ◌∙◌,
  arith, inl, inr,
}
use mathlib.Core.Option.{none-ne-some}
use capnp_import.Serialize.{Segment}
use capnp_import.Wire.{value}
use capnp_import.Wire.Segment.{load, get_segment}
use capnp_import.Wire.Segment.Laws.{check_object-fits}
use capnp_import.Wire.Read.{PointerReader, get_struct, load_pointer}
use capnp_import.Wire.Read.Access.{get_root, get_root_internal}
use capnp_import.Build.{
  zero_word, max_segment_words, Malloc, SegmentBuilder, BuilderArena, get_root_segment,
  get_segments_for_output,
}
use capnp_import.Build.Laws.{IsArena, IsExtended, allocate-IsAllocated}

abbrev pub blank : List Segment
blank = (zero_word ∷ []) ∷ []

abbrev pub blank_root : ℕ → PointerReader
blank_root depth = record { segment = zero_word ∷ []; address = 0; nesting_limit = depth }

get_root_internal-blank :
    (depth limit : ℕ) → get_root_internal blank depth (2 + limit) ≡ value (blank_root depth) limit
unfolding get_root_internal get_root get_segment
get_root_internal-blank depth limit =
    let e : 2 + limit - 1 - 1 ≡ limit = omega arith in
    rw (check_object-fits (zero_word ∷ []) 0 1 (2 + limit) (omega arith) (omega arith)) (
      rw (check_object-fits (zero_word ∷ []) 0 1 (2 + limit - 1) (omega arith) (omega arith))
        (ap (value (blank_root depth)) e))

get_struct-blank : (depth limit : ℕ) → get_struct blank (blank_root depth) limit ≡ value none limit
unfolding get_struct load_pointer load
get_struct-blank depth limit = refl

pub get_root_segment-blank :
    (m : Malloc)
    → m.next_size ≤ max_segment_words
    → (a : BuilderArena) × (get_root_segment m ≡ some a)
      × (get_segments_for_output a ≡ blank)
      × IsArena a
unfolding get_root_segment get_segments_for_output
get_root_segment-blank m small =
    let start : BuilderArena = record {
      message = m;
      segments = [];
      segment_with_space = none;
      cap_table = [];
    } in
    let ((id, pos, a), e, (arena, (s, there, end, zeros, extended))) =
      allocate-IsAllocated 1 start (tt, small) (omega arith) in
    let (first_id, first_pos) = first_place id pos a s extended in
    (a, rw (e, first_id, first_pos) refl, blank_output id pos a s end zeros extended, arena)
  where
    first_place :
        (id pos : ℕ) (a : BuilderArena) (s : SegmentBuilder)
        → IsExtended
            (record { message = m; segments = []; segment_with_space = none; cap_table = [] })
            id
            pos
            s
            a
        → (id ≡ 0) × (pos ≡ 0)
    first_place id pos a s (inl (there, same)) = absurd (none-ne-some _ there)
    first_place id pos a s (inr (new, first, same)) = (new, first)

    blank_output :
        (id pos : ℕ) (a : BuilderArena) (s : SegmentBuilder)
        → s.pos ≡ pos + 1
        → take 1 (drop pos s.words) ≡ replicate 1 zero_word
        → IsExtended
            (record { message = m; segments = []; segment_with_space = none; cap_table = [] })
            id
            pos
            s
            a
        → get_segments_for_output a ≡ blank
    blank_output id pos a s end zeros (inl (there, same)) = absurd (none-ne-some _ there)
    blank_output id pos a s end zeros (inr (new, first, same)) =
        let one : s.pos ≡ 1 = omega arith in
        ap (map (λ (s : SegmentBuilder). take s.pos s.words)) same
        ∙ ap (λ k. take k s.words ∷ []) one
        ∙ ap (λ k. take 1 (drop k s.words) ∷ []) (sym first)
        ∙ ap (λ o. o ∷ []) zeros

-- A message that is built, with a next size up to the largest segment, and not written to: what its
-- builder outputs is read without an exception, and its root is the default, if the traversal limit
-- has the two words of the root's bounds checks.
pub get_struct-get_root_segment :
    (m : Malloc) (depth limit : ℕ)
    → m.next_size ≤ max_segment_words
    → (a : BuilderArena) × (get_root_segment m ≡ some a)
      × (get_root_internal (get_segments_for_output a) depth (2 + limit)
          ≡ value (blank_root depth) limit)
      × (get_struct (get_segments_for_output a) (blank_root depth) limit ≡ value none limit)
get_struct-get_root_segment m depth limit small =
    let (a, e, outputs, valid) = get_root_segment-blank m small in
    (
      a,
      e,
      ap (λ message. get_root_internal message depth (2 + limit)) outputs
          ∙ get_root_internal-blank depth limit,
      ap (λ message. get_struct message (blank_root depth) limit) outputs
          ∙ get_struct-blank depth limit,
    )
