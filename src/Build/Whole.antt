-- ===== src/Build/Whole.antt =====
-- A message from its first word to its reader.
use capnp_import.Common.{
  ℕ, ◌+◌, ◌-◌, ◌*◌, ◌^◌, ◌≤◌, ◌<◌, ◌≡◌, List, length, some, refl, sym, ap, ◌∙◌, subst, arith,
}
use capnp_import.Serialize.{Word, Segment}
use capnp_import.Wire.{value, no_root}
use capnp_import.Wire.Segment.Laws.{check_object-fits}
use capnp_import.Wire.Fars.Found.{get_segment_found}
use capnp_import.Wire.Read.{get_struct}
use capnp_import.Wire.Read.Access.{get_root, get_root_internal}
use capnp_import.Wire.Read.Bytes.{get_data_field}
use capnp_import.Wire.Read.Found.{pointer_at}
use capnp_import.Build.{
  zero_word, max_segment_words, Malloc, BuilderArena, get_root_segment, get_segments_for_output,
}
use capnp_import.Build.Root.{get_root_segment-blank}
use capnp_import.Build.Memory.{get_word, segment_length, segment_of}
use capnp_import.Build.Memory.Laws.{get_word-lt}
use capnp_import.Build.Memory.Arenas.{segment_length-le}
use capnp_import.Build.Objects.{StructBuilder, struct_reader, init_struct}
use capnp_import.Build.Objects.Found.{length-segment_of, get_elem?-segment_of}
use capnp_import.Build.Fields.{set_data_field}
use capnp_import.Build.Fields.Structs.{written_struct}

-- The root of a message with a first word.
get_root_internal_found :
    (message : List Segment) (w : Word) (depth limit : ℕ)
    → get_word message 0 0 ≡ some w
    → segment_length message 0 < 2 ^ 29
    → get_root_internal message depth (2 + limit)
      ≡ value (pointer_at (segment_of message 0) 0 depth) limit
unfolding get_root_internal get_root
get_root_internal_found message w depth limit there small =
    let (first, word) = get_elem?-segment_of message 0 0 w there in
    let size = length-segment_of message 0 in
    let inside = get_word-lt message 0 0 w there in
    let e : 2 + limit - 1 - 1 ≡ limit = omega arith in
    let s = segment_of message 0 in
    rw (get_segment_found message 0 (2 + limit) no_root s first (omega arith) (omega arith)) (
      rw (check_object-fits s 0 1 (2 + limit) (omega arith) (omega arith)) (
        rw (check_object-fits s 0 1 (2 + limit - 1) (omega arith) (omega arith))
          (ap (value (pointer_at s 0 depth)) e)))

-- A whole message: it is made with a next size up to the largest segment; a struct with less than
-- 2^16 words of data and of pointers each becomes its root, and `setDataField` stores a number that
-- fits its size inside of its data. What the message outputs is read from its root, with a nesting
-- limit above 0 and within the traversal limit of the words of the struct and three more, as that
-- struct, and the field as that number.
pub get_root_internal-set_data_field :
    (m : Malloc) (fuel words pointers size offset v depth limit : ℕ)
    → m.next_size ≤ max_segment_words
    → words < 2 ^ 16
    → pointers < 2 ^ 16
    → (offset + 1) * (8 * size) ≤ 64 * words
    → v < 256 ^ size
    → words + pointers ≤ limit
    → (a : BuilderArena) × (b : StructBuilder) × (a1 : BuilderArena) × (left : ℕ)
      × (get_root_segment m ≡ some a)
      × (init_struct fuel 0 0 words pointers a ≡ some (b, a1))
      × (get_root_internal
            (get_segments_for_output (set_data_field b size offset v a1))
            (1 + depth)
            (3 + limit)
          ≡ value
              (pointer_at
                (segment_of (get_segments_for_output (set_data_field b size offset v a1)) 0)
                0
                (1 + depth))
              (1 + limit))
      × (get_struct
            (get_segments_for_output (set_data_field b size offset v a1))
            (pointer_at
              (segment_of (get_segments_for_output (set_data_field b size offset v a1)) 0)
              0
              (1 + depth))
            (1 + limit)
          ≡ value
              (some (
                struct_reader
                  (get_segments_for_output (set_data_field b size offset v a1))
                  depth
                  b))
              left)
      × (get_data_field
            (struct_reader (get_segments_for_output (set_data_field b size offset v a1)) depth b)
            size
            offset
            left
          ≡ value v left)
get_root_internal-set_data_field m fuel words pointers size offset v depth limit small few_words
      few_pointers within fits enough =
    let (a, made, outputs, valid) = get_root_segment-blank m small in
    let (b, a1, left, e, valid', read, field, (x, there)) =
      written_struct a fuel 0 0 words pointers size offset v depth limit zero_word valid
        (subst (λ o. length o < 2 ^ 32) (sym outputs) (omega arith))
        (ap (λ o. get_word o 0 0) outputs) refl few_words few_pointers within fits enough in
    let message = get_segments_for_output (set_data_field b size offset v a1) in
    let most = segment_length-le 0 (set_data_field b size offset v a1) valid' in
    let three : 2 + (1 + limit) ≡ 3 + limit = omega arith in
    (
      a,
      b,
      a1,
      left,
      made,
      e,
      sym (ap (get_root_internal message (1 + depth)) three)
          ∙ get_root_internal_found message x (1 + depth) (1 + limit) there (omega arith),
      read,
      field,
    )
