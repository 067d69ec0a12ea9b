-- ===== src/Build/Objects/Lists.antt =====
-- Lists that are allocated, as they are read.
use capnp_import.Common.{
  ℕ, ◌+◌, ◌-◌, ◌*◌, ◌/◌, ◌^◌, ◌≤◌, ◌<◌, ◌≡◌, length, take, drop, replicate, Bool, true, leb, some,
  refl, ◌∙◌, arith, inl,
}
use capnp_import.Serialize.{Word}
use capnp_import.Wire.{value}
use capnp_import.Wire.Pointer.{
  is_null, list_kind, element_size, element_count, inline_composite_element, set_list,
  data_bits_per_element, pointers_per_element,
}
use capnp_import.Wire.Size.{round_bits_up_to_words}
use capnp_import.Wire.Read.{get_list, step_bits}
use capnp_import.Wire.Read.Found.{pointer_at, get_list_found, read_list_at_found}
use capnp_import.Build.{zero_word, max_segment_words, BuilderArena, get_segments_for_output}
use capnp_import.Build.Laws.{IsArena}
use capnp_import.Build.Memory.{get_word, segment_of}
use capnp_import.Build.Objects.{Allocation, finish, ListBuilder, list_reader, init_list}
use capnp_import.Build.Objects.Reached.{IsMade, allocate_object-IsMade}
use capnp_import.Build.Objects.Found.{length-segment_of, place_of, IsMade-IsFound, IsMade-zeros}

pub list_sizes :
    (w : Word) (size count : ℕ)
    → size < 8
    → count < 2 ^ 29
    → w.high ≡ set_list size count
    → (element_size w ≡ size) × (element_count w ≡ count)
unfolding set_list
list_sizes w size count known few sizes = (omega arith, omega arith)

get_list-IsMade :
    (a : BuilderArena) (id ref size count depth limit : ℕ) (check : Bool) (r : Allocation)
    → size < inline_composite_element
    → count < 2 ^ 29
    → round_bits_up_to_words (count * step_bits size) + count ≤ limit
    → IsMade a id ref
        (round_bits_up_to_words (count * step_bits size))
        list_kind
        (set_list size count)
        r
    → (left : ℕ) × (get_list
          (get_segments_for_output (finish (set_list size count) r).arena)
          size
          check
          (pointer_at
            (segment_of (get_segments_for_output (finish (set_list size count) r).arena) id)
            ref
            (1 + depth))
          (1 + limit)
        ≡ value
            (some (
              list_reader
                (get_segments_for_output (finish (set_list size count) r).arena)
                depth
                (record {
                  id = r.id;
                  address = 8 * r.pos;
                  step = step_bits size;
                  count = count;
                  data_bits = data_bits_per_element size;
                  pointer_count = pointers_per_element size;
                  element = size;
                })))
            left)
get_list-IsMade a id ref size count depth limit check r plain few enough made =
    let amount = round_bits_up_to_words (count * step_bits size) in
    let message = get_segments_for_output (finish (set_list size count) r).arena in
    let tag = made.reached.linked.tag in
    let (of_size, of_count) =
      list_sizes tag size count (omega arith) few made.reached.linked.sizes in
    let (left, at_least, found) =
      IsMade-IsFound a id ref amount list_kind (set_list size count) limit r made (omega arith) in
    let size_of = length-segment_of message r.id in
    let inside = made.reached.inside in
    let (behind, read) =
      read_list_at_found size depth count check (place_of message r tag) left
        made.reached.linked.kind_of of_size of_count plain (omega arith) (omega arith) in
    (
      behind,
      get_list_found message (segment_of message id) ref (place_of message r tag) (1 + limit) left
            found size depth check
          ∙ read,
    )

-- For a null pointer of a well-formed arena with less than 2^32 segments, `initListPointer` makes a
-- list of less than 2^29 elements that are no structs, if its words and a landing pad fit into a
-- segment: the message that the arena then outputs is read, from the same pointer with a nesting
-- limit above 0, with or without the check of its elements, and within the traversal limit of its
-- words, its elements and one more, as the list of the builder, and all words of the list are zero.
-- The arena is well-formed again.
pub get_list-init_list :
    (a : BuilderArena) (fuel id ref size count depth limit : ℕ) (check : Bool) (w : Word)
    → IsArena a
    → length (get_segments_for_output a) < 2 ^ 32
    → get_word (get_segments_for_output a) id ref ≡ some w
    → is_null w ≡ true
    → size < inline_composite_element
    → count < 2 ^ 29
    → round_bits_up_to_words (count * step_bits size) + 1 ≤ max_segment_words
    → round_bits_up_to_words (count * step_bits size) + count ≤ limit
    → (b : ListBuilder) × (a' : BuilderArena) × (left : ℕ) × (init_list fuel id ref count size a
        ≡ some (b, a'))
      × IsArena a'
      × (get_list
            (get_segments_for_output a')
            size
            check
            (pointer_at (segment_of (get_segments_for_output a') id) ref (1 + depth))
            (1 + limit)
          ≡ value (some (list_reader (get_segments_for_output a') depth b)) left)
      × (take
            (round_bits_up_to_words (count * step_bits size))
            (drop (b.address / 8) (segment_of (get_segments_for_output a') b.id))
          ≡ replicate (round_bits_up_to_words (count * step_bits size)) zero_word)
unfolding init_list
get_list-init_list a fuel id ref size count depth limit check w valid few here null plain elements
      fits enough =
    let amount = round_bits_up_to_words (count * step_bits size) in
    let high = set_list size count in
    let (r, e, made) =
      allocate_object-IsMade a fuel id ref amount list_kind w valid few here null fits
        (omega arith) in
    let is_made = made high (inl refl) in
    let (left, read) =
      get_list-IsMade a id ref size count depth limit check r plain elements enough is_made in
    let at : 8 * r.pos / 8 ≡ r.pos = omega arith in
    let allowed : leb count (2 ^ 29 - 1) ≡ true = ground arith in
    (
      record {
        id = r.id;
        address = 8 * r.pos;
        step = step_bits size;
        count = count;
        data_bits = data_bits_per_element size;
        pointer_count = pointers_per_element size;
        element = size;
      },
      (finish high r).arena,
      left,
      rw (allowed, e) refl,
      is_made.arena,
      read,
      rw at (IsMade-zeros a id ref amount list_kind high r is_made),
    )
