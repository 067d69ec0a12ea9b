-- ===== src/Build/Objects/Blobs.antt =====
-- Texts and data that are allocated, as they are read.
use capnp_import.Common.{
  ℕ, ◌+◌, ◌-◌, ◌*◌, ◌/◌, ◌%◌, ◌^◌, ◌≤◌, ◌<◌, ◌≡◌, length, take, drop, replicate, true, ltb,
  Bool-cases, some, refl, ◌∙◌, arith, inl, inr,
}
use native.Mathlib.Nat.{zero-div}
use capnp_import.Serialize.{Word}
use capnp_import.Wire.{value}
use capnp_import.Wire.Pointer.{is_null, list_kind, byte_element, set_list}
use capnp_import.Wire.Read.Bytes.{byte_of, get_text, get_data, round_bytes_up_to_words}
use capnp_import.Wire.Read.Found.{pointer_at}
use capnp_import.Wire.Read.Bytes.Found.{
  get_text_found, get_data_found, read_text_at_found, read_data_at_found,
}
use capnp_import.Build.{zero_word, BuilderArena, get_segments_for_output}
use capnp_import.Build.Laws.{IsArena}
use capnp_import.Build.Memory.{get_word, segment_of}
use capnp_import.Build.Objects.{Allocation, finish, BlobBuilder, blob_reader, init_text, init_data}
use capnp_import.Build.Objects.Reached.{IsMade, allocate_object-IsMade}
use capnp_import.Build.Objects.Found.{
  length-segment_of, get_elem?-segment_of, place_of, IsMade-zeros,
}
use capnp_import.Build.Objects.Lists.{list_sizes}
use capnp_import.Build.Objects.Built.{IsBuilt, IsMade-IsBuilt, IsBuilt-IsFound}

pub byte_of-zero : (i : ℕ) → byte_of zero_word i ≡ 0
byte_of-zero i = elim (Bool-cases (ltb i 4)) [
  | inl e ↦ rw (e, zero-div (2 ^ (8 * i))) refl
  | inr e ↦ rw (e, zero-div (2 ^ (8 * (i - 4)))) refl
]

abbrev pub builder_at : Allocation → ℕ → BlobBuilder
builder_at r size = record { id = r.id; address = 8 * r.pos; size = size }

pub init_data-IsMade :
    (a : BuilderArena) (fuel id ref size : ℕ) (w : Word)
    → IsArena a
    → length (get_segments_for_output a) < 2 ^ 32
    → get_word (get_segments_for_output a) id ref ≡ some w
    → is_null w ≡ true
    → size < 2 ^ 29
    → (r : Allocation) × (init_data fuel id ref size a
        ≡ some (builder_at r size, (finish (set_list byte_element size) r).arena))
      × IsMade a id ref (round_bytes_up_to_words size) list_kind (set_list byte_element size) r
unfolding init_data
init_data-IsMade a fuel id ref size w valid few here null small =
    let (r, e, made) =
      allocate_object-IsMade a fuel id ref (round_bytes_up_to_words size) list_kind w valid few here
        null (omega arith) (omega arith) in
    (r, rw e refl, made (set_list byte_element size) (inl refl))

pub init_text-IsMade :
    (a : BuilderArena) (fuel id ref size : ℕ) (w : Word)
    → IsArena a
    → length (get_segments_for_output a) < 2 ^ 32
    → get_word (get_segments_for_output a) id ref ≡ some w
    → is_null w ≡ true
    → size < 2 ^ 29 - 1
    → (r : Allocation) × (init_text fuel id ref size a
        ≡ some (builder_at r size, (finish (set_list byte_element (size + 1)) r).arena))
      × IsMade a id ref
          (round_bytes_up_to_words (size + 1))
          list_kind
          (set_list byte_element (size + 1))
          r
unfolding init_text
init_text-IsMade a fuel id ref size w valid few here null small =
    let (r, e, made) =
      allocate_object-IsMade a fuel id ref (round_bytes_up_to_words (size + 1)) list_kind w valid
        few here null (omega arith) (omega arith) in
    (r, rw e refl, made (set_list byte_element (size + 1)) (inl refl))

-- With bytes stored into it.
pub get_data-IsBuilt :
    (a : BuilderArena) (id ref size depth limit : ℕ) (r : Allocation) (a' : BuilderArena)
    → size < 2 ^ 29
    → round_bytes_up_to_words size ≤ limit
    → IsBuilt a id ref (round_bytes_up_to_words size) list_kind (set_list byte_element size) r a'
    → (left : ℕ) × (get_data
          (get_segments_for_output a')
          (pointer_at (segment_of (get_segments_for_output a') id) ref depth)
          (1 + limit)
        ≡ value (some (blob_reader (get_segments_for_output a') (builder_at r size))) left)
get_data-IsBuilt a id ref size depth limit r a' small enough built =
    let message = get_segments_for_output a' in
    let tag = built.reached.linked.tag in
    let (of_size, of_count) =
      list_sizes tag byte_element size (omega arith) small built.reached.linked.sizes in
    let (left, at_least, found) =
      IsBuilt-IsFound a id ref (round_bytes_up_to_words size) list_kind (set_list byte_element size)
        limit r a' built (omega arith) in
    let size_of = length-segment_of message r.id in
    let inside = built.reached.inside in
    let (behind, read) =
      read_data_at_found size (place_of message r tag) left built.reached.linked.kind_of of_size
        of_count (omega arith) (omega arith) in
    (
      behind,
      get_data_found message (segment_of message id) ref (place_of message r tag) (1 + limit) left
            found depth
          ∙ read,
    )

pub get_text-IsBuilt :
    (a : BuilderArena) (id ref size depth limit : ℕ) (r : Allocation) (a' : BuilderArena)
    (end : Word)
    → size < 2 ^ 29 - 1
    → round_bytes_up_to_words (size + 1) ≤ limit
    → IsBuilt a id ref
        (round_bytes_up_to_words (size + 1))
        list_kind
        (set_list byte_element (size + 1))
        r
        a'
    → get_word (get_segments_for_output a') r.id (r.pos + size / 8) ≡ some end
    → byte_of end (size % 8) ≡ 0
    → (left : ℕ) × (get_text
          (get_segments_for_output a')
          (pointer_at (segment_of (get_segments_for_output a') id) ref depth)
          (1 + limit)
        ≡ value (some (blob_reader (get_segments_for_output a') (builder_at r size))) left)
get_text-IsBuilt a id ref size depth limit r a' end small enough built there nul =
    let message = get_segments_for_output a' in
    let tag = built.reached.linked.tag in
    let (of_size, of_count) =
      list_sizes tag byte_element (size + 1) (omega arith) (omega arith)
        built.reached.linked.sizes in
    let (left, at_least, found) =
      IsBuilt-IsFound a id ref (round_bytes_up_to_words (size + 1)) list_kind
        (set_list byte_element (size + 1)) limit r a' built (omega arith) in
    let size_of = length-segment_of message r.id in
    let inside = built.reached.inside in
    let (segment, last) = get_elem?-segment_of message r.id (r.pos + size / 8) end there in
    let (behind, read) =
      read_text_at_found size (place_of message r tag) end left built.reached.linked.kind_of of_size
        of_count last nul (omega arith) (omega arith) in
    (
      behind,
      get_text_found message (segment_of message id) ref (place_of message r tag) (1 + limit) left
            found depth
          ∙ read,
    )

-- For a null pointer of a well-formed arena with less than 2^32 segments, `initDataPointer` makes
-- data of less than 2^29 bytes: the message that the arena then outputs is read, from the same
-- pointer and within the traversal limit of its words and one more, as the data of the builder, of
-- bytes that are zero. The arena is well-formed again.
get_data-init_data :
    (a : BuilderArena) (fuel id ref size depth limit : ℕ) (w : Word)
    → IsArena a
    → length (get_segments_for_output a) < 2 ^ 32
    → get_word (get_segments_for_output a) id ref ≡ some w
    → is_null w ≡ true
    → size < 2 ^ 29
    → round_bytes_up_to_words size ≤ limit
    → (b : BlobBuilder) × (a' : BuilderArena) × (left : ℕ) × (init_data fuel id ref size a
        ≡ some (b, a'))
      × IsArena a'
      × (get_data
            (get_segments_for_output a')
            (pointer_at (segment_of (get_segments_for_output a') id) ref depth)
            (1 + limit)
          ≡ value (some (blob_reader (get_segments_for_output a') b)) left)
      × (take
            (round_bytes_up_to_words size)
            (drop (b.address / 8) (segment_of (get_segments_for_output a') b.id))
          ≡ replicate (round_bytes_up_to_words size) zero_word)
get_data-init_data a fuel id ref size depth limit w valid few here null small enough =
    let (r, e, made) = init_data-IsMade a fuel id ref size w valid few here null small in
    let high = set_list byte_element size in
    let (left, read) =
      get_data-IsBuilt a id ref size depth limit r (finish high r).arena small enough
        (IsMade-IsBuilt a id ref (round_bytes_up_to_words size) list_kind high r made) in
    let at : 8 * r.pos / 8 ≡ r.pos = omega arith in
    (
      builder_at r size,
      (finish high r).arena,
      left,
      e,
      made.arena,
      read,
      rw at (IsMade-zeros a id ref (round_bytes_up_to_words size) list_kind high r made),
    )

-- For a null pointer of a well-formed arena with less than 2^32 segments, `initTextPointer` makes a
-- text of less than 2^29 - 1 bytes, with a NUL behind it: the message that the arena then outputs
-- is read, from the same pointer and within the traversal limit of its words and one more, as the
-- text of the builder, of bytes that are zero. The arena is well-formed again.
get_text-init_text :
    (a : BuilderArena) (fuel id ref size depth limit : ℕ) (w : Word)
    → IsArena a
    → length (get_segments_for_output a) < 2 ^ 32
    → get_word (get_segments_for_output a) id ref ≡ some w
    → is_null w ≡ true
    → size < 2 ^ 29 - 1
    → round_bytes_up_to_words (size + 1) ≤ limit
    → (b : BlobBuilder) × (a' : BuilderArena) × (left : ℕ) × (init_text fuel id ref size a
        ≡ some (b, a'))
      × IsArena a'
      × (get_text
            (get_segments_for_output a')
            (pointer_at (segment_of (get_segments_for_output a') id) ref depth)
            (1 + limit)
          ≡ value (some (blob_reader (get_segments_for_output a') b)) left)
      × (take
            (round_bytes_up_to_words (size + 1))
            (drop (b.address / 8) (segment_of (get_segments_for_output a') b.id))
          ≡ replicate (round_bytes_up_to_words (size + 1)) zero_word)
get_text-init_text a fuel id ref size depth limit w valid few here null small enough =
    let (r, e, made) = init_text-IsMade a fuel id ref size w valid few here null small in
    let high = set_list byte_element (size + 1) in
    let (left, read) =
      get_text-IsBuilt a id ref size depth limit r (finish high r).arena zero_word small enough
        (IsMade-IsBuilt a id ref (round_bytes_up_to_words (size + 1)) list_kind high r made)
        (made.zeros (size / 8) (omega arith)) (byte_of-zero (size % 8)) in
    let at : 8 * r.pos / 8 ≡ r.pos = omega arith in
    (
      builder_at r size,
      (finish high r).arena,
      left,
      e,
      made.arena,
      read,
      rw at (IsMade-zeros a id ref (round_bytes_up_to_words (size + 1)) list_kind high r made),
    )
