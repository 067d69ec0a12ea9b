-- ===== src/Build/Fields/Structs.antt =====
-- A struct that is allocated and set, as it is read from the message.
use capnp_import.Common.{
  ℕ, ◌+◌, ◌*◌, ◌^◌, ◌≤◌, ◌<◌, ◌≡◌, ◌⊎◌, List, length, true, false, some, subst, arith, inl, inr,
}
use capnp_import.Serialize.{Word, Segment}
use capnp_import.Wire.{value}
use capnp_import.Wire.Pointer.{
  is_null, struct_kind, set_struct, kind, far_kind, is_double_far, far_target,
}
use capnp_import.Wire.Read.{get_struct}
use capnp_import.Wire.Read.Bytes.{get_data_field}
use capnp_import.Wire.Read.Found.{pointer_at}
use capnp_import.Build.{BuilderArena, get_segments_for_output}
use capnp_import.Build.Laws.{IsArena}
use capnp_import.Build.Memory.{get_word, segment_length, segment_of}
use capnp_import.Build.Objects.{Allocation, finish, StructBuilder, struct_reader, init_struct}
use capnp_import.Build.Objects.Placed.{IsLinked}
use capnp_import.Build.Objects.Built.{IsBuilt, IsMade-IsBuilt}
use capnp_import.Build.Objects.Structs.{struct_at, init_struct-IsMade, get_struct-IsBuilt}
use capnp_import.Build.Copy.Laws.{copy_memory-IsBuilt}
use capnp_import.Build.Fields.{value_bytes, set_data_field}
use capnp_import.Build.Fields.Stored.{length-value_bytes}
use capnp_import.Build.Fields.Laws.{get_data_field-set_data_field}

field_fits :
    (offset size words pointers : ℕ)
    → (offset + 1) * (8 * size) ≤ 64 * words
    → offset * size + size ≤ 8 * (words + pointers)
field_fits offset size words pointers h = grind arith

set_data_field-IsBuilt :
    (a : BuilderArena) (id ref words pointers size offset v high : ℕ) (r : Allocation)
    (a' : BuilderArena)
    → IsBuilt a id ref (words + pointers) struct_kind high r a'
    → (offset + 1) * (8 * size) ≤ 64 * words
    → IsBuilt a id ref
        (words + pointers)
        struct_kind
        high
        r
        (set_data_field (struct_at r words pointers) size offset v a')
unfolding set_data_field
set_data_field-IsBuilt a id ref words pointers size offset v high r a' built within =
    let fits = field_fits offset size words pointers within in
    let len = length-value_bytes size v in
    copy_memory-IsBuilt a id ref (words + pointers) struct_kind high (8 * r.pos + offset * size) r
      (value_bytes size v) a' built (omega arith) (omega arith)

-- A word that is a pointer is output.
IsLinked-there :
    (message : List Segment) (id ref k high : ℕ) (r : Allocation)
    → (linked : IsLinked message id ref k high r)
    → ((r.id ≡ id) × (r.ref ≡ ref))
      ⊎ ((far : Word) × (get_word message id ref ≡ some far)
          × (kind far ≡ far_kind)
          × (is_double_far far ≡ false)
          × (far.high ≡ r.id)
          × (far_target (segment_length message r.id) far ≡ r.ref))
    → (x : Word) × (get_word message id ref ≡ some x)
IsLinked-there message id ref k high r linked (inl (same_id, same_ref)) = (
  linked.tag,
  subst (λ i. get_word message i ref ≡ some linked.tag) same_id
      (subst (λ p. get_word message r.id p ≡ some linked.tag) same_ref linked.tagged),
)
IsLinked-there message id ref k high r linked (inr (far, there, is_far, single, leads, pad)) =
    (far, there)

pub written_struct :
    (a : BuilderArena) (fuel id ref words pointers size offset v depth limit : ℕ) (w : Word)
    → IsArena a
    → length (get_segments_for_output a) < 2 ^ 32
    → get_word (get_segments_for_output a) id ref ≡ some w
    → is_null w ≡ true
    → words < 2 ^ 16
    → pointers < 2 ^ 16
    → (offset + 1) * (8 * size) ≤ 64 * words
    → v < 256 ^ size
    → words + pointers ≤ limit
    → (b : StructBuilder) × (a1 : BuilderArena) × (left : ℕ) × (init_struct fuel id ref words
          pointers a
        ≡ some (b, a1))
      × IsArena (set_data_field b size offset v a1)
      × (get_struct
            (get_segments_for_output (set_data_field b size offset v a1))
            (pointer_at
              (segment_of (get_segments_for_output (set_data_field b size offset v a1)) id)
              ref
              (1 + depth))
            (1 + limit)
          ≡ value
              (some (
                struct_reader
                  (get_segments_for_output (set_data_field b size offset v a1))
                  depth
                  b))
              left)
      × (get_data_field
            (struct_reader (get_segments_for_output (set_data_field b size offset v a1)) depth b)
            size
            offset
            left
          ≡ value v left)
      × ((x : Word) × (get_word (get_segments_for_output (set_data_field b size offset v a1)) id ref
            ≡ some x))
written_struct a fuel id ref words pointers size offset v depth limit w valid few here null
      few_words few_pointers within fits enough =
    let (r, e, made) =
      init_struct-IsMade a fuel id ref words pointers w valid few here null few_words
        few_pointers in
    let high = set_struct words pointers in
    let b = struct_at r words pointers in
    let a1 = (finish high r).arena in
    let inside = made.reached.inside in
    let built =
      set_data_field-IsBuilt a id ref words pointers size offset v high r a1
        (IsMade-IsBuilt a id ref (words + pointers) struct_kind high r made) within in
    let (left, read) =
      get_struct-IsBuilt a id ref words pointers depth limit r (set_data_field b size offset v a1)
        few_words few_pointers enough built in
    let (valid', field) =
      get_data_field-set_data_field a1 b size offset v depth left made.arena (omega arith) within
        fits in
    (
      b,
      a1,
      left,
      e,
      valid',
      read,
      field,
      IsLinked-there (get_segments_for_output (set_data_field b size offset v a1)) id ref
          struct_kind high r built.reached.linked built.reached.linked.from,
    )

-- From writer to reader: for a null pointer of a well-formed arena with less than 2^32 segments,
-- `initStructPointer` makes a struct with less than 2^16 words of data and of pointers each, and
-- `setDataField` stores into it a number that fits its size, inside of its data. The message that
-- the arena then outputs is read, from the pointer with a nesting limit above 0 and within the
-- traversal limit of the words of the struct and one more, as the struct of the builder, and its
-- field as that number. The arena is well-formed again.
pub get_struct-set_data_field :
    (a : BuilderArena) (fuel id ref words pointers size offset v depth limit : ℕ) (w : Word)
    → IsArena a
    → length (get_segments_for_output a) < 2 ^ 32
    → get_word (get_segments_for_output a) id ref ≡ some w
    → is_null w ≡ true
    → words < 2 ^ 16
    → pointers < 2 ^ 16
    → (offset + 1) * (8 * size) ≤ 64 * words
    → v < 256 ^ size
    → words + pointers ≤ limit
    → (b : StructBuilder) × (a1 : BuilderArena) × (left : ℕ) × (init_struct fuel id ref words
          pointers a
        ≡ some (b, a1))
      × IsArena (set_data_field b size offset v a1)
      × (get_struct
            (get_segments_for_output (set_data_field b size offset v a1))
            (pointer_at
              (segment_of (get_segments_for_output (set_data_field b size offset v a1)) id)
              ref
              (1 + depth))
            (1 + limit)
          ≡ value
              (some (
                struct_reader
                  (get_segments_for_output (set_data_field b size offset v a1))
                  depth
                  b))
              left)
      × (get_data_field
            (struct_reader (get_segments_for_output (set_data_field b size offset v a1)) depth b)
            size
            offset
            left
          ≡ value v left)
get_struct-set_data_field a fuel id ref words pointers size offset v depth limit w valid few here
      null few_words few_pointers within fits enough =
    let (b, a1, left, e, valid', read, field, (x, there)) =
      written_struct a fuel id ref words pointers size offset v depth limit w valid few here null
        few_words few_pointers within fits enough in
    (b, a1, left, e, valid', read, field)
