-- ===== src/Build/Fields/Laws.antt =====
-- Numbers of structs and lists that are set, as they are read.
use capnp_import.Common.{
  ℕ, ◌+◌, ◌*◌, ◌/◌, ◌%◌, ◌^◌, ◌≤◌, ◌<◌, ◌≡◌, ◌⊎◌, length, true, leb, some, refl, ap, ◌∙◌, arith,
  Bool-cases, inl, inr,
}
use capnp_import.Wire.{value}
use capnp_import.Wire.Read.Bytes.{byte_of, get_data_field, get_data_element, load_value}
use capnp_import.Build.{BuilderArena, and_then, get_segments_for_output}
use capnp_import.Build.Laws.{IsArena}
use capnp_import.Build.Memory.{segment_length, segment_of}
use capnp_import.Build.Objects.{StructBuilder, ListBuilder, struct_reader, list_reader}
use capnp_import.Build.Objects.Built.{get_word_exists}
use capnp_import.Build.Copy.{copy_memory}
use capnp_import.Build.Copy.Laws.{
  get_byte, get_byte-poke_bytes_other, get_segments_for_output-copy_memory, copy_memory-IsArena,
}
use capnp_import.Build.Fields.{value_bytes, set_data_field, set_data_element}
use capnp_import.Build.Fields.Stored.{
  length-value_bytes, value_bytes-All, load_value-poke_bytes, load_value_same,
}

-- A number that is copied into the message.
module _ (a : BuilderArena) (id address size v : ℕ)
    (inside : address + size ≤ 8 * segment_length (get_segments_for_output a) id) where
  abbrev stored : BuilderArena
  stored = copy_memory id address (value_bytes size v) a

  stored-IsArena : IsArena a → IsArena stored
  stored-IsArena valid =
      let len = length-value_bytes size v in
      copy_memory-IsArena id address (value_bytes size v) a valid (omega arith)

  stored_value :
      (limit : ℕ)
      → v < 256 ^ size
      → load_value (segment_of (get_segments_for_output stored) id) size address limit
        ≡ value v limit
  stored_value limit fits =
      ap (λ m. load_value (segment_of m id) size address limit)
        (get_segments_for_output-copy_memory id address (value_bytes size v) a)
      ∙ load_value-poke_bytes (get_segments_for_output a) id address size v limit fits inside

  stored_other :
      (address' size' limit : ℕ)
      → address' + size' ≤ 8 * segment_length (get_segments_for_output a) id
      → (address' + size' ≤ address) ⊎ (address + size ≤ address')
      → load_value (segment_of (get_segments_for_output stored) id) size' address' limit
        ≡ load_value (segment_of (get_segments_for_output a) id) size' address' limit
  stored_other address' size' limit within apart =
      let message = get_segments_for_output a in
      let len = length-value_bytes size v in
      let bytes = value_bytes size v in
      let e = get_segments_for_output-copy_memory id address bytes a in
      load_value_same message (get_segments_for_output stored) id size' address' limit (λ i h.
        let (w, there) = get_word_exists message id ((address' + i) / 8) (omega arith) in
        let old : get_byte message id (address' + i) ≡ some (byte_of w ((address' + i) % 8)) =
          ap (λ o. and_then o (λ w. some (byte_of w ((address' + i) % 8)))) there in
        (
          byte_of w ((address' + i) % 8),
          old,
          ap (λ m. get_byte m id (address' + i)) e
              ∙ get_byte-poke_bytes_other message id address bytes (address' + i)
                  (value_bytes-All size v) (omega arith) (shift len i h apart)
              ∙ old,
        ))
    where
      shift :
          length (value_bytes size v) ≡ size
          → (i : ℕ) → i < size'
          → (address' + size' ≤ address) ⊎ (address + size ≤ address')
          → (address' + i < address) ⊎ (address + length (value_bytes size v) ≤ address' + i)
      shift len i h (inl before) = inl (omega arith)
      shift len i h (inr behind) = inr (omega arith)

field_end :
    (address size offset bits len : ℕ)
    → (offset + 1) * (8 * size) ≤ bits
    → 8 * address + bits ≤ 64 * len
    → address + offset * size + size ≤ 8 * len
field_end address size offset bits len h inside = grind arith

-- In a well-formed arena with a struct that is inside of what its segment outputs, a number that
-- `setDataField` stores into the data of the struct, and that fits its size, is read by
-- `getDataField`; the arena is well-formed again.
pub get_data_field-set_data_field :
    (a : BuilderArena) (b : StructBuilder) (size offset v depth limit : ℕ)
    → IsArena a
    → 8 * b.address + b.data_bits ≤ 64 * segment_length (get_segments_for_output a) b.id
    → (offset + 1) * (8 * size) ≤ b.data_bits
    → v < 256 ^ size
    → IsArena (set_data_field b size offset v a)
      × (get_data_field
            (struct_reader (get_segments_for_output (set_data_field b size offset v a)) depth b)
            size
            offset
            limit
          ≡ value v limit)
unfolding set_data_field get_data_field
get_data_field-set_data_field a b size offset v depth limit valid inside within fits =
    let len = segment_length (get_segments_for_output a) b.id in
    let end = field_end b.address size offset b.data_bits len within inside in
    let reads : leb ((offset + 1) * (8 * size)) b.data_bits ≡ true = ground arith in
    (
      stored-IsArena a b.id (b.address + offset * size) size v end valid,
      rw reads (stored_value a b.id (b.address + offset * size) size v end limit fits),
    )

-- In an arena with a struct that is inside of what its segment outputs, a `setDataField` inside of its
-- data changes no other number that `getDataField` reads of it, of any size, in its data or behind it,
-- that does not overlap it.
pub get_data_field-set_data_field_other :
    (a : BuilderArena) (b : StructBuilder) (size offset v size' offset' depth limit : ℕ)
    → 8 * b.address + b.data_bits ≤ 64 * segment_length (get_segments_for_output a) b.id
    → (offset + 1) * (8 * size) ≤ b.data_bits
    → (offset' * size' + size' ≤ offset * size) ⊎ (offset * size + size ≤ offset' * size')
    → get_data_field
        (struct_reader (get_segments_for_output (set_data_field b size offset v a)) depth b)
        size'
        offset'
        limit
      ≡ get_data_field (struct_reader (get_segments_for_output a) depth b) size' offset' limit
unfolding set_data_field get_data_field
get_data_field-set_data_field_other a b size offset v size' offset' depth limit inside within
      apart =
    elim (Bool-cases (leb ((offset' + 1) * (8 * size')) b.data_bits)) [
      | inr beyond ↦ rw beyond refl
      | inl reads ↦
          let len = segment_length (get_segments_for_output a) b.id in
          let end = field_end b.address size offset b.data_bits len within inside in
          let within' : (offset' + 1) * (8 * size') ≤ b.data_bits = ground (arith, reads) in
          let end' = field_end b.address size' offset' b.data_bits len within' inside in
          rw reads (
            stored_other a b.id (b.address + offset * size) size v end (b.address + offset' * size')
              size' limit end' (shift apart))
    ]
  where
    shift :
        (offset' * size' + size' ≤ offset * size) ⊎ (offset * size + size ≤ offset' * size')
        → (b.address + offset' * size' + size' ≤ b.address + offset * size)
          ⊎ (b.address + offset * size + size ≤ b.address + offset' * size')
    shift (inl before) = inl (omega arith)
    shift (inr behind) = inr (omega arith)

element_end :
    (address size index count step len : ℕ)
    → index < count
    → 8 * size ≤ step
    → 8 * address + count * step ≤ 64 * len
    → address + index * step / 8 + size ≤ 8 * len
element_end address size index count step len h wide inside =
    let most : index * step + step ≤ count * step = grind arith in omega arith

-- In a well-formed arena with a list that is inside of what its segment outputs, a number that
-- `setDataElement` stores as one of its elements, which are at least as wide, and that fits its size,
-- is read by `getDataElement`; the arena is well-formed again.
pub get_data_element-set_data_element :
    (a : BuilderArena) (l : ListBuilder) (size index v depth limit : ℕ)
    → IsArena a
    → 8 * l.address + l.count * l.step ≤ 64 * segment_length (get_segments_for_output a) l.id
    → index < l.count
    → 8 * size ≤ l.step
    → v < 256 ^ size
    → IsArena (set_data_element l size index v a)
      × (get_data_element
            (list_reader (get_segments_for_output (set_data_element l size index v a)) depth l)
            size
            index
            limit
          ≡ value v limit)
unfolding set_data_element get_data_element
get_data_element-set_data_element a l size index v depth limit valid inside below wide fits =
    let len = segment_length (get_segments_for_output a) l.id in
    let end = element_end l.address size index l.count l.step len below wide inside in
    (
      stored-IsArena a l.id (l.address + index * l.step / 8) size v end valid,
      stored_value a l.id (l.address + index * l.step / 8) size v end limit fits,
    )
