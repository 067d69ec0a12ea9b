-- ===== src/Tests/Objects.antt =====
-- Objects of messages that are built.
use capnp_import.Common.{
  ℕ, none, ◌+◌, ◌*◌, ◌/◌, ◌^◌, ◌<◌, ◌≡◌, ◌≢◌, [], ◌∷◌, length, replicate, take, drop, true, false,
  refl, arith, some, inl, inr,
}
use capnp_import.Serialize.{Word}
use capnp_import.Wire.{value}
use capnp_import.Wire.Pointer.{inline_composite_element}
use capnp_import.Wire.Size.{round_bits_up_to_words}
use capnp_import.Wire.Read.{get_struct, get_list, step_bits}
use capnp_import.Wire.Read.Access.{get_root_internal}
use capnp_import.Wire.Read.Bytes.{get_data_field, get_data_element, get_text, get_data}
use capnp_import.Wire.Read.Found.{pointer_at}
use capnp_import.Build.{
  Malloc, SegmentBuilder, get_root_segment, zero_word, BuilderArena, get_segments_for_output,
}
use capnp_import.Build.Laws.{IsArena}
use capnp_import.Build.Memory.{get_word, read_word, segment_of, segment_length}
use capnp_import.Build.Caps.{inject_cap, extract_cap, drop_cap}
use capnp_import.Build.Caps.Laws.{extract_cap-inject_cap}
use capnp_import.Build.Zero.{zero_object}
use capnp_import.Build.Zero.Laws.{zero_object-overwritten}
use capnp_import.Build.Objects.{
  StructBuilder, ListBuilder, BlobBuilder, struct_reader, list_reader, blob_reader, init_struct,
  init_list, init_struct_list,
}
use capnp_import.Build.Objects.Structs.{get_struct-init_struct}
use capnp_import.Build.Objects.Lists.{get_list-init_list}
use capnp_import.Build.Objects.StructLists.{get_list-init_struct_list}
use capnp_import.Build.Copy.{set_text, set_data, blob_bytes}
use capnp_import.Build.Copy.Blobs.{get_text-set_text, get_data-set_data, get_word-set_text}
use capnp_import.Build.Fields.{set_data_field, set_data_element}
use capnp_import.Build.Fields.Laws.{
  get_data_field-set_data_field_other, get_data_element-set_data_element,
}
use capnp_import.Build.Fields.Structs.{get_struct-set_data_field}
use capnp_import.Build.Whole.{get_root_internal-set_data_field}

-- A segment with a null root pointer, a second word and one free word: what is allocated next is in a
-- new segment, behind a landing pad.
abbrev start : BuilderArena
start = record {
  message = record { next_size = 3; grows = true; returned_first_segment = true };
  segments =
      record { words = zero_word ∷ record { low = 5; high = 6 } ∷ zero_word ∷ []; pos = 2 } ∷ [];
  segment_with_space = some 0;
  cap_table = [];
}

start_valid : IsArena start
start_valid = (((omega arith, omega arith, refl), tt), omega arith)

start_few : length (get_segments_for_output start) < 2 ^ 32
unfolding get_segments_for_output
start_few = omega arith

start_root : get_word (get_segments_for_output start) 0 0 ≡ some zero_word
unfolding get_segments_for_output
start_root = refl

start_second : get_word (get_segments_for_output start) 0 1 ≡ some (record { low = 5; high = 6 })
unfolding get_segments_for_output
start_second = refl

start_length : segment_length (get_segments_for_output start) 0 ≡ 2
unfolding get_segments_for_output
start_length = refl

abbrev fresh : Malloc
fresh = record { next_size = 4; grows = false; returned_first_segment = false }

get_root_internal-set_data_field_example :
    (a : BuilderArena) × (b : StructBuilder) × (a1 : BuilderArena) × (left : ℕ) × (get_root_segment
        fresh
      ≡ some a)
    × (init_struct 0 0 0 1 2 a ≡ some (b, a1))
    × (get_root_internal (get_segments_for_output (set_data_field b 4 1 77 a1)) (1 + 63) (3 + 8)
        ≡ value
            (pointer_at
              (segment_of (get_segments_for_output (set_data_field b 4 1 77 a1)) 0)
              0
              (1 + 63))
            (1 + 8))
    × (get_struct
          (get_segments_for_output (set_data_field b 4 1 77 a1))
          (pointer_at
            (segment_of (get_segments_for_output (set_data_field b 4 1 77 a1)) 0)
            0
            (1 + 63))
          (1 + 8)
        ≡ value
            (some (struct_reader (get_segments_for_output (set_data_field b 4 1 77 a1)) 63 b))
            left)
    × (get_data_field
          (struct_reader (get_segments_for_output (set_data_field b 4 1 77 a1)) 63 b)
          4
          1
          left
        ≡ value 77 left)
get_root_internal-set_data_field_example =
    get_root_internal-set_data_field fresh 0 1 2 4 1 77 63 8 (omega arith) (omega arith)
      (omega arith) (omega arith) (omega arith) (omega arith)

get_struct-set_data_field_example :
    (b : StructBuilder) × (a1 : BuilderArena) × (left : ℕ) × (init_struct 0 0 0 2 1 start
      ≡ some (b, a1))
    × IsArena (set_data_field b 2 5 258 a1)
    × (get_struct
          (get_segments_for_output (set_data_field b 2 5 258 a1))
          (pointer_at
            (segment_of (get_segments_for_output (set_data_field b 2 5 258 a1)) 0)
            0
            (1 + 63))
          (1 + 8)
        ≡ value
            (some (struct_reader (get_segments_for_output (set_data_field b 2 5 258 a1)) 63 b))
            left)
    × (get_data_field
          (struct_reader (get_segments_for_output (set_data_field b 2 5 258 a1)) 63 b)
          2
          5
          left
        ≡ value 258 left)
get_struct-set_data_field_example =
    get_struct-set_data_field start 0 0 0 2 1 2 5 258 63 8 zero_word start_valid start_few
      start_root refl (omega arith) (omega arith) (omega arith) (omega arith) (omega arith)

get_text-set_text_example :
    (b : BlobBuilder) × (a' : BuilderArena) × (left : ℕ) × (set_text 0 0 0 (104 ∷ 105 ∷ []) start
      ≡ some (b, a'))
    × IsArena a'
    × (get_text
          (get_segments_for_output a')
          (pointer_at (segment_of (get_segments_for_output a') 0) 0 63)
          (1 + 8)
        ≡ value (some (blob_reader (get_segments_for_output a') b)) left)
    × (blob_bytes (blob_reader (get_segments_for_output a') b) left ≡ value (104 ∷ 105 ∷ []) left)
get_text-set_text_example =
    get_text-set_text start 0 0 0 63 8 (104 ∷ 105 ∷ []) zero_word start_valid start_few start_root
      refl (omega arith, (omega arith, tt)) (omega arith) (omega arith)

get_data-set_data_example :
    (b : BlobBuilder) × (a' : BuilderArena) × (left : ℕ) × (set_data 0 0 0 (104 ∷ 0 ∷ []) start
      ≡ some (b, a'))
    × IsArena a'
    × (get_data
          (get_segments_for_output a')
          (pointer_at (segment_of (get_segments_for_output a') 0) 0 63)
          (1 + 8)
        ≡ value (some (blob_reader (get_segments_for_output a') b)) left)
    × (blob_bytes (blob_reader (get_segments_for_output a') b) left ≡ value (104 ∷ 0 ∷ []) left)
get_data-set_data_example =
    get_data-set_data start 0 0 0 63 8 (104 ∷ 0 ∷ []) zero_word start_valid start_few start_root
      refl (omega arith, (omega arith, tt)) (omega arith) (omega arith)

get_word-set_text_example :
    (b : BlobBuilder) × (a' : BuilderArena) × (set_text 0 0 0 (104 ∷ 105 ∷ []) start ≡ some (b, a'))
    × (get_word (get_segments_for_output a') 0 1 ≡ some (record { low = 5; high = 6 }))
get_word-set_text_example =
    get_word-set_text start 0 0 0 0 1 (104 ∷ 105 ∷ []) zero_word (record { low = 5; high = 6 })
      start_valid start_few start_root refl (omega arith, (omega arith, tt)) (omega arith)
      start_second (inr (λ e. omega arith))

get_list-init_struct_list_example :
    (b : ListBuilder) × (a' : BuilderArena) × (left : ℕ) × (init_struct_list 0 0 0 3 1 1 start
      ≡ some (b, a'))
    × IsArena a'
    × (get_list
          (get_segments_for_output a')
          inline_composite_element
          true
          (pointer_at (segment_of (get_segments_for_output a') 0) 0 (1 + 63))
          (1 + 20)
        ≡ value (some (list_reader (get_segments_for_output a') 63 b)) left)
    × (take (3 * (1 + 1)) (drop (b.address / 8) (segment_of (get_segments_for_output a') b.id))
        ≡ replicate (3 * (1 + 1)) zero_word)
get_list-init_struct_list_example =
    get_list-init_struct_list start 0 0 0 3 1 1 63 20 true zero_word start_valid start_few
      start_root refl (omega arith) (omega arith) (omega arith) (omega arith) (omega arith)

get_list-init_list_example :
    (b : ListBuilder) × (a' : BuilderArena) × (left : ℕ) × (init_list 0 0 0 5 3 start
      ≡ some (b, a'))
    × IsArena a'
    × (get_list
          (get_segments_for_output a')
          3
          true
          (pointer_at (segment_of (get_segments_for_output a') 0) 0 (1 + 63))
          (1 + 20)
        ≡ value (some (list_reader (get_segments_for_output a') 63 b)) left)
    × (take
          (round_bits_up_to_words (5 * step_bits 3))
          (drop (b.address / 8) (segment_of (get_segments_for_output a') b.id))
        ≡ replicate (round_bits_up_to_words (5 * step_bits 3)) zero_word)
get_list-init_list_example =
    get_list-init_list start 0 0 0 3 5 63 20 true zero_word start_valid start_few start_root refl
      (omega arith) (omega arith) (omega arith) (omega arith)

get_struct-init_struct_example :
    (b : StructBuilder) × (a' : BuilderArena) × (left : ℕ) × (init_struct 0 0 0 1 2 start
      ≡ some (b, a'))
    × IsArena a'
    × (get_struct
          (get_segments_for_output a')
          (pointer_at (segment_of (get_segments_for_output a') 0) 0 (1 + 63))
          (1 + 8)
        ≡ value (some (struct_reader (get_segments_for_output a') 63 b)) left)
    × (take (1 + 2) (drop (b.address / 8) (segment_of (get_segments_for_output a') b.id))
        ≡ replicate (1 + 2) zero_word)
get_struct-init_struct_example =
    get_struct-init_struct start 0 0 0 1 2 63 8 zero_word start_valid start_few start_root refl
      (omega arith) (omega arith) (omega arith)

-- A struct of the two words.
abbrev two_words : StructBuilder
two_words = record { id = 0; address = 0; pointers = 16; data_bits = 128; pointer_count = 0 }

get_data_field-set_data_field_other_example :
    get_data_field
      (struct_reader (get_segments_for_output (set_data_field two_words 4 1 9 start)) 63 two_words)
      8
      1
      20
    ≡ get_data_field (struct_reader (get_segments_for_output start) 63 two_words) 8 1 20
get_data_field-set_data_field_other_example =
    get_data_field-set_data_field_other start two_words 4 1 9 8 1 63 20
      (omega (arith, start_length)) (omega arith) (inr (omega arith))

-- Their eight 16-bit numbers.
abbrev numbers : ListBuilder
numbers = record {
  id = 0;
  address = 0;
  step = 16;
  count = 8;
  data_bits = 16;
  pointer_count = 0;
  element = 3;
}

get_data_element-set_data_element_example :
    IsArena (set_data_element numbers 2 5 1000 start)
    × (get_data_element
          (list_reader
            (get_segments_for_output (set_data_element numbers 2 5 1000 start))
            63
            numbers)
          2
          5
          20
        ≡ value 1000 20)
get_data_element-set_data_element_example =
    get_data_element-set_data_element start numbers 2 5 1000 63 20 start_valid
      (omega (arith, start_length)) (omega arith) (omega arith) (omega arith)

one_other : 1 ≢ (inject_cap 7 start).0
unfolding inject_cap
one_other e = omega arith

extract_cap-inject_cap_example :
    (extract_cap (inject_cap 7 start).0 (inject_cap 7 start).1 ≡ some 7)
    × (extract_cap 1 (inject_cap 7 start).1 ≡ extract_cap 1 start)
    × ((a' : BuilderArena) × (drop_cap (inject_cap 7 start).0 (inject_cap 7 start).1 ≡ some a')
        × (extract_cap (inject_cap 7 start).0 a' ≡ none)
        × (extract_cap 1 a' ≡ extract_cap 1 start))
extract_cap-inject_cap_example = extract_cap-inject_cap start 7 1 one_other

-- A root pointer to a struct of a word and a null pointer, with another word behind it.
abbrev root_used : Word
root_used = record { low = 0; high = 0x10001 }

abbrev used_segment : SegmentBuilder
used_segment = record {
  words = root_used ∷ record { low = 5; high = 6 } ∷ zero_word ∷ record { low = 7; high = 8 } ∷ [];
  pos = 4;
}

abbrev used : BuilderArena
used = record start { segments = used_segment ∷ [] }

zero_object-overwritten_example :
    (a' : BuilderArena) × (zero_object 2 0 0 used ≡ some a')
    × IsArena a'
    × (read_word a' 0 1 ≡ some zero_word)
zero_object-overwritten_example =
    zero_object-overwritten 0 0 0 1 0 1 root_used (record { low = 5; high = 6 }) used_segment used
      (((omega arith, omega arith, refl), tt), omega arith) refl refl refl (inl (refl, (refl, tt)))
      (omega arith) refl
