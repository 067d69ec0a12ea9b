-- ===== src/Build/Objects.antt =====
-- New objects of a message: `allocate`, `initStructPointer`, `initListPointer`,
-- `initStructListPointer`, `initTextPointer` and `initDataPointer` of
-- capnproto/c++/src/capnp/layout.c++, for objects that are no orphans.
pub mod Placed
pub mod Near
pub mod Far
pub mod Laws
pub mod Reached
pub mod Found
pub mod Built
pub mod Structs
pub mod Lists
pub mod Blobs
pub mod StructLists
use capnp_import.Common.{
  ℕ, ◌+◌, ◌-◌, ◌*◌, ◌/◌, ◌%◌, ◌^◌, List, Bool, true, false, ◌==◌, ◌&&◌, ltb, leb, if◌then◌else◌,
  Option, none, some,
}
use capnp_import.Serialize.{Word, Segment}
use capnp_import.Wire.Pointer.{
  struct_kind, list_kind, is_null, byte_element, inline_composite_element, data_bits_per_element,
  pointers_per_element, set_kind_and_target, set_kind_and_target_for_empty_struct, set_far,
  set_struct, set_list, set_tag,
}
use capnp_import.Wire.Size.{round_bits_up_to_words}
use capnp_import.Wire.Read.{step_bits, StructReader, ListReader}
use capnp_import.Wire.Read.Bytes.{round_bytes_up_to_words, Blob}
use capnp_import.Build.{BuilderArena, max_segment_words, and_then, allocate_in, allocate}
use capnp_import.Build.Memory.{read_word, set_low, set_high, set_word, segment_of}
use capnp_import.Build.Zero.{zero_object}

-- The pointer that needs its sizes, the object, and the segment of both.
pub record Allocation : Type 0 where
  pub id : ℕ
  pub ref : ℕ
  pub pos : ℕ
  pub arena : BuilderArena

-- In a new place of the arena, behind a landing pad. An `amount` has 29 bits, so that the sum with
-- one, a 32-bit number, does not wrap around.
pub allocate_far : ℕ → ℕ → ℕ → ℕ → BuilderArena → Option Allocation
allocate_far id ref amount kind a =
    if leb (amount + 1) max_segment_words
    then and_then (allocate (amount + 1) a) (λ (id', pos, a'). some (record {
      id = id';
      ref = pos;
      pos = pos + 1;
      arena =
          set_low id' pos (set_kind_and_target kind pos (pos + 1))
            (set_word id ref (record { low = set_far false pos; high = id' % 2 ^ 32 }) a');
    }))
    else none

-- In the segment of the pointer, if it has the space.
abbrev pub place_object :
    ℕ → ℕ → ℕ → ℕ → BuilderArena → Option (ℕ × ℕ × BuilderArena) → Option Allocation
place_object id ref amount kind a (some (id', pos, a')) = some (record {
  id = id;
  ref = ref;
  pos = pos;
  arena = set_low id ref (set_kind_and_target kind ref pos) a';
})
place_object id ref amount kind a none = allocate_far id ref amount kind a

abbrev pub allocate_space : ℕ → ℕ → ℕ → ℕ → BuilderArena → Option Allocation
allocate_space id ref amount kind a = place_object id ref amount kind a (allocate_in amount id a)

abbrev pub clear_old : ℕ → ℕ → ℕ → Word → BuilderArena → Option BuilderArena
clear_old fuel id ref w a = if is_null w then some a else zero_object fuel id ref a

-- `WireHelpers::allocate` for the pointer in the word `ref` of the segment `id`.
pub allocate_object : ℕ → ℕ → ℕ → ℕ → ℕ → BuilderArena → Option Allocation
unfolding allocate_far
allocate_object fuel id ref amount kind a = and_then (read_word a id ref) λ w.
    and_then (clear_old fuel id ref w a) λ a'.
      if amount == 0 && kind == struct_kind
      then some (record {
        id = id;
        ref = ref;
        pos = ref;
        arena = set_low id ref set_kind_and_target_for_empty_struct a';
      })
      else allocate_space id ref amount kind a'

-- The pointer gets its sizes.
abbrev pub finish : ℕ → Allocation → Allocation
finish high r = record r { arena = set_high r.id r.ref high r.arena }

pub record StructBuilder : Type 0 where
  pub id : ℕ
  pub address : ℕ
  pub pointers : ℕ
  pub data_bits : ℕ
  pub pointer_count : ℕ

pub record ListBuilder : Type 0 where
  pub id : ℕ
  pub address : ℕ
  pub step : ℕ
  pub count : ℕ
  pub data_bits : ℕ
  pub pointer_count : ℕ
  pub element : ℕ

-- `initStructPointer`
pub init_struct : ℕ → ℕ → ℕ → ℕ → ℕ → BuilderArena → Option (StructBuilder × BuilderArena)
unfolding allocate_object
init_struct fuel id ref words pointers a =
    and_then (allocate_object fuel id ref (words + pointers) struct_kind a) λ r. some (
      record {
        id = r.id;
        address = 8 * r.pos;
        pointers = 8 * (r.pos + words);
        data_bits = 64 * words;
        pointer_count = pointers;
      },
      (finish (set_struct words pointers) r).arena,
    )

-- `StructBuilder::asReader`, with the segment that the message outputs.
abbrev pub struct_reader : List Segment → ℕ → StructBuilder → StructReader
struct_reader message depth b = record {
  segment = segment_of message b.id;
  address = b.address;
  pointers = b.pointers;
  data_bits = b.data_bits;
  pointer_count = b.pointer_count;
  nesting_limit = depth;
}

-- `ListBuilder::asReader`
abbrev pub list_reader : List Segment → ℕ → ListBuilder → ListReader
list_reader message depth b = record {
  segment = segment_of message b.id;
  address = b.address;
  count = b.count;
  step = b.step;
  data_bits = b.data_bits;
  pointer_count = b.pointer_count;
  element = b.element;
  nesting_limit = depth;
}

-- `initListPointer`, for elements that are no structs.
pub init_list : ℕ → ℕ → ℕ → ℕ → ℕ → BuilderArena → Option (ListBuilder × BuilderArena)
unfolding allocate_object
init_list fuel id ref count size a =
    if leb count (2 ^ 29 - 1)
    then and_then
        (allocate_object fuel id ref (round_bits_up_to_words (count * step_bits size)) list_kind a)
        (λ r. some (
          record {
            id = r.id;
            address = 8 * r.pos;
            step = step_bits size;
            count = count;
            data_bits = data_bits_per_element size;
            pointer_count = pointers_per_element size;
            element = size;
          },
          (finish (set_list size count) r).arena,
        ))
    else none

-- `initStructListPointer`
pub init_struct_list : ℕ → ℕ → ℕ → ℕ → ℕ → ℕ → BuilderArena → Option (ListBuilder × BuilderArena)
unfolding allocate_object
init_struct_list fuel id ref count words pointers a =
    let total = count * (words + pointers) in
    if leb count (2 ^ 29 - 1) && leb total (max_segment_words - 1)
    then and_then (allocate_object fuel id ref (1 + total) list_kind a) (λ r. some (
      record {
        id = r.id;
        address = 8 * (r.pos + 1);
        step = 64 * (words + pointers);
        count = count;
        data_bits = 64 * words;
        pointer_count = pointers;
        element = inline_composite_element;
      },
      set_word r.id r.pos
          (record { low = set_tag struct_kind count; high = set_struct words pointers })
          (finish (set_list inline_composite_element total) r).arena,
    ))
    else none

pub record BlobBuilder : Type 0 where
  pub id : ℕ
  pub address : ℕ
  pub size : ℕ

-- `Text::Builder::asReader` and `Data::Builder::asReader`
abbrev pub blob_reader : List Segment → BlobBuilder → Blob
blob_reader message b = record {
  segment = segment_of message b.id;
  address = b.address;
  size = b.size;
}

-- `initTextPointer`: the NUL behind the text is zero already.
pub init_text : ℕ → ℕ → ℕ → ℕ → BuilderArena → Option (BlobBuilder × BuilderArena)
unfolding allocate_object
init_text fuel id ref size a =
    and_then (allocate_object fuel id ref (round_bytes_up_to_words (size + 1)) list_kind a) λ r.
      some (
        record { id = r.id; address = 8 * r.pos; size = size },
        (finish (set_list byte_element (size + 1)) r).arena,
      )

-- `initDataPointer`
pub init_data : ℕ → ℕ → ℕ → ℕ → BuilderArena → Option (BlobBuilder × BuilderArena)
unfolding allocate_object
init_data fuel id ref size a =
    and_then (allocate_object fuel id ref (round_bytes_up_to_words size) list_kind a) λ r. some (
      record { id = r.id; address = 8 * r.pos; size = size },
      (finish (set_list byte_element size) r).arena,
    )
