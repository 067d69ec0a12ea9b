-- ===== src/Wire/Read/Access.antt =====
-- The root of a message, and the accessors of `StructReader` and `ListReader` of
-- capnproto/c++/src/capnp/layout.c++ and layout.h.
pub mod Laws
pub mod Roots
use capnp_import.Common.{
  ℕ, ◌+◌, ◌-◌, ◌*◌, ◌/◌, List, Bool, true, false, ltb, if◌then◌else◌, Option, none, some, ◌==◌,
}
use capnp_import.Serialize.{Word, Segment}
use capnp_import.Wire.{
  Reads, too_deep, far_out_of_bounds, no_root, unexpected_far, unknown_pointer, ◌>>=◌, ◌>>◌, pure,
  fail, require,
}
use capnp_import.Wire.Pointer.{kind, far_kind, struct_kind, list_kind, is_null, is_capability}
use capnp_import.Wire.Segment.{check_object, get_segment}
use capnp_import.Wire.Fars.{Place, follow_fars}
use capnp_import.Wire.Size.{Counts, total_size}
use capnp_import.Wire.Read.{PointerReader, StructReader, ListReader, load_pointer, own_target}

-- `PointerReader::getRoot` of the word `location`.
unfoldable pub get_root : Segment → ℕ → ℕ → Reads PointerReader
get_root segment location nesting_limit = do
  inside ← check_object segment location 1
  require inside far_out_of_bounds
  pure (record { segment = segment; address = 8 * location; nesting_limit = nesting_limit })

-- `MessageReader::getRootInternal` of message.c++.
unfoldable pub get_root_internal : List Segment → ℕ → Reads PointerReader
unfolding get_root
get_root_internal message nesting_limit = do
  segment ← get_segment message 0 no_root
  inside ← check_object segment 0 1
  require inside no_root
  get_root segment 0 nesting_limit

-- `PointerReader::targetSize`
pub target_size : List Segment → PointerReader → Reads Counts
target_size message r = total_size message r.nesting_limit r.segment (r.address / 8)

-- `PointerType`
pub data PointerType : Type 0 where
  null_type struct_type list_type capability_type : PointerType

abbrev type_of : Word → Reads PointerType
type_of ref =
    if kind ref == far_kind
    then fail unexpected_far
    else if kind ref == struct_kind
    then pure struct_type
    else if kind ref == list_kind
    then pure list_type
    else require (is_capability ref) unknown_pointer >> pure capability_type

-- `PointerReader::getPointerType`
pub get_pointer_type : List Segment → PointerReader → Reads PointerType
unfolding load_pointer
get_pointer_type message r = do
  ref ← load_pointer r.segment r.address
  let follow = (do p ← follow_fars message r.segment ref (own_target r ref); type_of p.ref)
  if is_null ref then pure null_type else follow

-- `StructReader::getPointerField`, with `none` the null pointer.
unfoldable pub get_pointer_field : StructReader → ℕ → Option PointerReader
get_pointer_field r index =
    if ltb index r.pointer_count
    then some (record {
      segment = r.segment;
      address = r.pointers + 8 * index;
      nesting_limit = r.nesting_limit;
    })
    else none

-- `ListReader::getPointerElement`
pub get_pointer_element : ListReader → ℕ → PointerReader
get_pointer_element r index = record {
  segment = r.segment;
  address = r.address + r.data_bits / 8 + index * r.step / 8;
  nesting_limit = r.nesting_limit;
}

-- `ListReader::getStructElement`
pub get_struct_element : ListReader → ℕ → Reads StructReader
get_struct_element r index = do
  require (ltb 0 r.nesting_limit) too_deep
  let address = r.address + index * r.step / 8
  pure (record {
    segment = r.segment;
    address = address;
    pointers = address + r.data_bits / 8;
    data_bits = r.data_bits;
    pointer_count = r.pointer_count;
    nesting_limit = r.nesting_limit - 1;
  })
