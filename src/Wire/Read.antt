-- ===== src/Wire/Read.antt =====
-- Readers of structs, lists and blobs: `readStructPointer`, `readListPointer`, `readTextPointer` and
-- `readDataPointer` of capnproto/c++/src/capnp/layout.c++, and the readers' accessors of layout.h. A
-- result `none` is the default value, which the code takes from the program and not from the message.
pub mod Access
pub mod Bytes
pub mod Fits
pub mod Found
pub mod Paid
pub mod Laws
pub mod Lists
pub mod Reach
use capnp_import.Common.{
  ℕ, ◌+◌, ◌-◌, ◌*◌, ◌/◌, ◌%◌, List, length, Bool, true, false, not, ◌==◌, ◌&&◌, ltb, leb,
  if◌then◌else◌, Option, none, some,
}
use capnp_import.Serialize.{Word, Segment}
use capnp_import.Wire.{
  Reads, Error, fault, too_deep, not_struct, not_list, struct_out_of_bounds, list_out_of_bounds,
  bad_tag, elements_overrun, incompatible, ◌>>=◌, ◌>>◌, pure, fail, require,
}
use capnp_import.Wire.Pointer.{
  kind, struct_kind, list_kind, is_null, target, data_size, ptr_count, word_size, element_size,
  element_count, inline_composite_list_element_count, data_bits_per_element, pointers_per_element,
  void_element, bit_element, pointer_element, inline_composite_element,
}
use capnp_import.Wire.Segment.{can_read, check_object, load}
use capnp_import.Wire.Fars.{Place, follow_fars}
use capnp_import.Wire.Size.{round_bits_up_to_words}

-- Addresses are in bytes from the start of the segment, sizes of data in bits.
pub record PointerReader : Type 0 where
  pub segment : Segment
  pub address : ℕ
  pub nesting_limit : ℕ

pub record StructReader : Type 0 where
  pub segment : Segment
  pub address : ℕ
  pub pointers : ℕ
  pub data_bits : ℕ
  pub pointer_count : ℕ
  pub nesting_limit : ℕ

pub record ListReader : Type 0 where
  pub segment : Segment
  pub address : ℕ
  pub count : ℕ
  pub step : ℕ
  pub data_bits : ℕ
  pub pointer_count : ℕ
  pub element : ℕ
  pub nesting_limit : ℕ

-- A pointer at an address, which must be a word's.
unfoldable pub load_pointer : Segment → ℕ → Reads Word
load_pointer segment address =
    if address % 8 == 0 then load segment (address / 8) else (λ limit. fault)

-- The target of the pointer of a reader, if it is in the same segment.
abbrev pub own_target : PointerReader → Word → ℕ
own_target r ref = target (length r.segment) (r.address / 8) ref

unfoldable pub read_struct_at : ℕ → Place → Reads (Option StructReader)
read_struct_at nesting_limit p = do
  require (kind p.ref == struct_kind) not_struct
  inside ← check_object p.segment p.pos (word_size p.ref)
  require inside struct_out_of_bounds
  pure (
      some (record {
        segment = p.segment;
        address = 8 * p.pos;
        pointers = 8 * (p.pos + data_size p.ref);
        data_bits = 64 * data_size p.ref;
        pointer_count = ptr_count p.ref;
        nesting_limit = nesting_limit - 1;
      }))

-- `PointerReader::getStruct`
unfoldable pub get_struct : List Segment → PointerReader → Reads (Option StructReader)
unfolding read_struct_at load_pointer
get_struct message r = do
  ref ← load_pointer r.segment r.address
  let follow = (do
    require (ltb 0 r.nesting_limit) too_deep
    p ← follow_fars message r.segment ref (own_target r ref)
    read_struct_at r.nesting_limit p)
  if is_null ref then pure none else follow

-- Whether elements of a struct list may stand for the expected ones.
abbrev pub composite_fits : ℕ → Word → Bool
composite_fits expected tag =
    if expected == void_element
    then true
    else if expected == bit_element
    then false
    else if expected == pointer_element
    then ltb 0 (ptr_count tag)
    else if expected == inline_composite_element
    then true
    else ltb 0 (data_size tag)

-- Whether elements of another list may.
abbrev pub element_fits : ℕ → ℕ → Bool
element_fits expected size =
    not (size == bit_element && not (expected == bit_element))
    && leb (data_bits_per_element expected) (data_bits_per_element size)
    && leb (pointers_per_element expected) (pointers_per_element size)

-- Elements that take no words are taken from the limit one by one.
abbrev pub charge_if : Bool → ℕ → Reads (Unit {0})
charge_if free n = if free then can_read n else pure tt

read_composite_list : ℕ → Bool → ℕ → Place → Reads (Option ListReader)
read_composite_list expected check nesting_limit p = do
  inside ← check_object p.segment p.pos (element_count p.ref + 1)
  require inside list_out_of_bounds
  tag ← load p.segment p.pos
  require (kind tag == struct_kind) bad_tag
  let count = inline_composite_list_element_count tag
  require (leb (count * word_size tag) (element_count p.ref)) elements_overrun
  charge_if (word_size tag == 0) count
  require (if check then composite_fits expected tag else true) incompatible
  pure (
      some (record {
        segment = p.segment;
        address = 8 * (p.pos + 1);
        count = count;
        step = 64 * word_size tag;
        data_bits = 64 * data_size tag;
        pointer_count = ptr_count tag;
        element = inline_composite_element;
        nesting_limit = nesting_limit - 1;
      }))

abbrev pub step_bits : ℕ → ℕ
step_bits size = data_bits_per_element size + 64 * pointers_per_element size

read_plain_list : ℕ → Bool → ℕ → Place → Reads (Option ListReader)
read_plain_list expected check nesting_limit p = do
  let size = element_size p.ref
  let total = round_bits_up_to_words (element_count p.ref * step_bits size)
  inside ← check_object p.segment p.pos total
  require inside list_out_of_bounds
  charge_if (size == void_element) (element_count p.ref)
  require (if check then element_fits expected size else true) incompatible
  pure (
      some (record {
        segment = p.segment;
        address = 8 * p.pos;
        count = element_count p.ref;
        step = step_bits size;
        data_bits = data_bits_per_element size;
        pointer_count = pointers_per_element size;
        element = size;
        nesting_limit = nesting_limit - 1;
      }))

pub read_list_at : ℕ → Bool → ℕ → Place → Reads (Option ListReader)
unfolding read_composite_list read_plain_list
read_list_at expected check nesting_limit p = do
  require (kind p.ref == list_kind) not_list
  if element_size p.ref == inline_composite_element
      then read_composite_list expected check nesting_limit p
      else read_plain_list expected check nesting_limit p

-- `PointerReader::getList`, and `getListAnySize` without the check of the elements.
pub get_list : List Segment → ℕ → Bool → PointerReader → Reads (Option ListReader)
unfolding read_list_at load_pointer
get_list message expected check r = do
  ref ← load_pointer r.segment r.address
  let follow = (do
    require (ltb 0 r.nesting_limit) too_deep
    p ← follow_fars message r.segment ref (own_target r ref)
    read_list_at expected check r.nesting_limit p)
  if is_null ref then pure none else follow
