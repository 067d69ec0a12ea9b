-- ===== src/Wire/Pointer.antt =====
-- `WirePointer` of capnproto/c++/src/capnp/layout.c++: what the bits of a pointer say. A pointer is a
-- word, its `offsetAndKind` the lower half and `upper32Bits` the upper one.
pub mod Laws
use capnp_import.Common.{
  ℕ, ◌+◌, ◌-◌, ◌*◌, ◌/◌, ◌%◌, ◌^◌, List, [], ◌∷◌, Bool, true, false, ◌==◌, ◌&&◌, ltb, leb,
  if◌then◌else◌,
}
use capnp_import.Encoding.{at}
use capnp_import.Serialize.{Word}

-- `WirePointer::Kind`
abbrev pub struct_kind : ℕ
struct_kind = 0

abbrev pub list_kind : ℕ
list_kind = 1

abbrev pub far_kind : ℕ
far_kind = 2

abbrev pub other_kind : ℕ
other_kind = 3

-- `ElementSize`, of which the sizes from BIT to EIGHT_BYTES lie between these.
abbrev pub void_element : ℕ
void_element = 0

abbrev pub bit_element : ℕ
bit_element = 1

abbrev pub byte_element : ℕ
byte_element = 2

abbrev pub eight_bytes_element : ℕ
eight_bytes_element = 5

abbrev pub pointer_element : ℕ
pointer_element = 6

abbrev pub inline_composite_element : ℕ
inline_composite_element = 7

abbrev pub data_bits_per_element : ℕ → ℕ
data_bits_per_element size = at (0 ∷ 1 ∷ 8 ∷ 16 ∷ 32 ∷ 64 ∷ 0 ∷ 0 ∷ []) size

abbrev pub pointers_per_element : ℕ → ℕ
pointers_per_element size = if size == pointer_element then 1 else 0

abbrev pub kind : Word → ℕ
kind w = w.low % 4

abbrev pub is_null : Word → Bool
is_null w = w.low == 0 && w.high == 0

abbrev pub is_capability : Word → Bool
is_capability w = w.low == other_kind

abbrev pub is_double_far : Word → Bool
is_double_far w = w.low / 4 % 2 == 1

-- `structRef`
abbrev pub data_size : Word → ℕ
data_size w = w.high % 2 ^ 16

abbrev pub ptr_count : Word → ℕ
ptr_count w = w.high / 2 ^ 16 % 2 ^ 16

abbrev pub word_size : Word → ℕ
word_size w = data_size w + ptr_count w

-- `listRef`
abbrev pub element_size : Word → ℕ
element_size w = w.high % 8

abbrev pub element_count : Word → ℕ
element_count w = w.high / 8

abbrev pub inline_composite_list_element_count : Word → ℕ
inline_composite_list_element_count w = w.low / 4 % 2 ^ 29

-- `SegmentReader::checkOffset` for the offset in the upper 30 bits of `n`, read as a signed number:
-- what is not in a segment of `size` words becomes its end.
unfoldable pub check_offset : ℕ → ℕ → ℕ → ℕ
check_offset size from n =
    let offset = n / 4 in
    let back = 2 ^ 30 - offset in
    if ltb offset (2 ^ 29)
    then (if leb (from + offset) size then from + offset else size)
    else if leb back from && leb (from - back) size
    then from - back
    else size

-- `target()` of a pointer in the word `pos`.
abbrev pub target : ℕ → ℕ → Word → ℕ
target size pos w = check_offset size (pos + 1) w.low

-- `farTarget()`
unfoldable pub far_target : ℕ → Word → ℕ
far_target size w = if leb (w.low / 8) size then w.low / 8 else size

-- `setKindAndTarget` of the pointer in the word `pos`: the lower half. The difference of the
-- positions wraps around at 32 bits.
pub set_kind_and_target : ℕ → ℕ → ℕ → ℕ
set_kind_and_target kind pos target = (target + 2 ^ 32 - pos - 1) % 2 ^ 32 * 4 % 2 ^ 32 + kind

-- `setKindAndTargetForEmptyStruct`
unfoldable pub set_kind_and_target_for_empty_struct : ℕ
set_kind_and_target_for_empty_struct = 0xfffffffc

-- `setFar`
pub set_far : Bool → ℕ → ℕ
set_far double pos = pos * 8 % 2 ^ 32 + (if double then 4 else 0) + far_kind

-- `structRef.set`
unfoldable pub set_struct : ℕ → ℕ → ℕ
set_struct words pointers = words % 2 ^ 16 + pointers % 2 ^ 16 * 2 ^ 16

-- `listRef.set`
unfoldable pub set_list : ℕ → ℕ → ℕ
set_list size count = count * 8 % 2 ^ 32 + size

-- `setKindAndInlineCompositeListElementCount`
unfoldable pub set_tag : ℕ → ℕ → ℕ
set_tag kind count = count * 4 % 2 ^ 32 + kind
