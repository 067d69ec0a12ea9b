-- ===== src/Wire/Read/Bytes.antt =====
-- The bytes that readers return: `getDataField` and `getDataElement` of
-- capnproto/c++/src/capnp/layout.h, and `readTextPointer` and `readDataPointer` of layout.c++.
pub mod Laws
pub mod Found
pub mod Blobs
pub mod Views
use capnp_import.Common.{
  ℕ, zero, suc, ◌+◌, ◌-◌, ◌*◌, ◌/◌, ◌%◌, ◌^◌, List, Bool, true, false, ◌==◌, ◌&&◌, ltb, leb,
  if◌then◌else◌, Option, none, some,
}
use capnp_import.Serialize.{Word, Segment}
use capnp_import.Wire.{
  Reads, Error, not_list, not_bytes, text_out_of_bounds, not_terminated, incompatible, ◌>>=◌, ◌>>◌,
  pure, require,
}
use capnp_import.Wire.Pointer.{kind, list_kind, is_null, element_size, element_count, byte_element}
use capnp_import.Wire.Segment.{check_object, load}
use capnp_import.Wire.Fars.{Place, follow_fars}
use capnp_import.Wire.Read.{PointerReader, StructReader, ListReader, load_pointer, own_target}

-- A byte of a word, in memory order.
abbrev pub byte_of : Word → ℕ → ℕ
byte_of w i = if ltb i 4 then w.low / 2 ^ (8 * i) % 2 ^ 8 else w.high / 2 ^ (8 * (i - 4)) % 2 ^ 8

unfoldable pub load_byte : Segment → ℕ → Reads ℕ
load_byte segment address = do w ← load segment (address / 8); pure (byte_of w (address % 8))

-- A `WireValue` of `size` bytes.
unfoldable pub load_value : Segment → ℕ → ℕ → Reads ℕ
unfolding load_byte
load_value segment zero address = pure 0
load_value segment (suc size) address = do
  first ← load_byte segment address
  rest ← load_value segment size (address + 1)
  pure (first + 2 ^ 8 * rest)

-- `StructReader::getDataField` of a number of `size` bytes. An offset, counted in such numbers, comes
-- from the schema and has 22 bits, so that the sum with one, a 32-bit number, does not wrap around.
unfoldable pub get_data_field : StructReader → ℕ → ℕ → Reads ℕ
get_data_field r size offset =
    if leb ((offset + 1) * (8 * size)) r.data_bits
    then load_value r.segment size (r.address + offset * size)
    else pure 0

pub get_bool_field : StructReader → ℕ → Reads Bool
get_bool_field r offset =
    if ltb offset r.data_bits
    then (do b ← load_byte r.segment (r.address + offset / 8); pure (b / 2 ^ (offset % 8) % 2 == 1))
    else pure false

-- `ListReader::getDataElement`
unfoldable pub get_data_element : ListReader → ℕ → ℕ → Reads ℕ
get_data_element l size index = load_value l.segment size (l.address + index * l.step / 8)

pub get_bool_element : ListReader → ℕ → Reads Bool
get_bool_element l index = do
  b ← load_byte l.segment (l.address + index / 8)
  pure (b / 2 ^ (index % 8) % 2 == 1)

-- A `Text::Reader` or a `Data::Reader`.
pub record Blob : Type 0 where
  pub segment : Segment
  pub address : ℕ
  pub size : ℕ

-- `roundBytesUpToWords`
abbrev pub round_bytes_up_to_words : ℕ → ℕ
round_bytes_up_to_words bytes = (bytes + 7) / 8

pub read_data_at : Place → Reads (Option Blob)
read_data_at p = do
  require (kind p.ref == list_kind) not_list
  require (element_size p.ref == byte_element) not_bytes
  inside ← check_object p.segment p.pos (round_bytes_up_to_words (element_count p.ref))
  require inside text_out_of_bounds
  pure (some (record { segment = p.segment; address = 8 * p.pos; size = element_count p.ref }))

pub read_text_at : Place → Reads (Option Blob)
unfolding load_byte
read_text_at p = do
  require (kind p.ref == list_kind) not_list
  require (element_size p.ref == byte_element) not_bytes
  inside ← check_object p.segment p.pos (round_bytes_up_to_words (element_count p.ref))
  require inside text_out_of_bounds
  require (ltb 0 (element_count p.ref)) not_terminated
  let size = element_count p.ref - 1
  end ← load_byte p.segment (8 * p.pos + size)
  require (end == 0) not_terminated
  pure (some (record { segment = p.segment; address = 8 * p.pos; size = size }))

-- `PointerReader::getBlob<Data>`; blobs are not counted against the nesting limit.
pub get_data : List Segment → PointerReader → Reads (Option Blob)
unfolding read_data_at load_pointer
get_data message r = do
  ref ← load_pointer r.segment r.address
  let follow = (do p ← follow_fars message r.segment ref (own_target r ref); read_data_at p)
  if is_null ref then pure none else follow

-- `PointerReader::getBlob<Text>`
pub get_text : List Segment → PointerReader → Reads (Option Blob)
unfolding read_text_at load_pointer
get_text message r = do
  ref ← load_pointer r.segment r.address
  let follow = (do p ← follow_fars message r.segment ref (own_target r ref); read_text_at p)
  if is_null ref then pure none else follow

-- `ListReader::asData`
pub as_data : ListReader → Reads Blob
as_data l = do
  require (l.data_bits == 8 && l.pointer_count == 0) not_bytes
  pure (record { segment = l.segment; address = l.address; size = l.count })

-- `ListReader::asText`
pub as_text : ListReader → Reads Blob
unfolding load_byte
as_text l = do
  require (l.data_bits == 8 && l.pointer_count == 0) not_bytes
  require (ltb 0 l.count) not_terminated
  end ← load_byte l.segment (l.address + (l.count - 1))
  require (end == 0) not_terminated
  pure (record { segment = l.segment; address = l.address; size = l.count - 1 })

-- `ListReader::asRawBytes`
pub as_raw_bytes : ListReader → Reads Blob
as_raw_bytes l = do
  require (l.pointer_count == 0) incompatible
  pure (record { segment = l.segment; address = l.address; size = (l.count * l.data_bits + 7) / 8 })
