-- ===== src/Build/Fields.antt =====
-- Numbers that are stored into structs and lists: `setDataField` and `setDataElement` of
-- capnproto/c++/src/capnp/layout.h, on the little-endian values of endian.h.
pub mod Laws
pub mod Stored
pub mod Structs
use capnp_import.Common.{
  ℕ, zero, suc, ◌+◌, ◌-◌, ◌*◌, ◌/◌, ◌%◌, ◌^◌, List, [], ◌∷◌, Bool, if◌then◌else◌,
}
use capnp_import.Serialize.{Word}
use capnp_import.Wire.Read.Bytes.{byte_of}
use capnp_import.Build.{BuilderArena}
use capnp_import.Build.Memory.{modify_word}
use capnp_import.Build.Objects.{StructBuilder, ListBuilder}
use capnp_import.Build.Copy.{copy_memory, set_byte}

-- The bytes of a `WireValue`, the lowest one first.
abbrev pub value_bytes : ℕ → ℕ → List ℕ
value_bytes zero v = []
value_bytes (suc size) v = v % 2 ^ 8 ∷ value_bytes size (v / 2 ^ 8)

-- `StructBuilder::setDataField` of a number of `size` bytes.
pub set_data_field : StructBuilder → ℕ → ℕ → ℕ → BuilderArena → BuilderArena
set_data_field b size offset v a =
    copy_memory b.id (b.address + offset * size) (value_bytes size v) a

-- `ListBuilder::setDataElement`
pub set_data_element : ListBuilder → ℕ → ℕ → ℕ → BuilderArena → BuilderArena
set_data_element l size index v a =
    copy_memory l.id (l.address + index * l.step / 8) (value_bytes size v) a
