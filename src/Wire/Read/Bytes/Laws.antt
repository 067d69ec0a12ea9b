-- ===== src/Wire/Read/Bytes/Laws.antt =====
-- The bytes that readers return are in their segments.
use capnp_import.Common.{
  ℕ, zero, suc, ◌+◌, ◌*◌, ◌/◌, ◌^◌, ◌≤◌, ◌<◌, ◌≡◌, length, Bool, ltb, leb, refl, arith,
}
use native.Mathlib.Nat.{one-le-pow}
use capnp_import.Serialize.{Word, Segment}
use capnp_import.Wire.Holds.{Holds, result, Holds-then_do, Holds-if}
use capnp_import.Wire.Segment.Laws.{load-Holds}
use capnp_import.Wire.Read.{StructReader, ListReader}
use capnp_import.Wire.Read.Laws.{IsStruct}
use capnp_import.Wire.Read.Lists.{IsList}
use capnp_import.Wire.Read.Access.Laws.{element_inside}
use capnp_import.Wire.Read.Bytes.{
  load_byte, load_value, get_data_field, get_bool_field, get_data_element, get_bool_element,
}

pub load_byte-Holds :
    (segment : Segment) (address limit : ℕ)
    → address < 8 * length segment
    → Holds (λ (b : ℕ) left. (b < 2 ^ 8) × (left ≡ limit)) (load_byte segment address limit)
unfolding load_byte
load_byte-Holds segment address limit h =
    Holds-then_do (λ (w : Word) left. left ≡ limit) (λ (b : ℕ) left. (b < 2 ^ 8) × (left ≡ limit))
      (load-Holds segment (address / 8) limit (omega arith))
      λ w l1 e1. result (ground arith, omega arith)

value_bound : (size b n : ℕ) → b < 2 ^ 8 → n < 256 ^ size → b + 2 ^ 8 * n < 256 ^ suc size
value_bound size b n small below =
    let more : 256 ^ suc size ≡ 2 ^ 8 * 256 ^ size = grind arith in omega arith

load_value-Holds :
    (segment : Segment) (size address limit : ℕ)
    → address + size ≤ 8 * length segment
    → Holds
        (λ (n : ℕ) left. (n < 256 ^ size) × (left ≡ limit))
        (load_value segment size address limit)
unfolding load_value
load_value-Holds segment zero address limit h = result (omega arith, refl)
load_value-Holds segment (suc size) address limit h =
    Holds-then_do (λ (b : ℕ) left. (b < 2 ^ 8) × (left ≡ limit))
      (λ (n : ℕ) left. (n < 256 ^ suc size) × (left ≡ limit))
      (load_byte-Holds segment address limit (omega arith))
      λ b l1 (small, e1).
        Holds-then_do (λ (n : ℕ) left. (n < 256 ^ size) × (left ≡ l1))
          (λ (n : ℕ) left. (n < 256 ^ suc size) × (left ≡ limit))
          (load_value-Holds segment size (address + 1) l1 (omega arith))
          λ n l2 (below, e2). result (value_bound size b n small below, omega arith)

field_inside :
    (offset size bits address len : ℕ)
    → (offset + 1) * (8 * size) ≤ bits
    → 8 * address + bits ≤ 64 * len
    → address + offset * size + size ≤ 8 * len
field_inside offset size bits address len there inside = grind arith

bit_inside :
    (index count step address len : ℕ)
    → 1 ≤ step
    → index < count
    → 8 * address + count * step ≤ 64 * len
    → address + index / 8 < 8 * len
bit_inside index count step address len wide h inside =
    let most : count ≤ count * step = grind arith in omega arith

-- A number of a struct inside of its segment is read from the segment, takes nothing from the
-- traversal limit, and fits its size.
pub get_data_field-Holds :
    (s : StructReader) (size offset limit : ℕ)
    → IsStruct s
    → Holds (λ (n : ℕ) left. (n < 256 ^ size) × (left ≡ limit)) (get_data_field s size offset limit)
unfolding get_data_field
get_data_field-Holds s size offset limit (inside, pointers) =
    Holds-if (λ (n : ℕ) left. (n < 256 ^ size) × (left ≡ limit))
      (leb ((offset + 1) * (8 * size)) s.data_bits) _ _ limit
      (λ there. load_value-Holds s.segment size (s.address + offset * size) limit (
        field_inside offset size s.data_bits s.address (length s.segment) (ground (arith, there))
          inside))
      (λ beyond. result (one-le-pow size 256 (omega arith), refl))

pub get_bool_field-Holds :
    (s : StructReader) (offset limit : ℕ)
    → IsStruct s
    → Holds (λ (b : Bool) left. left ≡ limit) (get_bool_field s offset limit)
unfolding get_bool_field
get_bool_field-Holds s offset limit (inside, pointers) =
    Holds-if (λ (b : Bool) left. left ≡ limit) (ltb offset s.data_bits) _ _ limit
      (λ there.
        Holds-then_do (λ (b : ℕ) left. (b < 2 ^ 8) × (left ≡ limit))
          (λ (b : Bool) left. left ≡ limit)
          (load_byte-Holds s.segment (s.address + offset / 8) limit (ground (arith, there, inside)))
          λ b l1 (small, e). result e)
      (λ beyond. result refl)

pub get_data_element-Holds :
    (l : ListReader) (size index limit : ℕ)
    → IsList l
    → 8 * size ≤ l.data_bits
    → index < l.count
    → Holds
        (λ (n : ℕ) left. (n < 256 ^ size) × (left ≡ limit))
        (get_data_element l size index limit)
unfolding get_data_element
get_data_element-Holds l size index limit (inside, aligned, fits, pointers) enough h =
    let within = element_inside index l.count l.step l.address (length l.segment) h inside in
    load_value-Holds l.segment size (l.address + index * l.step / 8) limit (omega arith)

pub get_bool_element-Holds :
    (l : ListReader) (index limit : ℕ)
    → IsList l
    → 1 ≤ l.data_bits
    → index < l.count
    → Holds (λ (b : Bool) left. left ≡ limit) (get_bool_element l index limit)
unfolding get_bool_element
get_bool_element-Holds l index limit (inside, aligned, fits, pointers) enough h =
    Holds-then_do (λ (b : ℕ) left. (b < 2 ^ 8) × (left ≡ limit)) (λ (b : Bool) left. left ≡ limit)
      (load_byte-Holds l.segment (l.address + index / 8) limit
        (bit_inside index l.count l.step l.address (length l.segment) (omega arith) h inside))
      λ b l1 (small, e). result e
