-- ===== src/Wire/Pointer/Laws.antt =====
-- What is written into a pointer is read from it.
use capnp_import.Common.{ℕ, ◌^◌, ◌≤◌, ◌<◌, ◌≡◌, Bool, true, false, arith}
use capnp_import.Serialize.{Word}
use capnp_import.Wire.Pointer.{
  kind, target, check_offset, far_target, is_double_far, set_kind_and_target, set_far, far_kind,
  data_size, ptr_count, element_size, element_count, inline_composite_list_element_count,
  set_struct, set_list, set_tag,
}

pub check_offset-le : (size from n : ℕ) → check_offset size from n ≤ size
unfolding check_offset
check_offset-le size from n = ground arith

pub far_target-le : (size : ℕ) (w : Word) → far_target size w ≤ size
unfolding far_target
far_target-le size w = ground arith

-- In a segment of less than 2^29 words, a pointer that is set to a target in its segment, before it
-- or behind it, has that kind and leads to that target.
pub target-set_kind_and_target :
    (size pos goal k high : ℕ)
    → size < 2 ^ 29
    → pos < size
    → goal ≤ size
    → k < 4
    → (kind (record { low = set_kind_and_target k pos goal; high = high }) ≡ k)
      × (target size pos (record { low = set_kind_and_target k pos goal; high = high }) ≡ goal)
unfolding set_kind_and_target check_offset
target-set_kind_and_target size pos goal k high small here there few = (ground arith, ground arith)

-- A far pointer that is set to a position in a segment of less than 2^29 words is one, leads there,
-- and is double if it is set so.
pub far_target-set_far :
    (size pos high : ℕ) (double : Bool)
    → size < 2 ^ 29
    → pos ≤ size
    → (kind (record { low = set_far double pos; high = high }) ≡ far_kind)
      × (is_double_far (record { low = set_far double pos; high = high }) ≡ double)
      × (far_target size (record { low = set_far double pos; high = high }) ≡ pos)
unfolding set_far far_target
far_target-set_far size pos high true small there = (ground arith, ground arith, ground arith)
far_target-set_far size pos high false small there = (ground arith, ground arith, ground arith)

-- The sizes that are set in the pointer of a struct, in the pointer of a list and in the tag of a
-- struct list are read from it, if they fit their bits.
pub sizes-set :
    (words pointers size count k low high : ℕ)
    → words < 2 ^ 16
    → pointers < 2 ^ 16
    → size < 8
    → count < 2 ^ 29
    → k < 4
    → (data_size (record { low = low; high = set_struct words pointers }) ≡ words)
      × (ptr_count (record { low = low; high = set_struct words pointers }) ≡ pointers)
      × (element_size (record { low = low; high = set_list size count }) ≡ size)
      × (element_count (record { low = low; high = set_list size count }) ≡ count)
      × (kind (record { low = set_tag k count; high = high }) ≡ k)
      × (inline_composite_list_element_count (record { low = set_tag k count; high = high })
          ≡ count)
unfolding set_struct set_list set_tag
sizes-set words pointers size count k low high few_words few_pointers known few kinds =
    (omega arith, omega arith, omega arith, omega arith, omega arith, omega arith)
