-- ===== src/Wire/Size.antt =====
-- `WireHelpers::totalSize` of capnproto/c++/src/capnp/layout.c++: the words and capabilities of all
-- that a pointer leads to.
pub mod Laws
use capnp_import.Common.{
  ℕ, zero, suc, ◌^◌, ◌%◌, ◌+◌, ◌*◌, ◌/◌, List, length, Bool, true, false, ◌==◌, ltb, leb,
  if◌then◌else◌,
}
use capnp_import.Serialize.{Word, Segment}
use capnp_import.Wire.{
  Reads, Error, too_deep, struct_out_of_bounds, list_out_of_bounds, bad_tag, elements_overrun,
  unexpected_far, unknown_pointer, ◌>>=◌, ◌>>◌, pure, fail, require,
}
use capnp_import.Wire.Pointer.{
  kind, struct_kind, list_kind, far_kind, is_null, is_capability, target, data_size, ptr_count,
  word_size, element_size, element_count, inline_composite_list_element_count,
  data_bits_per_element, void_element, pointer_element, inline_composite_element,
}
use capnp_import.Wire.Segment.{check_object, load}
use capnp_import.Wire.Fars.{Place, follow_fars}

-- `MessageSizeCounts`: the capabilities are counted in 32 bits; words that exist do not reach 61 bits.
pub record Counts : Type 0 where
  pub words : ℕ
  pub caps : ℕ

abbrev pub none_counted : Counts
none_counted = record { words = 0; caps = 0 }

abbrev pub add_words : ℕ → Counts → Counts
add_words n c = record c { words = n + c.words }

abbrev pub add : Counts → Counts → Counts
add a b = record { words = a.words + b.words; caps = (a.caps + b.caps) % 2 ^ 32 }

-- `roundBitsUpToWords`
abbrev pub round_bits_up_to_words : ℕ → ℕ
round_bits_up_to_words bits = (bits + 63) / 64

-- The pointers in the `n` words from `pos` on, with `size` for each.
pub sum_pointers : (ℕ → Reads Counts) → ℕ → ℕ → Reads Counts
sum_pointers size pos zero = pure none_counted
sum_pointers size pos (suc n) = do
  first ← size pos
  rest ← sum_pointers size (pos + 1) n
  pure (add first rest)

-- The pointers of `n` structs of `data` words and `pointers` pointers each.
pub sum_structs : (ℕ → Reads Counts) → ℕ → ℕ → ℕ → ℕ → Reads Counts
sum_structs size words pointers pos zero = pure none_counted
sum_structs size words pointers pos (suc n) = do
  first ← sum_pointers size (pos + words) pointers
  rest ← sum_structs size words pointers (pos + words + pointers) n
  pure (add first rest)

-- In a place, with `size` for the pointers in its segment.
struct_counts : (ℕ → Reads Counts) → Place → Reads Counts
unfolding sum_pointers
struct_counts size p = do
  inside ← check_object p.segment p.pos (word_size p.ref)
  require inside struct_out_of_bounds
  counts ← sum_pointers size (p.pos + data_size p.ref) (ptr_count p.ref)
  pure (add_words (word_size p.ref) counts)

data_list_counts : Place → Reads Counts
data_list_counts p = do
  let total =
      round_bits_up_to_words (element_count p.ref * data_bits_per_element (element_size p.ref))
  inside ← check_object p.segment p.pos total
  require inside list_out_of_bounds
  pure (add_words total none_counted)

pointer_list_counts : (ℕ → Reads Counts) → Place → Reads Counts
unfolding sum_pointers
pointer_list_counts size p = do
  inside ← check_object p.segment p.pos (element_count p.ref)
  require inside list_out_of_bounds
  counts ← sum_pointers size p.pos (element_count p.ref)
  pure (add_words (element_count p.ref) counts)

struct_list_counts : (ℕ → Reads Counts) → Place → Reads Counts
unfolding sum_structs
struct_list_counts size p = do
  inside ← check_object p.segment p.pos (element_count p.ref + 1)
  require inside list_out_of_bounds
  tag ← load p.segment p.pos
  let count = inline_composite_list_element_count tag
  require (kind tag == struct_kind) bad_tag
  require (leb (word_size tag * count) (element_count p.ref)) elements_overrun
  counts ←
      if ltb 0 (ptr_count tag)
      then sum_structs size (data_size tag) (ptr_count tag) (p.pos + 1) count
      else pure none_counted
  pure (add_words (word_size tag * count + 1) counts)

list_counts : (ℕ → Reads Counts) → Place → Reads Counts
unfolding data_list_counts pointer_list_counts struct_list_counts
list_counts size p =
    if element_size p.ref == void_element
    then pure none_counted
    else if element_size p.ref == pointer_element
    then pointer_list_counts size p
    else if element_size p.ref == inline_composite_element
    then struct_list_counts size p
    else data_list_counts p

place_counts : (ℕ → Reads Counts) → Place → Reads Counts
unfolding struct_counts list_counts
place_counts size p =
    if kind p.ref == struct_kind
    then struct_counts size p
    else if kind p.ref == list_kind
    then list_counts size p
    else if kind p.ref == far_kind
    then fail unexpected_far
    else if is_capability p.ref
    then pure (record { words = 0; caps = 1 })
    else fail unknown_pointer

-- The pointer in the word `pos` of a segment.
pub total_size : List Segment → ℕ → Segment → ℕ → Reads Counts
unfolding place_counts
total_size message zero segment pos = do
  ref ← load segment pos
  if is_null ref then pure none_counted else fail too_deep
total_size message (suc nesting_limit) segment pos = do
  ref ← load segment pos
  let at_place = (λ (p : Place). place_counts (total_size message nesting_limit p.segment) p)
  if is_null ref
      then pure none_counted
      else (follow_fars message segment ref (target (length segment) pos ref) >>= at_place)
