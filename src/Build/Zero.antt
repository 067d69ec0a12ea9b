-- ===== src/Build/Zero.antt =====
-- `WireHelpers::zeroObject` of capnproto/c++/src/capnp/layout.c++: an object that is no longer needed
-- is overwritten with zeros, and all that its pointers lead to. All segments are writable, since
-- none is external. The code recurses without a bound, the model on fuel. `none` is an exception, a pointer
-- of which the target is not in its segment, which no builder makes, or too little fuel.
pub mod Words
pub mod Laws
use capnp_import.Common.{
  ℕ, zero, suc, ◌+◌, ◌-◌, ◌*◌, ◌/◌, ◌^◌, List, length, Bool, true, false, ◌==◌, ltb, leb, get_elem?,
  if◌then◌else◌, Option, none, some,
}
use capnp_import.Serialize.{Word}
use capnp_import.Wire.Pointer.{
  kind, struct_kind, list_kind, far_kind, is_capability, is_double_far, data_size, ptr_count,
  word_size, element_size, element_count, inline_composite_list_element_count,
  data_bits_per_element, void_element, pointer_element, inline_composite_element,
}
use capnp_import.Wire.Size.{round_bits_up_to_words}
use capnp_import.Build.{zero_word, max_segment_words, SegmentBuilder, BuilderArena, and_then}
use capnp_import.Build.Memory.{read_word, set_word}
use capnp_import.Build.Caps.{drop_cap}

-- `target()` of a pointer in the word `pos` of a segment that is trusted.
abbrev pub trusted_target : ℕ → Word → Option ℕ
trusted_target pos w =
    let offset = w.low / 4 in
    if ltb offset (2 ^ 29)
    then some (pos + 1 + offset)
    else if ltb (pos + 1) (2 ^ 30 - offset)
    then none
    else some (pos + 1 - (2 ^ 30 - offset))

-- `zeroMemory` of words.
abbrev pub fill_zero : ℕ → ℕ → ℕ → BuilderArena → BuilderArena
fill_zero id pos zero a = a
fill_zero id pos (suc n) a = set_word id pos zero_word (fill_zero id (pos + 1) n a)

pub zero_memory : ℕ → ℕ → ℕ → BuilderArena → Option BuilderArena
zero_memory id pos n a =
    and_then (get_elem? a.segments id)
      λ s. if leb (pos + n) (length s.words) then some (fill_zero id pos n a) else none

abbrev pub Zeroing : Type 0
Zeroing = ℕ → ℕ → BuilderArena → Option BuilderArena

-- The pointers in the `n` words from `pos` on.
pub zero_pointers : Zeroing → ℕ → ℕ → ℕ → BuilderArena → Option BuilderArena
zero_pointers zeroing id pos zero a = some a
zero_pointers zeroing id pos (suc n) a =
    and_then (zeroing id pos a) λ a'. zero_pointers zeroing id (pos + 1) n a'

-- The pointers of `n` structs.
pub zero_structs : Zeroing → ℕ → ℕ → ℕ → ℕ → ℕ → BuilderArena → Option BuilderArena
unfolding zero_pointers
zero_structs zeroing id words pointers pos zero a = some a
zero_structs zeroing id words pointers pos (suc n) a =
    and_then (zero_pointers zeroing id (pos + words) pointers a)
      λ a'. zero_structs zeroing id words pointers (pos + words + pointers) n a'

zero_struct : Zeroing → ℕ → Word → ℕ → BuilderArena → Option BuilderArena
unfolding zero_pointers zero_memory
zero_struct zeroing id tag ptr a =
    and_then (zero_pointers zeroing id (ptr + data_size tag) (ptr_count tag) a)
      λ a'. zero_memory id ptr (word_size tag) a'

zero_struct_list : Zeroing → ℕ → ℕ → BuilderArena → Option BuilderArena
unfolding zero_structs zero_memory
zero_struct_list zeroing id ptr a = and_then (read_word a id ptr) λ tag.
    let count = inline_composite_list_element_count tag in
    if kind tag == struct_kind
    then and_then
        (zero_structs zeroing id (data_size tag) (ptr_count tag) (ptr + 1)
          (if ltb 0 (ptr_count tag) then count else 0) a)
        (λ a'.
          if leb (1 + count * word_size tag) max_segment_words
          then zero_memory id ptr (1 + count * word_size tag) a'
          else none)
    else none

zero_list : Zeroing → ℕ → Word → ℕ → BuilderArena → Option BuilderArena
unfolding zero_pointers zero_memory zero_struct_list
zero_list zeroing id tag ptr a =
    if element_size tag == void_element
    then some a
    else if element_size tag == pointer_element
    then and_then (zero_pointers zeroing id ptr (element_count tag) a)
        (λ a'. zero_memory id ptr (element_count tag) a')
    else if element_size tag == inline_composite_element
    then zero_struct_list zeroing id ptr a
    else zero_memory id ptr
        (round_bits_up_to_words (element_count tag * data_bits_per_element (element_size tag))) a

-- `zeroObject` of an object with its tag.
zero_tagged : Zeroing → ℕ → Word → ℕ → BuilderArena → Option BuilderArena
unfolding zero_struct zero_list
zero_tagged zeroing id tag ptr a =
    if kind tag == struct_kind
    then zero_struct zeroing id tag ptr a
    else if kind tag == list_kind
    then zero_list zeroing id tag ptr a
    else none

zero_far : Zeroing → Word → BuilderArena → Option BuilderArena
unfolding zero_tagged zero_memory
zero_far zeroing ref a = and_then (read_word a ref.high (ref.low / 8)) λ pad.
    if is_double_far ref
    then and_then (read_word a ref.high (ref.low / 8 + 1)) (λ tag.
      and_then (get_elem? a.segments pad.high) (λ s.
        and_then (zero_tagged zeroing pad.high tag (pad.low / 8) a)
          (λ a'. zero_memory ref.high (ref.low / 8) 2 a')))
    else and_then (zeroing ref.high (ref.low / 8) a) (λ a'. zero_memory ref.high (ref.low / 8) 1 a')

-- The object that the pointer in a word leads to, nested up to the fuel.
unfoldable pub zero_object : ℕ → Zeroing
unfolding zero_tagged zero_far drop_cap
zero_object zero id pos a = none
zero_object (suc fuel) id pos a = and_then (read_word a id pos) λ ref.
    if kind ref == far_kind
    then zero_far (zero_object fuel) ref a
    else if kind ref == struct_kind
    then and_then (trusted_target pos ref) (λ ptr. zero_tagged (zero_object fuel) id ref ptr a)
    else if kind ref == list_kind
    then and_then (trusted_target pos ref) (λ ptr. zero_tagged (zero_object fuel) id ref ptr a)
    else if is_capability ref
    then drop_cap ref.high a
    else none
