-- ===== src/Wire/Read/Found.antt =====
-- Reading pointers that are known to lead to an object.
use capnp_import.Common.{
  ℕ, ◌+◌, ◌-◌, ◌*◌, ◌/◌, ◌%◌, ◌≤◌, ◌<◌, ◌≡◌, List, length, get_elem?, Bool, false, true, ◌==◌, ltb,
  leb, not, ◌&&◌, if◌then◌else◌, some, refl, arith,
}
use capnp_import.Serialize.{Word, Segment}
use capnp_import.Wire.{value}
use capnp_import.Wire.Pointer.{
  kind, struct_kind, list_kind, is_null, data_size, ptr_count, word_size, element_size,
  element_count, bit_element, void_element, inline_composite_element,
  inline_composite_list_element_count, data_bits_per_element, pointers_per_element,
}
use capnp_import.Wire.Segment.{load}
use capnp_import.Wire.Segment.Laws.{check_object-fits, can_read-enough}
use capnp_import.Wire.Fars.{Place, follow_fars}
use capnp_import.Wire.Size.{round_bits_up_to_words}
use capnp_import.Wire.Read.{
  PointerReader, load_pointer, own_target, read_struct_at, get_struct, read_list_at,
  read_plain_list, read_composite_list, get_list, step_bits, charge_if, element_fits,
  composite_fits,
}

abbrev pub pointer_at : Segment → ℕ → ℕ → PointerReader
pointer_at segment pos depth = record {
  segment = segment;
  address = 8 * pos;
  nesting_limit = depth;
}

-- What a pointer reader finds: the word of its pointer, and the place this leads to.
pub record IsFound (message : List Segment) (segment : Segment) (ref : ℕ) (p : Place)
    (limit left : ℕ) : Type 0 where
  pub word : Word
  pub there : get_elem? segment ref ≡ some word
  pub used : is_null word ≡ false
  pub found :
      follow_fars message segment word (own_target (pointer_at segment ref 0) word) limit
      ≡ value p left

pub load_found :
    (segment : Segment) (pos limit : ℕ) (w : Word)
    → get_elem? segment pos ≡ some w
    → load segment pos limit ≡ value w limit
unfolding load
load_found segment pos limit w there = rw (there, load) refl

pub load_pointer_found :
    (segment : Segment) (ref limit : ℕ) (w : Word)
    → get_elem? segment ref ≡ some w
    → load_pointer segment (8 * ref) limit ≡ value w limit
unfolding load_pointer load
load_pointer_found segment ref limit w there =
    let aligned : (8 * ref % 8 == 0) ≡ true = ground arith in
    let at : 8 * ref / 8 ≡ ref = omega arith in rw (aligned, at) (rw (there, load) refl)

-- Where the readers go on.
module _ (message : List Segment) (segment : Segment) (ref : ℕ) (p : Place) (limit left : ℕ)
    (found : IsFound message segment ref p limit left) where
  pub get_struct_found :
      (depth : ℕ)
      → get_struct message (pointer_at segment ref (1 + depth)) limit
        ≡ read_struct_at (1 + depth) p left
  unfolding get_struct
  get_struct_found depth =
      let deep : ltb 0 (1 + depth) ≡ true = ground arith in
      rw
        (load_pointer_found segment ref limit found.word found.there, found.used, deep, found.found)
        refl

  pub get_list_found :
      (expected depth : ℕ) (check : Bool)
      → get_list message expected check (pointer_at segment ref (1 + depth)) limit
        ≡ read_list_at expected check (1 + depth) p left
  unfolding get_list
  get_list_found expected depth check =
      let deep : ltb 0 (1 + depth) ≡ true = ground arith in
      rw
        (load_pointer_found segment ref limit found.word found.there, found.used, deep, found.found)
        refl

-- What is read of an object that is inside of its segment.
pub read_struct_at_found :
    (depth : ℕ) (p : Place) (limit : ℕ)
    → kind p.ref ≡ struct_kind
    → p.pos + word_size p.ref ≤ length p.segment
    → word_size p.ref ≤ limit
    → read_struct_at (1 + depth) p limit
      ≡ value
          (some (record {
            segment = p.segment;
            address = 8 * p.pos;
            pointers = 8 * (p.pos + data_size p.ref);
            data_bits = 64 * data_size p.ref;
            pointer_count = ptr_count p.ref;
            nesting_limit = depth;
          }))
          (limit - word_size p.ref)
unfolding read_struct_at
read_struct_at_found depth p limit is_struct inside enough =
    let known : (kind p.ref == struct_kind) ≡ true = ground arith in
    let less : 1 + depth - 1 ≡ depth = omega arith in
    rw (known, check_object-fits p.segment p.pos (word_size p.ref) limit inside enough, less) refl

-- What `charge_if` leaves.
abbrev charged_left : Bool → ℕ → ℕ → ℕ
charged_left free n limit = if free then limit - n else limit

charge_if_found :
    (free : Bool) (n limit : ℕ)
    → n ≤ limit
    → charge_if free n limit ≡ value tt (charged_left free n limit)
charge_if_found true n limit enough = can_read-enough n limit enough
charge_if_found false n limit enough = refl

leb_refl : (n : ℕ) → leb n n ≡ true
leb_refl n = ground arith

element_fits_same :
    (check : Bool) (size : ℕ) → (if check then element_fits size size else true) ≡ true
element_fits_same false size = refl
element_fits_same true size = go (size == bit_element)
  where
    go :
        (bit : Bool)
        → (not (bit && not bit)
            && leb (data_bits_per_element size) (data_bits_per_element size)
            && leb (pointers_per_element size) (pointers_per_element size))
          ≡ true
    go true = rw (leb_refl (data_bits_per_element size), leb_refl (pointers_per_element size)) refl
    go false = rw (leb_refl (data_bits_per_element size), leb_refl (pointers_per_element size)) refl

-- A list of any elements, that are the expected ones.
pub read_list_at_found :
    (size depth count : ℕ) (check : Bool) (p : Place) (limit : ℕ)
    → kind p.ref ≡ list_kind
    → element_size p.ref ≡ size
    → element_count p.ref ≡ count
    → size < inline_composite_element
    → p.pos + round_bits_up_to_words (count * step_bits size) ≤ length p.segment
    → round_bits_up_to_words (count * step_bits size) + count ≤ limit
    → (left : ℕ) × (read_list_at size check (1 + depth) p limit
        ≡ value
            (some (record {
              segment = p.segment;
              address = 8 * p.pos;
              count = count;
              step = step_bits size;
              data_bits = data_bits_per_element size;
              pointer_count = pointers_per_element size;
              element = size;
              nesting_limit = depth;
            }))
            left)
unfolding read_list_at read_plain_list
read_list_at_found size depth count check p limit is_list sized counted plain inside enough =
    let total = round_bits_up_to_words (count * step_bits size) in
    let known : (kind p.ref == list_kind) ≡ true = ground arith in
    let no_tag : (size == inline_composite_element) ≡ false = ground arith in
    let less : 1 + depth - 1 ≡ depth = omega arith in
    let charged = charge_if_found (size == void_element) count (limit - total) (omega arith) in
    (
      charged_left (size == void_element) count (limit - total),
      rw
          (
            known,
            sized,
            no_tag,
            counted,
            check_object-fits p.segment p.pos total limit inside (omega arith),
            charged,
          )
          (rw (element_fits_same check size, less) refl),
    )

composite_fits_same :
    (check : Bool) (tag : Word)
    → (if check then composite_fits inline_composite_element tag else true) ≡ true
composite_fits_same true tag = refl
composite_fits_same false tag = refl

-- A list of structs.
pub read_list_at_structs :
    (depth count words pointers total : ℕ) (check : Bool) (p : Place) (tag : Word) (limit : ℕ)
    → kind p.ref ≡ list_kind
    → element_size p.ref ≡ inline_composite_element
    → element_count p.ref ≡ total
    → get_elem? p.segment p.pos ≡ some tag
    → kind tag ≡ struct_kind
    → inline_composite_list_element_count tag ≡ count
    → data_size tag ≡ words
    → ptr_count tag ≡ pointers
    → count * (words + pointers) ≤ total
    → p.pos + (total + 1) ≤ length p.segment
    → total + 1 + count ≤ limit
    → (left : ℕ) × (read_list_at inline_composite_element check (1 + depth) p limit
        ≡ value
            (some (record {
              segment = p.segment;
              address = 8 * (p.pos + 1);
              count = count;
              step = 64 * (words + pointers);
              data_bits = 64 * words;
              pointer_count = pointers;
              element = inline_composite_element;
              nesting_limit = depth;
            }))
            left)
unfolding read_list_at read_composite_list
read_list_at_structs depth count words pointers total check p tag limit is_list sized counted there
      is_struct counts of_data ptrs fits inside enough =
    let known : (kind p.ref == list_kind) ≡ true = ground arith in
    let tagged : (kind tag == struct_kind) ≡ true = ground arith in
    let less : 1 + depth - 1 ≡ depth = omega arith in
    let held : leb (count * (words + pointers)) total ≡ true = ground arith in
    let charged =
      charge_if_found (words + pointers == 0) count (limit - (total + 1)) (omega arith) in
    (
      charged_left (words + pointers == 0) count (limit - (total + 1)),
      rw
          (
            known,
            sized,
            counted,
            check_object-fits p.segment p.pos (total + 1) limit inside (omega arith),
            load_found p.segment p.pos (limit - (total + 1)) tag there,
            tagged,
            counts,
            of_data,
            ptrs,
            held,
            charged,
          )
          (rw (composite_fits_same check tag, less) refl),
    )
