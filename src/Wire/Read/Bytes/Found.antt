-- ===== src/Wire/Read/Bytes/Found.antt =====
-- Reading blobs that are known to be in a segment.
use capnp_import.Common.{
  ℕ, ◌+◌, ◌-◌, ◌*◌, ◌/◌, ◌%◌, ◌≤◌, ◌≡◌, List, length, get_elem?, true, ◌==◌, ltb, some, refl, arith,
}
use capnp_import.Serialize.{Word, Segment}
use capnp_import.Wire.{value}
use capnp_import.Wire.Pointer.{kind, list_kind, element_size, element_count, byte_element}
use capnp_import.Wire.Segment.Laws.{check_object-fits}
use capnp_import.Wire.Fars.{Place}
use capnp_import.Wire.Read.Found.{pointer_at, IsFound, load_found, load_pointer_found}
use capnp_import.Wire.Read.Bytes.{
  byte_of, load_byte, get_text, get_data, read_text_at, read_data_at, round_bytes_up_to_words,
}

module _ (message : List Segment) (segment : Segment) (ref : ℕ) (p : Place) (limit left : ℕ)
    (found : IsFound message segment ref p limit left) where
  pub get_text_found :
      (depth : ℕ) → get_text message (pointer_at segment ref depth) limit ≡ read_text_at p left
  unfolding get_text
  get_text_found depth =
      rw (load_pointer_found segment ref limit found.word found.there, found.used, found.found) refl

  pub get_data_found :
      (depth : ℕ) → get_data message (pointer_at segment ref depth) limit ≡ read_data_at p left
  unfolding get_data
  get_data_found depth =
      rw (load_pointer_found segment ref limit found.word found.there, found.used, found.found) refl

pub read_data_at_found :
    (size : ℕ) (p : Place) (limit : ℕ)
    → kind p.ref ≡ list_kind
    → element_size p.ref ≡ byte_element
    → element_count p.ref ≡ size
    → p.pos + round_bytes_up_to_words size ≤ length p.segment
    → round_bytes_up_to_words size ≤ limit
    → (left : ℕ) × (read_data_at p limit
        ≡ value (some (record { segment = p.segment; address = 8 * p.pos; size = size })) left)
unfolding read_data_at
read_data_at_found size p limit is_list sized counted inside enough =
    let known : (kind p.ref == list_kind) ≡ true = ground arith in
    (
      limit - round_bytes_up_to_words size,
      rw
          (
            known,
            sized,
            counted,
            check_object-fits p.segment p.pos (round_bytes_up_to_words size) limit inside enough,
          )
          refl,
    )

-- A text with the NUL behind it.
pub read_text_at_found :
    (size : ℕ) (p : Place) (end : Word) (limit : ℕ)
    → kind p.ref ≡ list_kind
    → element_size p.ref ≡ byte_element
    → element_count p.ref ≡ size + 1
    → get_elem? p.segment (p.pos + size / 8) ≡ some end
    → byte_of end (size % 8) ≡ 0
    → p.pos + round_bytes_up_to_words (size + 1) ≤ length p.segment
    → round_bytes_up_to_words (size + 1) ≤ limit
    → (left : ℕ) × (read_text_at p limit
        ≡ value (some (record { segment = p.segment; address = 8 * p.pos; size = size })) left)
unfolding read_text_at load_byte
read_text_at_found size p end limit is_list sized counted there nul inside enough =
    let known : (kind p.ref == list_kind) ≡ true = ground arith in
    let left = limit - round_bytes_up_to_words (size + 1) in
    let some_bytes : ltb 0 (size + 1) ≡ true = ground arith in
    let less : size + 1 - 1 ≡ size = omega arith in
    let word : (8 * p.pos + size) / 8 ≡ p.pos + size / 8 = omega arith in
    let byte : (8 * p.pos + size) % 8 ≡ size % 8 = omega arith in
    (
      left,
      rw
          (
            known,
            sized,
            counted,
            check_object-fits p.segment p.pos (round_bytes_up_to_words (size + 1)) limit inside
                enough,
          )
          (rw (some_bytes, less)
            (rw (word, byte)
              (rw (load_found p.segment (p.pos + size / 8) left end there, nul) refl))),
    )
