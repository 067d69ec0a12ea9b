-- ===== src/Wire/Read/Bytes/Blobs.antt =====
-- Data and text that are read are in their segments.
use capnp_import.Common.{
  ℕ, ◌+◌, ◌-◌, ◌*◌, ◌/◌, ◌%◌, ◌≤◌, ◌<◌, ◌≡◌, List, length, ◌==◌, ltb, Option, some, ap, ◌∙◌, arith,
}
use capnp_import.Serialize.{Word, Segment}
use capnp_import.Wire.{
  value, not_list, not_bytes, text_out_of_bounds, not_terminated, then_do, ◌>>◌, pure, require,
}
use capnp_import.Wire.Holds.{Holds, result, Holds-require, Holds-then_do, Holds-if, Holds-weaken}
use capnp_import.Wire.Pointer.{kind, list_kind, is_null, element_size, element_count, byte_element}
use capnp_import.Wire.Pointer.Laws.{check_offset-le}
use capnp_import.Wire.Segment.Laws.{load-Loads, Holds-check}
use capnp_import.Wire.Fars.{Place}
use capnp_import.Wire.Fars.Laws.{IsInside, follow_fars-IsInside}
use capnp_import.Wire.Read.{PointerReader, own_target}
use capnp_import.Wire.Read.Laws.{IsPointer, IsDefaultOr, load_pointer-Holds}
use capnp_import.Wire.Read.Bytes.{
  byte_of, load_byte, Blob, round_bytes_up_to_words, read_data_at, read_text_at, get_data, get_text,
}

-- A blob inside of its segment.
abbrev pub IsBlob : ℕ → Option Blob → ℕ → Type 0
IsBlob limit o left =
    IsDefaultOr (λ (b : Blob). b.address + b.size ≤ 8 * length b.segment) o × (left ≤ limit)

-- A blob inside of its segment that a byte 0 of the segment follows.
abbrev pub IsText : ℕ → Option Blob → ℕ → Type 0
IsText limit o left =
    IsDefaultOr
      (λ (b : Blob).
        (b.address + b.size < 8 * length b.segment)
        × (load_byte b.segment (b.address + b.size) left ≡ value 0 left))
      o
    × (left ≤ limit)

read_data_at-IsBlob : (p : Place) (limit : ℕ) → Holds (IsBlob limit) (read_data_at p limit)
unfolding read_data_at
read_data_at-IsBlob p limit =
    Holds-require (IsBlob limit) (kind p.ref == list_kind) not_list _ limit λ _.
      Holds-require (IsBlob limit) (element_size p.ref == byte_element) not_bytes _ limit λ _.
        Holds-check (IsBlob limit) p.segment p.pos (round_bytes_up_to_words (element_count p.ref))
          text_out_of_bounds _ limit λ l1 inside e1. result (omega arith, omega arith)

-- A load of a byte does not depend on the limit.
load_byte-Loads :
    (segment : Segment) (address : ℕ)
    → address < 8 * length segment
    → (b : ℕ) × ((limit : ℕ) → load_byte segment address limit ≡ value b limit)
unfolding load_byte
load_byte-Loads segment address h =
    let (w, e) = load-Loads segment (address / 8) (omega arith) in
    (
      byte_of w (address % 8),
      λ limit. ap (λ o. then_do o (λ w. pure (byte_of w (address % 8)))) (e limit),
    )

-- Behind the last byte of the list.
terminated :
    (p : Place) (limit l1 : ℕ)
    → 8 * p.pos + (element_count p.ref - 1) < 8 * length p.segment
    → l1 ≤ limit
    → Holds (IsText limit) (
        then_do (load_byte p.segment (8 * p.pos + (element_count p.ref - 1)) l1) (λ end.
          require (end == 0) not_terminated
          >> pure (
              some (record {
                segment = p.segment;
                address = 8 * p.pos;
                size = element_count p.ref - 1;
              }))))
terminated p limit l1 inside le =
    let (end, loads) = load_byte-Loads p.segment (8 * p.pos + (element_count p.ref - 1)) inside in
    rw (loads l1) (
      Holds-require (IsText limit) (end == 0) not_terminated _ l1
        λ is_null. result ((inside, loads l1 ∙ ap (λ b. value b l1) (ground (arith, is_null))), le))

read_text_at-IsText : (p : Place) (limit : ℕ) → Holds (IsText limit) (read_text_at p limit)
unfolding read_text_at
read_text_at-IsText p limit =
    Holds-require (IsText limit) (kind p.ref == list_kind) not_list _ limit λ _.
      Holds-require (IsText limit) (element_size p.ref == byte_element) not_bytes _ limit λ _.
        Holds-check (IsText limit) p.segment p.pos (round_bytes_up_to_words (element_count p.ref))
          text_out_of_bounds _ limit
          λ l1 inside e1.
            Holds-require (IsText limit) (ltb 0 (element_count p.ref)) not_terminated _ l1
              λ some_bytes. terminated p limit l1 (ground (arith, some_bytes, inside)) (omega arith)

-- `getBlob<Data>` of a pointer inside of its segment accesses words of the segments only, and either
-- throws or returns the default or bytes inside of a segment, and takes nothing back from the
-- traversal limit.
pub get_data-IsBlob :
    (message : List Segment) (r : PointerReader) (limit : ℕ)
    → IsPointer r
    → Holds (IsBlob limit) (get_data message r limit)
unfolding get_data
get_data-IsBlob message r limit valid =
    Holds-then_do (λ (w : Word) left. left ≡ limit) (IsBlob limit)
      (load_pointer-Holds r limit valid)
      λ ref l1 e1.
        Holds-if (IsBlob limit) (is_null ref) _ _ l1 (λ _. result (tt, omega arith))
          λ _.
            Holds-then_do (IsInside l1) (IsBlob limit)
              (follow_fars-IsInside message r.segment ref (own_target r ref) l1
                (check_offset-le (length r.segment) (r.address / 8 + 1) ref.low))
              λ p l2 inside.
                Holds-weaken (IsBlob l2) (IsBlob limit) (read_data_at-IsBlob p l2)
                  (λ o left (valid, le). (valid, omega arith))

-- `getBlob<Text>` of a pointer inside of its segment accesses words of the segments only, and either
-- throws or returns the default or bytes inside of a segment with a byte 0 of the segment behind
-- them, and takes nothing back from the traversal limit.
pub get_text-IsText :
    (message : List Segment) (r : PointerReader) (limit : ℕ)
    → IsPointer r
    → Holds (IsText limit) (get_text message r limit)
unfolding get_text
get_text-IsText message r limit valid =
    Holds-then_do (λ (w : Word) left. left ≡ limit) (IsText limit)
      (load_pointer-Holds r limit valid)
      λ ref l1 e1.
        Holds-if (IsText limit) (is_null ref) _ _ l1 (λ _. result (tt, omega arith))
          λ _.
            Holds-then_do (IsInside l1) (IsText limit)
              (follow_fars-IsInside message r.segment ref (own_target r ref) l1
                (check_offset-le (length r.segment) (r.address / 8 + 1) ref.low))
              λ p l2 inside.
                Holds-weaken (IsText l2) (IsText limit) (read_text_at-IsText p l2)
                  (λ o left (valid, le). (valid, omega arith))
