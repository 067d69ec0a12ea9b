-- ===== src/Wire/Size/Laws.antt =====
-- `totalSize` ends on every message, reads inside of the segments only, and counts no more words than
-- it takes from the traversal limit.
use capnp_import.Common.{
  ℕ, zero, suc, ◌+◌, ◌*◌, ◌≤◌, ◌<◌, ◌≡◌, List, length, ◌==◌, ltb, leb, if◌then◌else◌, arith,
}
use capnp_import.Serialize.{Word, Segment}
use capnp_import.Wire.{
  Reads, bad_tag, elements_overrun, struct_out_of_bounds, list_out_of_bounds, pure,
}
use capnp_import.Wire.Holds.{
  Holds, result, exception, Holds-require, Holds-then_do, Holds-if, Holds-weaken,
}
use capnp_import.Wire.Pointer.{
  kind, struct_kind, list_kind, far_kind, is_null, is_capability, target, word_size, data_size,
  ptr_count, element_size, element_count, data_bits_per_element, void_element, pointer_element,
  inline_composite_element, inline_composite_list_element_count,
}
use capnp_import.Wire.Pointer.Laws.{check_offset-le}
use capnp_import.Wire.Segment.Laws.{load-Holds, Holds-check}
use capnp_import.Wire.Fars.{Place}
use capnp_import.Wire.Fars.Laws.{IsInside, follow_fars-IsInside}
use capnp_import.Wire.Size.{
  Counts, none_counted, round_bits_up_to_words, sum_pointers, sum_structs, struct_counts,
  data_list_counts, pointer_list_counts, struct_list_counts, list_counts, place_counts, total_size,
}

-- The words are paid for by the limit, and so are all capabilities but `free` of them.
abbrev pub IsPaid : ℕ → ℕ → Counts → ℕ → Type 0
IsPaid limit free c left = (c.words + left ≤ limit) × (c.caps + left ≤ limit + free)

module _ (size : ℕ → Reads Counts) (bound : ℕ)
    (paid : (pos limit : ℕ) → pos < bound → Holds (IsPaid limit 1) (size pos limit)) where
  sum_pointers-IsPaid :
      (n pos limit : ℕ) → pos + n ≤ bound → Holds (IsPaid limit n) (sum_pointers size pos n limit)
  unfolding sum_pointers
  sum_pointers-IsPaid zero pos limit h = result (omega arith, omega arith)
  sum_pointers-IsPaid (suc n) pos limit h =
      Holds-then_do (IsPaid limit 1) (IsPaid limit (suc n)) (paid pos limit (omega arith))
        λ first l1 p1.
          Holds-then_do (IsPaid l1 n) (IsPaid limit (suc n))
            (sum_pointers-IsPaid n (pos + 1) l1 (omega arith))
            λ rest l2 p2. result (omega arith, omega arith)

  sum_structs-IsPaid :
      (words pointers n pos limit : ℕ)
      → pos + n * (words + pointers) ≤ bound
      → Holds (IsPaid limit (n * (words + pointers))) (sum_structs size words pointers pos n limit)
  unfolding sum_structs
  sum_structs-IsPaid words pointers zero pos limit h = result (omega arith, omega arith)
  sum_structs-IsPaid words pointers (suc n) pos limit h =
      Holds-then_do (IsPaid limit pointers) (IsPaid limit (suc n * (words + pointers)))
        (sum_pointers-IsPaid pointers (pos + words) limit (grind arith))
        λ first l1 p1.
          Holds-then_do (IsPaid l1 (n * (words + pointers)))
            (IsPaid limit (suc n * (words + pointers)))
            (sum_structs-IsPaid words pointers n (pos + words + pointers) l1 (grind arith))
            λ rest l2 p2. result (omega arith, grind arith)

-- In a place: all but one capability are paid for.
module _ (size : ℕ → Reads Counts) (p : Place)
    (paid : (pos limit : ℕ)
      → pos < length p.segment
      → Holds (IsPaid limit 1) (size pos limit)) where
  struct_counts-IsPaid : (limit : ℕ) → Holds (IsPaid limit 1) (struct_counts size p limit)
  unfolding struct_counts
  struct_counts-IsPaid limit =
      Holds-check (IsPaid limit 1) p.segment p.pos (word_size p.ref) struct_out_of_bounds _ limit
        λ l1 inside e1.
          Holds-then_do (IsPaid l1 (ptr_count p.ref)) (IsPaid limit 1)
            (sum_pointers-IsPaid size (length p.segment) paid (ptr_count p.ref)
              (p.pos + data_size p.ref) l1 (omega arith))
            λ counts l2 h. result (omega arith, omega arith)

  data_list_counts-IsPaid : (limit : ℕ) → Holds (IsPaid limit 1) (data_list_counts p limit)
  unfolding data_list_counts
  data_list_counts-IsPaid limit =
      Holds-check (IsPaid limit 1) p.segment p.pos
        (round_bits_up_to_words (element_count p.ref * data_bits_per_element (element_size p.ref)))
        list_out_of_bounds _ limit λ l1 inside e1. result (omega arith, omega arith)

  pointer_list_counts-IsPaid :
      (limit : ℕ) → Holds (IsPaid limit 1) (pointer_list_counts size p limit)
  unfolding pointer_list_counts
  pointer_list_counts-IsPaid limit =
      Holds-check (IsPaid limit 1) p.segment p.pos (element_count p.ref) list_out_of_bounds _ limit
        λ l1 inside e1.
          Holds-then_do (IsPaid l1 (element_count p.ref)) (IsPaid limit 1)
            (sum_pointers-IsPaid size (length p.segment) paid (element_count p.ref) p.pos l1
              (omega arith))
            λ counts l2 h. result (omega arith, omega arith)

  elements-IsPaid :
      (tag : Word) (count l1 : ℕ)
      → p.pos + 1 + word_size tag * count ≤ length p.segment
      → Holds (IsPaid l1 (word_size tag * count)) (
          (if ltb 0 (ptr_count tag)
              then sum_structs size (data_size tag) (ptr_count tag) (p.pos + 1) count
              else pure none_counted)
            l1)
  elements-IsPaid tag count l1 h =
      Holds-if (IsPaid l1 (word_size tag * count)) (ltb 0 (ptr_count tag)) _ _ l1
        (λ some_pointers.
          Holds-weaken (IsPaid l1 (count * word_size tag)) (IsPaid l1 (word_size tag * count))
            (sum_structs-IsPaid size (length p.segment) paid (data_size tag) (ptr_count tag) count
              (p.pos + 1) l1 (grind arith))
            (λ c left h. (omega arith, grind arith)))
        (λ no_pointers. result (omega arith, omega arith))

  struct_list_counts-IsPaid : (limit : ℕ) → Holds (IsPaid limit 1) (struct_list_counts size p limit)
  unfolding struct_list_counts
  struct_list_counts-IsPaid limit =
      Holds-check (IsPaid limit 1) p.segment p.pos (element_count p.ref + 1) list_out_of_bounds _
        limit
        λ l1 inside e1.
          Holds-then_do (λ (w : Word) left. left ≡ l1) (IsPaid limit 1)
            (load-Holds p.segment p.pos l1 (omega arith))
            λ tag l2 e2. Holds-require (IsPaid limit 1) (kind tag == struct_kind) bad_tag _ l2 λ _.
              Holds-require (IsPaid limit 1)
                (leb (word_size tag * inline_composite_list_element_count tag)
                  (element_count p.ref))
                elements_overrun _ l2
                λ fit.
                  Holds-then_do
                    (IsPaid l2 (word_size tag * inline_composite_list_element_count tag))
                    (IsPaid limit 1)
                    (elements-IsPaid tag (inline_composite_list_element_count tag) l2
                      (ground (arith, fit, inside)))
                    λ counts l3 h.
                      result (ground (arith, fit, e1, e2, h), ground (arith, fit, e1, e2, h))

  list_counts-IsPaid : (limit : ℕ) → Holds (IsPaid limit 1) (list_counts size p limit)
  unfolding list_counts
  list_counts-IsPaid limit =
      Holds-if (IsPaid limit 1) (element_size p.ref == void_element) _ _ limit
        (λ _. result (omega arith, omega arith))
        λ _.
          Holds-if (IsPaid limit 1) (element_size p.ref == pointer_element) _ _ limit
            (λ _. pointer_list_counts-IsPaid limit)
            λ _.
              Holds-if (IsPaid limit 1) (element_size p.ref == inline_composite_element) _ _ limit
                (λ _. struct_list_counts-IsPaid limit) (λ _. data_list_counts-IsPaid limit)

  place_counts-IsPaid : (limit : ℕ) → Holds (IsPaid limit 1) (place_counts size p limit)
  unfolding place_counts
  place_counts-IsPaid limit =
      Holds-if (IsPaid limit 1) (kind p.ref == struct_kind) _ _ limit
        (λ _. struct_counts-IsPaid limit)
        λ _.
          Holds-if (IsPaid limit 1) (kind p.ref == list_kind) _ _ limit
            (λ _. list_counts-IsPaid limit)
            λ _.
              Holds-if (IsPaid limit 1) (kind p.ref == far_kind) _ _ limit (λ _. exception)
                λ _.
                  Holds-if (IsPaid limit 1) (is_capability p.ref) _ _ limit
                    (λ _. result (omega arith, omega arith)) (λ _. exception)

-- On every message, cyclic or malformed as it may be, and for any nesting limit, `totalSize` of a
-- pointer in a segment ends, accesses words of the segments only, and either throws or counts at most
-- as many words as it takes from the traversal limit, and at most one capability more than that.
pub total_size-IsPaid :
    (message : List Segment) (nesting_limit : ℕ) (segment : Segment) (pos limit : ℕ)
    → pos < length segment
    → Holds (IsPaid limit 1) (total_size message nesting_limit segment pos limit)
unfolding total_size
total_size-IsPaid message zero segment pos limit h =
    Holds-then_do (λ (w : Word) left. left ≡ limit) (IsPaid limit 1)
      (load-Holds segment pos limit h)
      λ ref l1 e1.
        Holds-if (IsPaid limit 1) (is_null ref) _ _ l1 (λ _. result (omega arith, omega arith))
          (λ _. exception)
total_size-IsPaid message (suc nesting_limit) segment pos limit h =
    Holds-then_do (λ (w : Word) left. left ≡ limit) (IsPaid limit 1)
      (load-Holds segment pos limit h)
      λ ref l1 e1.
        Holds-if (IsPaid limit 1) (is_null ref) _ _ l1 (λ _. result (omega arith, omega arith))
          λ _.
            Holds-then_do (IsInside l1) (IsPaid limit 1)
              (follow_fars-IsInside message segment ref (target (length segment) pos ref) l1
                (check_offset-le (length segment) (pos + 1) ref.low))
              λ p l2 inside.
                Holds-weaken (IsPaid l2 1) (IsPaid limit 1)
                  (place_counts-IsPaid (total_size message nesting_limit p.segment) p
                    (λ pos limit h. total_size-IsPaid message nesting_limit p.segment pos limit h)
                    l2)
                  (λ c left h. (omega arith, omega arith))
