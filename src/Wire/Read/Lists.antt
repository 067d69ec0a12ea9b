-- ===== src/Wire/Read/Lists.antt =====
-- Lists that are read stay inside of their segments, and so do their elements.
use capnp_import.Common.{
  ℕ, ◌+◌, ◌*◌, ◌/◌, ◌%◌, ◌≤◌, ◌<◌, ◌≡◌, ◌⊎◌, List, length, Bool, true, false, ◌==◌, ltb, leb,
  if◌then◌else◌, Option, none, some, refl, arith, Bool-cases, inl, inr,
}
use capnp_import.Serialize.{Word, Segment}
use capnp_import.Wire.{
  too_deep, not_list, list_out_of_bounds, bad_tag, elements_overrun, incompatible,
}
use capnp_import.Wire.Holds.{Holds, result, Holds-require, Holds-then_do, Holds-if, Holds-weaken}
use capnp_import.Wire.Pointer.{
  kind, struct_kind, list_kind, is_null, word_size, element_size, element_count,
  inline_composite_list_element_count, inline_composite_element, void_element, pointer_element,
  data_bits_per_element, pointers_per_element,
}
use capnp_import.Wire.Pointer.Laws.{check_offset-le}
use capnp_import.Wire.Segment.Laws.{load-Holds, can_read-Holds, Holds-check}
use capnp_import.Wire.Fars.{Place}
use capnp_import.Wire.Fars.Laws.{IsInside, follow_fars-IsInside}
use capnp_import.Wire.Size.{round_bits_up_to_words}
use capnp_import.Wire.Read.{
  PointerReader, ListReader, own_target, charge_if, step_bits, composite_fits, element_fits,
  read_composite_list, read_plain_list, read_list_at, get_list,
}
use capnp_import.Wire.Read.Fits.{Serves, composite_fits-Serves, element_fits-Serves}
use capnp_import.Wire.Read.Paid.{composite_paid, plain_paid}
use capnp_import.Wire.Read.Laws.{IsPointer, IsDefaultOr, load_pointer-Holds}

-- The elements are in the segment, each within its step, and its pointers, if any, are words.
abbrev pub IsList : ListReader → Type 0
IsList l =
    (8 * l.address + l.count * l.step ≤ 64 * length l.segment)
    × (l.address % 8 ≡ 0)
    × (l.data_bits + 64 * l.pointer_count ≤ l.step)
    × ((l.pointer_count ≡ 0) ⊎ ((l.data_bits % 64 ≡ 0) × (l.step % 64 ≡ 0)))

-- A list for the expected elements, with a lower nesting limit.
abbrev pub IsListFor : ℕ → Bool → ℕ → ListReader → Type 0
IsListFor expected check depth l =
    IsList l × Serves expected check l.data_bits l.pointer_count × (l.nesting_limit < depth)

-- At least one word for 64 elements is paid for by the traversal limit.
abbrev pub IsListBelow : ℕ → Bool → ℕ → ℕ → Option ListReader → ℕ → Type 0
IsListBelow expected check depth limit o left =
    IsDefaultOr
      (λ (l : ListReader). IsListFor expected check depth l × (l.count + 64 * left ≤ 64 * limit)) o
    × (left ≤ limit)

IsListBelow-weaken :
    (expected : ℕ) (check : Bool) (depth l2 limit : ℕ) (o : Option ListReader) (left : ℕ)
    → l2 ≤ limit
    → IsListBelow expected check depth l2 o left
    → IsListBelow expected check depth limit o left
IsListBelow-weaken expected check depth l2 limit none left h (valid, le) = (tt, omega arith)
IsListBelow-weaken expected check depth l2 limit (some s) left h ((valid, paid), le) =
    ((valid, omega arith), omega arith)

abbrev IsCharged : Bool → ℕ → ℕ → Unit {0} → ℕ → Type 0
IsCharged free n limit u left = (left ≤ limit) × ((free ≡ false) ⊎ (left + n ≡ limit))

charge_if-IsCharged :
    (free : Bool) (n limit : ℕ) → Holds (IsCharged free n limit) (charge_if free n limit)
charge_if-IsCharged true n limit =
    Holds-weaken (λ (u : Unit {0}) left. left + n ≡ limit) (IsCharged true n limit)
      (can_read-Holds n limit) (λ u left e. (omega arith, inr e))
charge_if-IsCharged false n limit = result (omega arith, inl refl)

words_fit :
    (count size elements pos len : ℕ)
    → count * size ≤ elements
    → pos + (elements + 1) ≤ len
    → 8 * (8 * (pos + 1)) + count * (64 * size) ≤ 64 * len
words_fit count size elements pos len fit inside = grind arith

read_composite_list-IsList :
    (expected : ℕ) (check : Bool) (depth : ℕ) (p : Place) (limit : ℕ)
    → 0 < depth
    → Holds
        (IsListBelow expected check depth limit)
        (read_composite_list expected check depth p limit)
unfolding read_composite_list
read_composite_list-IsList expected check depth p limit deep =
    Holds-check (IsListBelow expected check depth limit) p.segment p.pos (element_count p.ref + 1)
      list_out_of_bounds _ limit
      λ l1 inside e1.
        Holds-then_do (λ (w : Word) left. left ≡ l1) (IsListBelow expected check depth limit)
          (load-Holds p.segment p.pos l1 (omega arith))
          λ tag l2 e2.
            Holds-require (IsListBelow expected check depth limit) (kind tag == struct_kind) bad_tag
              _ l2
              λ _.
                Holds-require (IsListBelow expected check depth limit)
                  (leb (inline_composite_list_element_count tag * word_size tag)
                    (element_count p.ref))
                  elements_overrun _ l2
                  λ fit.
                    Holds-then_do
                      (IsCharged (word_size tag == 0) (inline_composite_list_element_count tag) l2)
                      (IsListBelow expected check depth limit)
                      (charge_if-IsCharged (word_size tag == 0)
                        (inline_composite_list_element_count tag) l2)
                      λ u l3 le.
                        Holds-require (IsListBelow expected check depth limit)
                          (if check then composite_fits expected tag else true) incompatible _ l3
                          λ serves. result (
                            (
                              (
                                (
                                  words_fit (inline_composite_list_element_count tag)
                                      (word_size tag) (element_count p.ref) p.pos (length p.segment)
                                      (ground (arith, fit)) inside,
                                  omega arith,
                                  omega arith,
                                  inr (omega arith, omega arith),
                                ),
                                composite_fits-Serves expected check tag serves,
                                omega arith,
                              ),
                              composite_paid (inline_composite_list_element_count tag)
                                  (word_size tag) (element_count p.ref) limit l2 l3
                                  (ground (arith, fit)) (omega arith) le,
                            ),
                            omega arith,
                          )

-- Elements with pointers have no other bits.
pointer_elements :
    (size : ℕ)
    → (pointers_per_element size ≡ 0)
      ⊎ ((data_bits_per_element size % 64 ≡ 0) × (step_bits size % 64 ≡ 0))
pointer_elements size = elim (Bool-cases (size == pointer_element)) [
  | inr e ↦ inl (rw e refl)
  | inl e ↦ let is : size ≡ pointer_element = ground (arith, e) in inr (rw is refl, rw is refl)
]

read_plain_list-IsList :
    (expected : ℕ) (check : Bool) (depth : ℕ) (p : Place) (limit : ℕ)
    → 0 < depth
    → (element_size p.ref == inline_composite_element) ≡ false
    → Holds (IsListBelow expected check depth limit) (read_plain_list expected check depth p limit)
unfolding read_plain_list
read_plain_list-IsList expected check depth p limit deep not_composite =
    Holds-check (IsListBelow expected check depth limit) p.segment p.pos
      (round_bits_up_to_words (element_count p.ref * step_bits (element_size p.ref)))
      list_out_of_bounds _ limit
      λ l1 inside e1.
        Holds-then_do (IsCharged (element_size p.ref == void_element) (element_count p.ref) l1)
          (IsListBelow expected check depth limit)
          (charge_if-IsCharged (element_size p.ref == void_element) (element_count p.ref) l1)
          λ u l2 le.
            Holds-require (IsListBelow expected check depth limit)
              (if check then element_fits expected (element_size p.ref) else true) incompatible _ l2
              λ serves. result (
                (
                  (
                    (omega arith, omega arith, omega arith, pointer_elements (element_size p.ref)),
                    element_fits-Serves expected check (element_size p.ref) serves,
                    omega arith,
                  ),
                  plain_paid (element_count p.ref) (element_size p.ref) limit l1 l2 not_composite
                      (omega arith) e1 le,
                ),
                omega arith,
              )

read_list_at-IsList :
    (expected : ℕ) (check : Bool) (depth : ℕ) (p : Place) (limit : ℕ)
    → 0 < depth
    → Holds (IsListBelow expected check depth limit) (read_list_at expected check depth p limit)
unfolding read_list_at
read_list_at-IsList expected check depth p limit deep =
    Holds-require (IsListBelow expected check depth limit) (kind p.ref == list_kind) not_list _
      limit
      λ _.
        Holds-if (IsListBelow expected check depth limit)
          (element_size p.ref == inline_composite_element) _ _ limit
          (λ _. read_composite_list-IsList expected check depth p limit deep)
          (λ plain. read_plain_list-IsList expected check depth p limit deep plain)

-- `getList` of a pointer inside of its segment accesses words of the segments only, and either throws
-- or returns the default or a list inside of its segment, whose nesting limit is lower and whose
-- elements have the data and the pointers of the expected element size, if it is checked; at least
-- one word for 64 elements is taken from the traversal limit.
pub get_list-IsList :
    (message : List Segment) (expected : ℕ) (check : Bool) (r : PointerReader) (limit : ℕ)
    → IsPointer r
    → Holds
        (IsListBelow expected check r.nesting_limit limit)
        (get_list message expected check r limit)
unfolding get_list
get_list-IsList message expected check r limit valid =
    Holds-then_do (λ (w : Word) left. left ≡ limit)
      (IsListBelow expected check r.nesting_limit limit) (load_pointer-Holds r limit valid)
      λ ref l1 e1.
        Holds-if (IsListBelow expected check r.nesting_limit limit) (is_null ref) _ _ l1
          (λ _. result (tt, omega arith))
          λ _.
            Holds-require (IsListBelow expected check r.nesting_limit limit) (ltb 0 r.nesting_limit)
              too_deep _ l1
              λ deep.
                Holds-then_do (IsInside l1) (IsListBelow expected check r.nesting_limit limit)
                  (follow_fars-IsInside message r.segment ref (own_target r ref) l1
                    (check_offset-le (length r.segment) (r.address / 8 + 1) ref.low))
                  λ p l2 inside.
                    Holds-weaken (IsListBelow expected check r.nesting_limit l2)
                      (IsListBelow expected check r.nesting_limit limit)
                      (read_list_at-IsList expected check r.nesting_limit p l2
                        (ground (arith, deep)))
                      (λ o left p.
                        IsListBelow-weaken expected check r.nesting_limit l2 limit o left
                          (omega arith) p)
