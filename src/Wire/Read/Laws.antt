-- ===== src/Wire/Read/Laws.antt =====
-- Readers stay inside of their segments: pointers and structs.
use capnp_import.Common.{
  ℕ, ◌+◌, ◌*◌, ◌/◌, ◌%◌, ◌≤◌, ◌<◌, ◌≡◌, ◌⊎◌, List, length, ◌==◌, ltb, Option, none, some, arith,
  inr,
}
use capnp_import.Serialize.{Word, Segment}
use capnp_import.Wire.{too_deep, not_struct, struct_out_of_bounds}
use capnp_import.Wire.Holds.{Holds, result, Holds-require, Holds-then_do, Holds-if, Holds-weaken}
use capnp_import.Wire.Pointer.{kind, struct_kind, is_null, word_size}
use capnp_import.Wire.Pointer.Laws.{check_offset-le}
use capnp_import.Wire.Segment.Laws.{load-Holds, Holds-check}
use capnp_import.Wire.Fars.{Place}
use capnp_import.Wire.Fars.Laws.{IsInside, follow_fars-IsInside}
use capnp_import.Wire.Read.{
  PointerReader, StructReader, load_pointer, own_target, read_struct_at, get_struct,
}

-- The pointer is a word of the segment.
abbrev pub IsPointer : PointerReader → Type 0
IsPointer r = (r.address % 8 ≡ 0) × (r.address + 8 ≤ 8 * length r.segment)

-- The data is in the segment, and the pointers, if any, are words of it.
abbrev pub IsStruct : StructReader → Type 0
IsStruct r =
    (8 * r.address + r.data_bits ≤ 64 * length r.segment)
    × ((r.pointer_count ≡ 0)
        ⊎ ((r.pointers % 8 ≡ 0) × (r.pointers + 8 * r.pointer_count ≤ 8 * length r.segment)))

abbrev pub IsDefaultOr {ℓ κ} : {A : Type ℓ} → (A → Type κ) → Option A → Type κ
IsDefaultOr P none = Unit
IsDefaultOr P (some a) = P a

-- A struct that is read from a pointer with a nesting limit, all of it paid for by the traversal limit.
abbrev pub IsStructBelow : ℕ → ℕ → Option StructReader → ℕ → Type 0
IsStructBelow depth limit o left =
    IsDefaultOr
      (λ (s : StructReader).
        IsStruct s
        × (s.nesting_limit < depth)
        × (s.data_bits + 64 * s.pointer_count + 64 * left ≤ 64 * limit))
      o
    × (left ≤ limit)

IsStructBelow-weaken :
    (depth l2 limit : ℕ) (o : Option StructReader) (left : ℕ)
    → l2 ≤ limit
    → IsStructBelow depth l2 o left
    → IsStructBelow depth limit o left
IsStructBelow-weaken depth l2 limit none left h (valid, le) = (tt, omega arith)
IsStructBelow-weaken depth l2 limit (some s) left h ((valid, nesting, paid), le) =
    ((valid, nesting, omega arith), omega arith)

pub load_pointer-Holds :
    (r : PointerReader) (limit : ℕ)
    → IsPointer r
    → Holds (λ (w : Word) left. left ≡ limit) (load_pointer r.segment r.address limit)
unfolding load_pointer
load_pointer-Holds r limit (aligned, inside) =
    rw aligned (load-Holds r.segment (r.address / 8) limit (omega arith))

read_struct_at-IsStruct :
    (depth : ℕ) (p : Place) (limit : ℕ)
    → 0 < depth
    → Holds (IsStructBelow depth limit) (read_struct_at depth p limit)
unfolding read_struct_at
read_struct_at-IsStruct depth p limit deep =
    Holds-require (IsStructBelow depth limit) (kind p.ref == struct_kind) not_struct _ limit λ _.
      Holds-check (IsStructBelow depth limit) p.segment p.pos (word_size p.ref) struct_out_of_bounds
        _ limit
        λ l1 inside e1.
          result
            (((omega arith, inr (omega arith, omega arith)), omega arith, omega arith), omega arith)

-- `getStruct` of a pointer inside of its segment accesses words of the segments only, and either
-- throws or returns the default or a struct inside of its segment, whose nesting limit is lower and
-- whose data and pointers are taken from the traversal limit.
pub get_struct-IsStruct :
    (message : List Segment) (r : PointerReader) (limit : ℕ)
    → IsPointer r
    → Holds (IsStructBelow r.nesting_limit limit) (get_struct message r limit)
unfolding get_struct
get_struct-IsStruct message r limit valid =
    Holds-then_do (λ (w : Word) left. left ≡ limit) (IsStructBelow r.nesting_limit limit)
      (load_pointer-Holds r limit valid)
      λ ref l1 e1.
        Holds-if (IsStructBelow r.nesting_limit limit) (is_null ref) _ _ l1
          (λ _. result (tt, omega arith))
          λ _.
            Holds-require (IsStructBelow r.nesting_limit limit) (ltb 0 r.nesting_limit) too_deep _
              l1
              λ deep.
                Holds-then_do (IsInside l1) (IsStructBelow r.nesting_limit limit)
                  (follow_fars-IsInside message r.segment ref (own_target r ref) l1
                    (check_offset-le (length r.segment) (r.address / 8 + 1) ref.low))
                  λ p l2 inside.
                    Holds-weaken (IsStructBelow r.nesting_limit l2)
                      (IsStructBelow r.nesting_limit limit)
                      (read_struct_at-IsStruct r.nesting_limit p l2 (ground (arith, deep)))
                      (λ o left p.
                        IsStructBelow-weaken r.nesting_limit l2 limit o left (omega arith) p)
