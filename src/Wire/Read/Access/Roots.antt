-- ===== src/Wire/Read/Access/Roots.antt =====
-- The root of a message, and what is asked of a pointer without reading its target.
use capnp_import.Common.{ℕ, ◌+◌, ◌/◌, ◌≤◌, ◌≡◌, List, length, ◌==◌, refl, arith}
use capnp_import.Serialize.{Word, Segment}
use capnp_import.Wire.{far_out_of_bounds, no_root, unknown_pointer}
use capnp_import.Wire.Holds.{
  Holds, result, exception, Holds-require, Holds-then_do, Holds-if, Holds-weaken,
}
use capnp_import.Wire.Pointer.{kind, far_kind, struct_kind, list_kind, is_null, is_capability}
use capnp_import.Wire.Pointer.Laws.{check_offset-le}
use capnp_import.Wire.Segment.Laws.{Holds-check, get_segment-Holds}
use capnp_import.Wire.Fars.Laws.{IsInside, follow_fars-IsInside}
use capnp_import.Wire.Size.Laws.{IsPaid, total_size-IsPaid}
use capnp_import.Wire.Read.{PointerReader, own_target}
use capnp_import.Wire.Read.Laws.{IsPointer, load_pointer-Holds}
use capnp_import.Wire.Read.Access.{
  get_root, get_root_internal, target_size, type_of, get_pointer_type,
}

-- A pointer in its segment with the nesting limit, and no more of the traversal limit than before.
abbrev pub IsRoot : ℕ → ℕ → PointerReader → ℕ → Type 0
IsRoot depth limit r left = IsPointer r × (r.nesting_limit ≡ depth) × (left ≤ limit)

get_root-IsRoot :
    (segment : Segment) (location depth limit : ℕ)
    → Holds (IsRoot depth limit) (get_root segment location depth limit)
unfolding get_root
get_root-IsRoot segment location depth limit =
    Holds-check (IsRoot depth limit) segment location 1 far_out_of_bounds _ limit
      λ l1 inside e1. result ((omega arith, omega arith), refl, omega arith)

pub get_root_internal-IsRoot :
    (message : List Segment) (depth limit : ℕ)
    → Holds (IsRoot depth limit) (get_root_internal message depth limit)
unfolding get_root_internal
get_root_internal-IsRoot message depth limit =
    Holds-then_do (λ (s : Segment) left. (left ≡ limit) × (1 ≤ length s)) (IsRoot depth limit)
      (get_segment-Holds message 0 no_root limit)
      λ segment l1 e1. Holds-check (IsRoot depth limit) segment 0 1 no_root _ l1 λ l2 inside e2.
        Holds-weaken (IsRoot depth l2) (IsRoot depth limit) (get_root-IsRoot segment 0 depth l2)
          (λ r left (valid, nesting, le). (valid, nesting, omega arith))

pub target_size-IsPaid :
    (message : List Segment) (r : PointerReader) (limit : ℕ)
    → IsPointer r
    → Holds (IsPaid limit 1) (target_size message r limit)
unfolding target_size
target_size-IsPaid message r limit (aligned, inside) =
    total_size-IsPaid message r.nesting_limit r.segment (r.address / 8) limit (omega arith)

-- No more of the limit than before.
abbrev pub NoMore {ℓ} : {A : Type ℓ} → ℕ → A → ℕ → Type 0
NoMore limit a left = left ≤ limit

type_of-NoMore : (ref : Word) (limit : ℕ) → Holds (NoMore limit) (type_of ref limit)
type_of-NoMore ref limit =
    Holds-if (NoMore limit) (kind ref == far_kind) _ _ limit (λ _. exception)
      λ _.
        Holds-if (NoMore limit) (kind ref == struct_kind) _ _ limit (λ _. result (omega arith))
          λ _.
            Holds-if (NoMore limit) (kind ref == list_kind) _ _ limit (λ _. result (omega arith))
              λ _.
                Holds-require (NoMore limit) (is_capability ref) unknown_pointer _ limit
                  (λ _. result (omega arith))

pub get_pointer_type-NoMore :
    (message : List Segment) (r : PointerReader) (limit : ℕ)
    → IsPointer r
    → Holds (NoMore limit) (get_pointer_type message r limit)
unfolding get_pointer_type
get_pointer_type-NoMore message r limit valid =
    Holds-then_do (λ (w : Word) left. left ≡ limit) (NoMore limit)
      (load_pointer-Holds r limit valid)
      λ ref l1 e1.
        Holds-if (NoMore limit) (is_null ref) _ _ l1 (λ _. result (omega arith))
          λ _.
            Holds-then_do (IsInside l1) (NoMore limit)
              (follow_fars-IsInside message r.segment ref (own_target r ref) l1
                (check_offset-le (length r.segment) (r.address / 8 + 1) ref.low))
              λ p l2 inside.
                Holds-weaken (NoMore l2) (NoMore limit) (type_of-NoMore p.ref l2)
                  (λ o left le. omega arith)
