-- ===== src/Wire/Fars/Laws.antt =====
-- Following a far pointer ends inside of a segment.
use capnp_import.Common.{ℕ, ◌+◌, ◌≤◌, ◌<◌, ◌≡◌, List, length, ◌==◌, if◌then◌else◌, arith}
use capnp_import.Serialize.{Word, Segment}
use capnp_import.Wire.{unknown_segment, far_out_of_bounds, bad_pad}
use capnp_import.Wire.Holds.{Holds, result, Holds-require, Holds-then_do, Holds-if}
use capnp_import.Wire.Pointer.{kind, far_kind, is_double_far, far_target}
use capnp_import.Wire.Pointer.Laws.{check_offset-le, far_target-le}
use capnp_import.Wire.Segment.Laws.{load-Holds, Holds-check, get_segment-Holds}
use capnp_import.Wire.Fars.{Place, follow_double, follow_far, follow_fars}

-- A place in its segment, with no more of the limit than before.
abbrev pub IsInside : ℕ → Place → ℕ → Type 0
IsInside limit p left = (p.pos ≤ length p.segment) × (left ≤ limit)

follow_double-IsInside :
    (message : List Segment) (segment : Segment) (ptr : ℕ) (pad : Word) (most limit : ℕ)
    → ptr + 1 < length segment
    → limit ≤ most
    → Holds (IsInside most) (follow_double message segment ptr pad limit)
unfolding follow_double
follow_double-IsInside message segment ptr pad most limit inside h =
    Holds-then_do (λ (w : Word) left. left ≡ limit) (IsInside most)
      (load-Holds segment (ptr + 1) limit inside)
      λ tag l1 e1.
        Holds-then_do (λ (s : Segment) left. (left ≡ l1) × (1 ≤ length s)) (IsInside most)
          (get_segment-Holds message pad.high unknown_segment l1)
          λ next l2 e2.
            Holds-require (IsInside most) (kind pad == far_kind) bad_pad _ l2
              λ _. result (far_target-le (length next) pad, omega arith)

follow_far-IsInside :
    (message : List Segment) (ref : Word) (limit : ℕ)
    → Holds (IsInside limit) (follow_far message ref limit)
unfolding follow_far
follow_far-IsInside message ref limit =
    Holds-then_do (λ (s : Segment) left. (left ≡ limit) × (1 ≤ length s)) (IsInside limit)
      (get_segment-Holds message ref.high unknown_segment limit)
      λ segment l1 e1.
        Holds-check (IsInside limit) segment (far_target (length segment) ref)
          (if is_double_far ref then 2 else 1) far_out_of_bounds _ l1
          λ l2 inside e2.
            Holds-then_do (λ (w : Word) left. left ≡ l2) (IsInside limit)
              (load-Holds segment (far_target (length segment) ref) l2 (ground (arith, inside)))
              λ pad l3 e3.
                Holds-if (IsInside limit) (is_double_far ref) _ _ l3
                  (λ double.
                    follow_double-IsInside message segment (far_target (length segment) ref) pad
                      limit l3 (ground (arith, inside, double)) (omega arith))
                  (λ single. result (
                    check_offset-le (length segment) (far_target (length segment) ref + 1) pad.low,
                    omega arith,
                  ))

-- Following a pointer, near or far, single or double, makes accesses inside of the segments only, and
-- either throws or ends at a place inside of a segment, and takes nothing back from the traversal
-- limit; the target of a near pointer must be in its segment.
pub follow_fars-IsInside :
    (message : List Segment) (segment : Segment) (ref : Word) (ref_target limit : ℕ)
    → ref_target ≤ length segment
    → Holds (IsInside limit) (follow_fars message segment ref ref_target limit)
unfolding follow_fars
follow_fars-IsInside message segment ref ref_target limit h =
    Holds-if (IsInside limit) (kind ref == far_kind) _ _ limit
      (λ far. follow_far-IsInside message ref limit) (λ near. result (h, omega arith))
