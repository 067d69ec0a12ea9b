-- ===== src/Wire/Fars/Found.antt =====
-- Following pointers that are known to lead to an object.
use capnp_import.Common.{
  ℕ, ◌+◌, ◌-◌, ◌^◌, ◌≤◌, ◌<◌, ◌≡◌, List, length, get_elem?, false, true, ◌==◌, leb, some, refl, ap,
  arith,
}
use capnp_import.Serialize.{Word, Segment}
use capnp_import.Wire.{value, Error, unknown_segment}
use capnp_import.Wire.Pointer.{kind, far_kind, is_double_far, target, far_target}
use capnp_import.Wire.Segment.{load, get_segment}
use capnp_import.Wire.Segment.Laws.{check_object-fits}
use capnp_import.Wire.Fars.{Place, follow_far, follow_fars}

pub get_segment_found :
    (message : List Segment) (id limit : ℕ) (e : Error) (s : Segment)
    → get_elem? message id ≡ some s
    → 1 ≤ length s
    → length s < 2 ^ 29
    → get_segment message id e limit ≡ value s limit
unfolding get_segment
get_segment_found message id limit e s there words small =
    let used : (length s == 0) ≡ false = ground arith in
    let fits : leb (2 ^ 29) (length s) ≡ false = ground arith in
    rw (there, get_segment, used, fits) refl

pub follow_fars-near :
    (message : List Segment) (segment : Segment) (ref : Word) (pos limit : ℕ)
    → (kind ref == far_kind) ≡ false
    → follow_fars message segment ref pos limit
      ≡ value (record { segment = segment; ref = ref; pos = pos }) limit
unfolding follow_fars
follow_fars-near message segment ref pos limit near = rw near refl

pub follow_fars-pad :
    (message : List Segment) (segment next : Segment) (ref pad : Word) (ref_target pos limit : ℕ)
    → kind ref ≡ far_kind
    → is_double_far ref ≡ false
    → get_elem? message ref.high ≡ some next
    → length next < 2 ^ 29
    → far_target (length next) ref ≡ pos
    → pos < length next
    → get_elem? next pos ≡ some pad
    → follow_fars message segment ref ref_target (1 + limit)
      ≡ value (record { segment = next; ref = pad; pos = target (length next) pos pad }) limit
unfolding follow_fars follow_far load
follow_fars-pad message segment next ref pad ref_target pos limit far single there small leads
      inside padded =
    let is_far : (kind ref == far_kind) ≡ true = ground arith in
    let place : Place = record { segment = next; ref = pad; pos = target (length next) pos pad } in
    let left : 1 + limit - 1 ≡ limit = omega arith in
    rw
      (
        is_far,
        get_segment_found message ref.high (1 + limit) unknown_segment next there (omega arith)
            small,
        single,
        leads,
        check_object-fits next pos 1 (1 + limit) (omega arith) (omega arith),
      )
      (rw (padded, load) (ap (value place) left))
