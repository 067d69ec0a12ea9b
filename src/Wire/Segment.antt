-- ===== src/Wire/Segment.antt =====
-- `ReadLimiter`, `SegmentReader` and `ReaderArena::tryGetSegment` of
-- capnproto/c++/src/capnp/arena.h and arena.c++.
pub mod Laws
use capnp_import.Common.{
  ℕ, ◌+◌, ◌-◌, ◌/◌, ◌%◌, ◌^◌, List, [], ◌∷◌, length, get_elem?, Bool, true, false, Option, none,
  some, ◌==◌, ltb, leb, if◌then◌else◌,
}
use capnp_import.Serialize.{Word, Segment}
use capnp_import.Wire.{
  Reads, Outcome, value, error, fault, Error, read_limit, unknown_segment, segment_too_large, ◌>>=◌,
  ◌>>◌, pure, fail,
}

-- `ReadLimiter::canRead`, which throws where the limit is reached.
unfoldable pub can_read : ℕ → Reads (Unit {0})
can_read amount limit = if ltb limit amount then error read_limit else value tt (limit - amount)

-- `ReadLimiter::unread`, on 64 bits: nothing is added back where the sum wraps around.
pub unread : ℕ → ℕ → ℕ
unread amount limit = let sum = (limit + amount) % 2 ^ 64 in if ltb limit sum then sum else limit

-- `SegmentReader::checkObject`
unfoldable pub check_object : Segment → ℕ → ℕ → Reads Bool
unfolding can_read
check_object segment start size =
    if leb (start + size) (length segment) then (do can_read size; pure true) else pure false

-- The word at a position.
unfoldable pub load : Segment → ℕ → Reads Word
load segment pos = elim (get_elem? segment pos) [ some w ↦ pure w | none ↦ λ _. fault ]

abbrev found : Error → Segment → Reads Segment
found e segment =
    if length segment == 0
    then fail e
    else if leb (2 ^ 29) (length segment)
    then fail segment_too_large
    else pure segment

-- `tryGetSegment`, for which a segment with no words is none, with the exception of its caller.
unfoldable pub get_segment : List Segment → ℕ → Error → Reads Segment
get_segment message id e = elim (get_elem? message id) [ some s ↦ found e s | none ↦ fail e ]
