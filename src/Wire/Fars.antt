-- ===== src/Wire/Fars.antt =====
-- `WireHelpers::followFars` of capnproto/c++/src/capnp/layout.c++, for readers.
pub mod Laws
pub mod Found
use capnp_import.Common.{ℕ, ◌+◌, List, length, Bool, true, false, ◌==◌, if◌then◌else◌}
use capnp_import.Serialize.{Word, Segment}
use capnp_import.Wire.{
  Reads, Error, unknown_segment, far_out_of_bounds, bad_pad, ◌>>=◌, ◌>>◌, pure, require,
}
use capnp_import.Wire.Pointer.{kind, far_kind, is_double_far, target, far_target}
use capnp_import.Wire.Segment.{check_object, load, get_segment}

-- Where an object lies, and the pointer that says what it is.
pub record Place : Type 0 where
  pub segment : Segment
  pub ref : Word
  pub pos : ℕ

-- A landing pad that is followed by a tag.
follow_double : List Segment → Segment → ℕ → Word → Reads Place
follow_double message segment ptr pad = do
  tag ← load segment (ptr + 1)
  next ← get_segment message pad.high unknown_segment
  require (kind pad == far_kind) bad_pad
  pure (record { segment = next; ref = tag; pos = far_target (length next) pad })

follow_far : List Segment → Word → Reads Place
unfolding follow_double
follow_far message ref = do
  segment ← get_segment message ref.high unknown_segment
  let ptr = far_target (length segment) ref
  inside ← check_object segment ptr (if is_double_far ref then 2 else 1)
  require inside far_out_of_bounds
  pad ← load segment ptr
  if is_double_far ref
      then follow_double message segment ptr pad
      else pure (record { segment = segment; ref = pad; pos = target (length segment) ptr pad })

-- The pointer `ref` of a segment, and its target there, if it is not a far pointer.
unfoldable pub follow_fars : List Segment → Segment → Word → ℕ → Reads Place
unfolding follow_far
follow_fars message segment ref ref_target =
    if kind ref == far_kind
    then follow_far message ref
    else pure (record { segment = segment; ref = ref; pos = ref_target })
