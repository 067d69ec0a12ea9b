-- ===== src/Build/Objects/Placed.antt =====
-- Objects of a message that is built: how a pointer leads to one, and that it is new.
use capnp_import.Common.{ℕ, ◌+◌, ◌≤◌, ◌<◌, ◌≡◌, ◌≢◌, ◌⊎◌, List, false, some}
use capnp_import.Serialize.{Word, Segment}
use capnp_import.Wire.Pointer.{kind, far_kind, is_double_far, target, far_target}
use capnp_import.Build.{zero_word, BuilderArena, get_segments_for_output}
use capnp_import.Build.Laws.{IsArena}
use capnp_import.Build.Memory.{get_word, segment_length}
use capnp_import.Build.Objects.{Allocation, finish}

-- The pointer in a word leads to an object of a kind, with the sizes of a tag: it is the tag, or it
-- is a far pointer to the tag.
pub record IsLinked (message : List Segment) (id ref k high : ℕ) (r : Allocation) : Type 0 where
  pub tag : Word
  pub tagged : get_word message r.id r.ref ≡ some tag
  pub kind_of : kind tag ≡ k
  pub sizes : tag.high ≡ high
  pub leads : target (segment_length message r.id) r.ref tag ≡ r.pos
  pub from :
      ((r.id ≡ id) × (r.ref ≡ ref))
      ⊎ ((far : Word) × (get_word message id ref ≡ some far)
          × (kind far ≡ far_kind)
          × (is_double_far far ≡ false)
          × (far.high ≡ r.id)
          × (far_target (segment_length message r.id) far ≡ r.ref))

-- The words of the object are zero, and were not output before.
pub record IsFresh (before message : List Segment) (amount : ℕ) (r : Allocation) : Type 0 where
  pub fresh : segment_length before r.id ≤ r.pos
  pub end : segment_length message r.id ≡ r.pos + amount
  pub zeros : (k : ℕ) → k < amount → get_word message r.id (r.pos + k) ≡ some zero_word

-- The words that were output before are as they were, but the pointer.
abbrev pub IsKept : List Segment → List Segment → ℕ → ℕ → Type 0
IsKept before message id ref =
    (i p : ℕ) (w : Word)
    → get_word before i p ≡ some w
    → (i ≢ id) ⊎ (p ≢ ref)
    → get_word message i p ≡ some w

pub record IsPlaced (a : BuilderArena) (id ref amount k high : ℕ) (r : Allocation) : Type 0 where
  pub arena : IsArena (finish high r).arena
  pub linked : IsLinked (get_segments_for_output (finish high r).arena) id ref k high r
  pub placed :
      IsFresh (get_segments_for_output a) (get_segments_for_output (finish high r).arena) amount r
  pub kept :
      IsKept (get_segments_for_output a) (get_segments_for_output (finish high r).arena) id ref
