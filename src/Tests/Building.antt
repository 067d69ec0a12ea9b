-- ===== src/Tests/Building.antt =====
-- Messages that are built.
use capnp_import.Common.{ℕ, false, ◌≡◌, [], ◌∷◌, replicate, true, refl, arith, some}
use capnp_import.Build.{Malloc, zero_word, BuilderArena, allocate, get_segments_for_output}
use capnp_import.Build.Output.{extend, get_segments_for_output-allocate}
use capnp_import.Build.Laws.{IsAllocated, allocate-IsAllocated}

-- A segment with a root pointer and two free words, of which the next request needs more.
abbrev arena : BuilderArena
arena = record {
  message = record { next_size = 3; grows = true; returned_first_segment = true };
  segments =
      record { words = record { low = 0; high = 1 } ∷ zero_word ∷ zero_word ∷ []; pos = 1 } ∷ [];
  segment_with_space = some 0;
  cap_table = [];
}

allocate-IsAllocated_example :
    (r : ℕ × ℕ × BuilderArena) × (allocate 5 arena ≡ some r) × IsAllocated 5 arena r
allocate-IsAllocated_example =
    allocate-IsAllocated 5 arena (((omega arith, omega arith, refl), tt), omega arith) (omega arith)

get_segments_for_output-allocate_example :
    (id : ℕ) × (pos : ℕ) × (a' : BuilderArena) × (allocate 5 arena ≡ some (id, pos, a'))
    × (get_segments_for_output a'
        ≡ extend id (replicate 5 zero_word) (get_segments_for_output arena))
get_segments_for_output-allocate_example =
    get_segments_for_output-allocate 5 arena (((omega arith, omega arith, refl), tt), omega arith)
      (omega arith)

abbrev fresh : Malloc
fresh = record { next_size = 4; grows = false; returned_first_segment = false }
