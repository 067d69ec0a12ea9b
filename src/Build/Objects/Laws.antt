-- ===== src/Build/Objects/Laws.antt =====
-- Where `allocate` places an object, and what its pointer says.
use capnp_import.Common.{
  ℕ, ◌+◌, ◌%◌, ◌^◌, ◌≤◌, ◌<◌, ◌≡◌, List, length, replicate, get_elem?, true, false, leb, some, refl,
  sym, ap, ◌∙◌, subst, arith, inl, inr,
}
use mathlib.Core.Option.{none-ne-some}
use capnp_import.Serialize.{Word, Segment}
use capnp_import.Wire.Pointer.{set_kind_and_target, set_far}
use capnp_import.Build.{
  zero_word, max_segment_words, SegmentBuilder, BuilderArena, and_then, get_segments_for_output,
}
use capnp_import.Build.Laws.{
  IsArena, IsAllocated, Option-cases, allocate_in-cases, allocate-IsAllocated,
}
use capnp_import.Build.Memory.{set_low, set_word, get_word, poke}
use capnp_import.Build.Memory.Laws.{get_word-extend}
use capnp_import.Build.Memory.Arenas.{
  get_segments_for_output-modify_word, read_word-get_word, IsAllocated-extend, modify_word-stored,
}
use capnp_import.Build.Objects.{Allocation, allocate_far, allocate_space, finish}
use capnp_import.Build.Objects.Placed.{IsLinked, IsFresh, IsKept, IsPlaced}
use capnp_import.Build.Objects.Near.{near, near-IsLinked, near-IsFresh, near-IsKept}
use capnp_import.Build.Objects.Far.{far, pad_free, far-IsLinked, far-IsFresh, far-IsKept}

abbrev output : BuilderArena → List Segment
output a = get_segments_for_output a

place_near-IsPlaced :
    (a : BuilderArena) (id ref amount k high pos : ℕ) (a' : BuilderArena) (w : Word)
    → IsArena a
    → get_word (output a) id ref ≡ some w
    → IsAllocated amount a (id, pos, a')
    → k < 4
    → IsPlaced a id ref amount k high (record {
      id = id;
      ref = ref;
      pos = pos;
      arena = set_low id ref (set_kind_and_target k ref pos) a';
    })
place_near-IsPlaced a id ref amount k high pos a' w valid here allocated kinds =
    let (grown, end, among, small) = IsAllocated-extend amount a id pos a' allocated in
    let bound : pos + amount < 2 ^ 29 = omega arith in
    let low = set_kind_and_target k ref pos in
    let r : Allocation = record { id = id; ref = ref; pos = pos; arena = set_low id ref low a' } in
    let e : output (finish high r).arena
        ≡ near (output a) id ref amount k high pos w here end among bound kinds =
      get_segments_for_output-modify_word id ref (λ w. record w { high = high })
        (set_low id ref low a')
      ∙ ap (poke id ref (λ w. record w { high = high })) (
          get_segments_for_output-modify_word id ref (λ w. record w { low = low }) a'
          ∙ ap (poke id ref (λ w. record w { low = low })) grown) in
    let there : get_word (output a') id ref ≡ some w =
      ap (λ m. get_word m id ref) grown
      ∙ get_word-extend (output a) id ref id (replicate amount zero_word) w here in
    let (valid', there') =
      modify_word-stored id ref (λ w. record w { low = low }) w a' allocated.0 there in
    let (valid'', there'') =
      modify_word-stored id ref (λ w. record w { high = high }) (record w { low = low })
        (set_low id ref low a') valid' there' in
    record {
      arena = valid'';
      linked =
          subst (λ m. IsLinked m id ref k high r) (sym e)
            (near-IsLinked (output a) id ref amount k high pos w here end among bound kinds
              r.arena);
      placed =
          subst (λ m. IsFresh (output a) m amount r) (sym e)
            (near-IsFresh (output a) id ref amount k high pos w here end among bound kinds r.arena);
      kept =
          subst (λ m. IsKept (output a) m id ref) (sym e)
            (near-IsKept (output a) id ref amount k high pos w here end among bound kinds);
    }

place_far-IsPlaced :
    (a : BuilderArena) (id ref amount k high id' pos : ℕ) (a' : BuilderArena) (w : Word)
    → IsArena a
    → get_word (output a) id ref ≡ some w
    → IsAllocated (amount + 1) a (id', pos, a')
    → k < 4
    → id' < 2 ^ 32
    → IsPlaced a id ref amount k high (record {
      id = id';
      ref = pos;
      pos = pos + 1;
      arena =
          set_low id' pos
            (set_kind_and_target k pos (pos + 1))
            (set_word id ref (record { low = set_far false pos; high = id' % 2 ^ 32 }) a');
    })
place_far-IsPlaced a id ref amount k high id' pos a' w valid here allocated kinds known =
    let (grown, end, among, small) = IsAllocated-extend (amount + 1) a id' pos a' allocated in
    let bound : pos + (amount + 1) < 2 ^ 29 = omega arith in
    let low = set_kind_and_target k pos (pos + 1) in
    let word : Word = record { low = set_far false pos; high = id' % 2 ^ 32 } in
    let b = set_word id ref word a' in
    let r : Allocation = record {
      id = id';
      ref = pos;
      pos = pos + 1;
      arena = set_low id' pos low b;
    } in
    let e : output (finish high r).arena
        ≡ far (output a) id ref amount k high id' pos w here end among bound kinds known =
      get_segments_for_output-modify_word id' pos (λ w. record w { high = high })
        (set_low id' pos low b)
      ∙ ap (poke id' pos (λ w. record w { high = high })) (
          get_segments_for_output-modify_word id' pos (λ w. record w { low = low }) b
          ∙ ap (poke id' pos (λ w. record w { low = low })) (
              get_segments_for_output-modify_word id ref (λ _. word) a'
              ∙ ap (poke id ref (λ _. word)) grown)) in
    let there : get_word (output a') id ref ≡ some w =
      ap (λ m. get_word m id ref) grown
      ∙ get_word-extend (output a) id ref id' (replicate (amount + 1) zero_word) w here in
    let (valid1, there1) = modify_word-stored id ref (λ _. word) w a' allocated.0 there in
    let pad : get_word (output b) id' pos ≡ some zero_word =
      ap (λ m. get_word m id' pos)
        (get_segments_for_output-modify_word id ref (λ _. word) a'
          ∙ ap (poke id ref (λ _. word)) grown)
      ∙ pad_free (output a) id ref amount k high id' pos w here end among bound kinds known in
    let (valid2, there2) =
      modify_word-stored id' pos (λ w. record w { low = low }) zero_word b valid1 pad in
    let (valid3, there3) =
      modify_word-stored id' pos (λ w. record w { high = high }) (record zero_word { low = low })
        (set_low id' pos low b) valid2 there2 in
    record {
      arena = valid3;
      linked =
          subst (λ m. IsLinked m id ref k high r) (sym e)
            (far-IsLinked (output a) id ref amount k high id' pos w here end among bound kinds known
              r.arena);
      placed =
          subst (λ m. IsFresh (output a) m amount r) (sym e)
            (far-IsFresh (output a) id ref amount k high id' pos w here end among bound kinds known
              r.arena);
      kept =
          subst (λ m. IsKept (output a) m id ref) (sym e)
            (far-IsKept (output a) id ref amount k high id' pos w here end among bound kinds known);
    }

fits_space :
    (amount : ℕ) → amount + 1 ≤ max_segment_words → leb (amount + 1) max_segment_words ≡ true
fits_space amount h = ground arith

segment-get_word :
    (a : BuilderArena) (id ref : ℕ) (w : Word)
    → get_word (output a) id ref ≡ some w
    → (s : SegmentBuilder) × (get_elem? a.segments id ≡ some s)
segment-get_word a id ref w here = elim (Option-cases (get_elem? a.segments id)) [
  | inl found ↦ found
  | inr gone ↦
      let read = read_word-get_word a id ref w here in
      absurd (
        none-ne-some w
          (sym (ap (λ o. and_then o (λ (s : SegmentBuilder). get_elem? s.words ref)) gone) ∙ read))
]

-- In the segment of the pointer or behind a landing pad.
pub allocate_space-IsPlaced :
    (a : BuilderArena) (id ref amount k : ℕ) (w : Word)
    → IsArena a
    → length (output a) < 2 ^ 32
    → get_word (output a) id ref ≡ some w
    → amount + 1 ≤ max_segment_words
    → k < 4
    → (r : Allocation) × (allocate_space id ref amount k a ≡ some r)
      × ((high : ℕ) → IsPlaced a id ref amount k high r)
unfolding allocate_far
allocate_space-IsPlaced a id ref amount k w valid few here fits kinds =
    let (s, there) = segment-get_word a id ref w here in
    elim (allocate_in-cases amount id a s valid there) [
      | inl (pos, a', e, allocated) ↦ (
        record {
          id = id;
          ref = ref;
          pos = pos;
          arena = set_low id ref (set_kind_and_target k ref pos) a';
        },
        rw e refl,
        λ high. place_near-IsPlaced a id ref amount k high pos a' w valid here allocated kinds,
      )
      | inr full ↦
          let ((id', pos, a'), e, allocated) = allocate-IsAllocated (amount + 1) a valid fits in
          let (grown, end, among, small) = IsAllocated-extend (amount + 1) a id' pos a' allocated in
          (
            record {
              id = id';
              ref = pos;
              pos = pos + 1;
              arena =
                  set_low id' pos (set_kind_and_target k pos (pos + 1))
                    (set_word id ref (record { low = set_far false pos; high = id' % 2 ^ 32 }) a');
            },
            rw (full, fits_space amount fits, e) refl,
            λ high.
                place_far-IsPlaced a id ref amount k high id' pos a' w valid here allocated kinds
                  (omega arith),
          )
    ]
