-- ===== src/Build/Objects/Reached.antt =====
-- Objects that a null pointer is made to lead to.
use capnp_import.Common.{
  ℕ, ◌+◌, ◌%◌, ◌^◌, ◌≤◌, ◌<◌, ◌≡◌, ◌⊎◌, List, length, true, false, ◌==◌, ◌&&◌, if◌then◌else◌, some,
  refl, ap, ◌∙◌, subst, arith, Bool-cases, inl, inr,
}
use capnp_import.Serialize.{Word, Segment}
use capnp_import.Wire.Pointer.{
  kind, is_null, struct_kind, list_kind, target, check_offset, set_kind_and_target_for_empty_struct,
}
use capnp_import.Build.{zero_word, max_segment_words, BuilderArena, get_segments_for_output}
use capnp_import.Build.Laws.{IsArena}
use capnp_import.Build.Memory.{set_low, get_word, poke, segment_length}
use capnp_import.Build.Memory.Laws.{get_word-poke_other, get_word-lt}
use capnp_import.Build.Memory.Arenas.{
  get_segments_for_output-modify_word, read_word-get_word, modify_word-stored,
}
use capnp_import.Build.Objects.{Allocation, allocate_space, allocate_object, finish}
use capnp_import.Build.Objects.Placed.{IsLinked, IsKept, IsPlaced}
use capnp_import.Build.Objects.Laws.{allocate_space-IsPlaced}

-- The pointer leads to the object, and is not null; the object is inside of its segment.
pub record IsReached (before message : List Segment) (id ref amount k high : ℕ) (r : Allocation)
    : Type 0 where
  pub linked : IsLinked message id ref k high r
  pub used : is_null linked.tag ≡ false
  pub inside : r.pos + amount ≤ segment_length message r.id
  pub kept : IsKept before message id ref

-- Sizes that keep a pointer from being null: those of a list, or of a struct that is not empty.
abbrev pub IsSized : ℕ → ℕ → ℕ → Type 0
IsSized k amount high = (k ≡ list_kind) ⊎ ((k ≡ struct_kind) × (0 < amount → 0 < high))

IsSized-is_null :
    (w : Word) (k amount high : ℕ)
    → kind w ≡ k
    → w.high ≡ high
    → (amount == 0 && k == struct_kind) ≡ false
    → IsSized k amount high
    → is_null w ≡ false
IsSized-is_null w k amount high kind_of sizes some_words (inl is_list) =
    let odd : w.low % 4 ≡ 1 = kind_of ∙ is_list in
    let nonzero : (w.low == 0) ≡ false = ground arith in rw nonzero refl
IsSized-is_null w k amount high kind_of sizes some_words (inr (is_struct, sized)) =
    let positive : 0 < amount = ground (arith, some_words, is_struct) in
    let h = sized positive in
    let nonzero : (w.high == 0) ≡ false = ground arith in
    elim (Bool-cases (w.low == 0)) [ inl e ↦ rw (e, nonzero) refl | inr e ↦ rw e refl ]

pub record IsMade (a : BuilderArena) (id ref amount k high : ℕ) (r : Allocation) : Type 0 where
  pub arena : IsArena (finish high r).arena
  pub reached :
      IsReached
        (get_segments_for_output a)
        (get_segments_for_output (finish high r).arena)
        id
        ref
        amount
        k
        high
        r
  pub zeros :
      (n : ℕ)
      → n < amount
      → get_word (get_segments_for_output (finish high r).arena) r.id (r.pos + n) ≡ some zero_word
  pub fresh : (n : ℕ) → n < amount → segment_length (get_segments_for_output a) r.id ≤ r.pos + n

IsPlaced-IsMade :
    (a : BuilderArena) (id ref amount k high : ℕ) (r : Allocation)
    → (is_null-tag : (w : Word) → kind w ≡ k → w.high ≡ high → is_null w ≡ false)
    → IsPlaced a id ref amount k high r
    → IsMade a id ref amount k high r
IsPlaced-IsMade a id ref amount k high r sized placed =
    let start = placed.placed.fresh in
    let end = placed.placed.end in
    record {
      arena = placed.arena;
      reached = record {
        linked = placed.linked;
        used = sized placed.linked.tag placed.linked.kind_of placed.linked.sizes;
        inside = omega arith;
        kept = placed.kept;
      };
      zeros = placed.placed.zeros;
      fresh = λ n below. omega arith;
    }

-- An empty struct lies where its pointer lies.
target_empty :
    (size pos high : ℕ)
    → pos < size
    → target size pos (record { low = set_kind_and_target_for_empty_struct; high = high }) ≡ pos
unfolding set_kind_and_target_for_empty_struct check_offset
target_empty size pos high inside = ground arith

empty-IsMade :
    (a : BuilderArena) (id ref high : ℕ) (w : Word)
    → IsArena a
    → get_word (get_segments_for_output a) id ref ≡ some w
    → IsMade a id ref 0 struct_kind high (record {
      id = id;
      ref = ref;
      pos = ref;
      arena = set_low id ref set_kind_and_target_for_empty_struct a;
    })
unfolding set_kind_and_target_for_empty_struct
empty-IsMade a id ref high w valid here =
    let low : ℕ = 0xfffffffc in
    let b = set_low id ref low a in
    let r : Allocation = record { id = id; ref = ref; pos = ref; arena = b } in
    let (valid1, there1) = modify_word-stored id ref (λ w. record w { low = low }) w a valid here in
    let (valid2, there2) =
      modify_word-stored id ref (λ w. record w { high = high }) (record w { low = low }) b valid1
        there1 in
    let message = get_segments_for_output (finish high r).arena in
    let inside = get_word-lt message id ref (record { low = low; high = high }) there2 in
    let e : message
        ≡ poke id ref (λ w. record w { high = high })
            (poke id ref (λ w. record w { low = low }) (get_segments_for_output a)) =
      get_segments_for_output-modify_word id ref (λ w. record w { high = high }) b
      ∙ ap (poke id ref (λ w. record w { high = high }))
          (get_segments_for_output-modify_word id ref (λ w. record w { low = low }) a) in
    record {
      arena = valid2;
      reached = record {
        linked = record {
          tag = record { low = low; high = high };
          tagged = there2;
          kind_of = refl;
          sizes = refl;
          leads = target_empty (segment_length message id) ref high inside;
          from = inl (refl, refl);
        };
        used = refl;
        inside = omega arith;
        kept = λ i p x old other.
            ap (λ m. get_word m i p) e
            ∙ get_word-poke_other i p id ref (λ w. record w { high = high }) _ other
            ∙ get_word-poke_other i p id ref (λ w. record w { low = low }) _ other
            ∙ old;
      };
      zeros = λ n below. absurd (omega arith);
      fresh = λ n below. absurd (omega arith);
    }

abbrev empty_struct : ℕ → ℕ → BuilderArena → Allocation
empty_struct id ref a = record {
  id = id;
  ref = ref;
  pos = ref;
  arena = set_low id ref set_kind_and_target_for_empty_struct a;
}

made_by :
    (a : BuilderArena) (fuel id ref amount k : ℕ) (w : Word)
    → get_word (get_segments_for_output a) id ref ≡ some w
    → is_null w ≡ true
    → allocate_object fuel id ref amount k a ≡ (
        if amount == 0 && k == struct_kind
        then some (empty_struct id ref a)
        else allocate_space id ref amount k a)
unfolding allocate_object
made_by a fuel id ref amount k w here null = rw (read_word-get_word a id ref w here) (rw null refl)

-- `allocate` for a null pointer.
pub allocate_object-IsMade :
    (a : BuilderArena) (fuel id ref amount k : ℕ) (w : Word)
    → IsArena a
    → length (get_segments_for_output a) < 2 ^ 32
    → get_word (get_segments_for_output a) id ref ≡ some w
    → is_null w ≡ true
    → amount + 1 ≤ max_segment_words
    → k < 2
    → (r : Allocation) × (allocate_object fuel id ref amount k a ≡ some r)
      × ((high : ℕ) → IsSized k amount high → IsMade a id ref amount k high r)
allocate_object-IsMade a fuel id ref amount k w valid few here null fits kinds =
    elim (Bool-cases (amount == 0 && k == struct_kind)) [
      | inl empty ↦
          let none_needed : 0 ≡ amount = ground (arith, empty) in
          let is_struct : struct_kind ≡ k = ground (arith, empty) in
          (
            empty_struct id ref a,
            made_by a fuel id ref amount k w here null ∙ rw empty refl,
            λ high sized.
                subst (λ k. IsMade a id ref amount k high (empty_struct id ref a)) is_struct
                  (subst (λ n. IsMade a id ref n struct_kind high (empty_struct id ref a))
                    none_needed (empty-IsMade a id ref high w valid here)),
          )
      | inr some_words ↦
          let (r, e, placed) =
            allocate_space-IsPlaced a id ref amount k w valid few here fits (omega arith) in
          (
            r,
            made_by a fuel id ref amount k w here null ∙ rw some_words e,
            λ high sized.
                IsPlaced-IsMade a id ref amount k high r
                  (λ tag kind_of sizes.
                    IsSized-is_null tag k amount high kind_of sizes some_words sized)
                  (placed high),
          )
    ]
