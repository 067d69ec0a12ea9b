-- ===== src/Build/Zero/Laws.antt =====
-- An object that is overwritten: its words become zero, and no other word of the arena changes.
use capnp_import.Common.{
  ℕ, zero, suc, ◌+◌, ◌*◌, ◌≡◌, ◌≤◌, ◌<◌, ◌⊎◌, length, get_elem?, ltb, leb, ◌==◌, ◌&&◌,
  if◌then◌else◌, some, refl, ◌∙◌, ap, arith, inl, inr, leb-eq-true, ==-eq-false,
}
use capnp_import.Serialize.{Word}
use capnp_import.Wire.Pointer.{
  kind, struct_kind, list_kind, ptr_count, word_size, data_size, element_count, element_size,
  pointer_element, data_bits_per_element,
}
use capnp_import.Wire.Size.{round_bits_up_to_words}
use capnp_import.Build.{zero_word, SegmentBuilder, BuilderArena}
use capnp_import.Build.Laws.{IsArena}
use capnp_import.Build.Memory.{read_word}
use capnp_import.Build.Zero.{
  trusted_target, fill_zero, zero_memory, zero_pointers, zero_struct, zero_list, zero_tagged,
  zero_object,
}
use capnp_import.Build.Zero.Words.{zeroed-IsSegment, word_in-zeroed}

fill_zero-IsArena : (id pos n : ℕ) (a : BuilderArena) → IsArena a → IsArena (fill_zero id pos n a)
fill_zero-IsArena id pos zero a valid = valid
fill_zero-IsArena id pos (suc n) a valid =
    let (segments, small) = fill_zero-IsArena id (pos + 1) n a valid in
    (zeroed-IsSegment id pos (fill_zero id (pos + 1) n a).segments segments, small)

-- A word after the words from `ptr` to `stop` of the segment `id` are overwritten.
abbrev pub overwritten : ℕ → ℕ → ℕ → ℕ → ℕ → Word → Word
overwritten id ptr stop i p w = if i == id && (leb ptr p && ltb p stop) then zero_word else w

overwritten_none : (id ptr i p : ℕ) (w : Word) → overwritten id ptr (ptr + 0) i p w ≡ w
overwritten_none id ptr i p w = ground arith

overwritten_step :
    (id ptr n i p : ℕ) (w : Word)
    → (if i == id && p == ptr then zero_word else overwritten id (ptr + 1) (ptr + 1 + n) i p w)
      ≡ overwritten id ptr (ptr + suc n) i p w
overwritten_step id ptr n i p w = ground arith

fill_zero-overwritten :
    (id ptr n i p : ℕ) (a : BuilderArena) (w : Word)
    → read_word a i p ≡ some w
    → read_word (fill_zero id ptr n a) i p ≡ some (overwritten id ptr (ptr + n) i p w)
fill_zero-overwritten id ptr zero i p a w h = rw (overwritten_none id ptr i p w) h
fill_zero-overwritten id ptr (suc n) i p a w h =
    word_in-zeroed id ptr i p (fill_zero id (ptr + 1) n a).segments
      (overwritten id (ptr + 1) (ptr + 1 + n) i p w)
      (fill_zero-overwritten id (ptr + 1) n i p a w h)
    ∙ ap (λ t. some t) (overwritten_step id ptr n i p w)

-- Null pointers in `n` words from `q` on.
abbrev pub AreNull : BuilderArena → ℕ → ℕ → ℕ → Type 0
AreNull a id q zero = Unit
AreNull a id q (suc n) = (read_word a id q ≡ some zero_word) × AreNull a id (q + 1) n

-- The pointer `ref` is one to a struct of which all pointers are null, or to a list of numbers, in
-- the words from `ptr` on.
abbrev pub IsFlat : BuilderArena → ℕ → ℕ → Word → Type 0
IsFlat a id ptr ref =
    ((kind ref ≡ struct_kind) × AreNull a id (ptr + data_size ref) (ptr_count ref))
    ⊎ ((kind ref ≡ list_kind) × (0 < element_size ref) × (element_size ref < pointer_element))

-- How many words the object of such a pointer has.
abbrev pub flat_words : Word → ℕ
flat_words ref =
    if kind ref == struct_kind
    then word_size ref
    else round_bits_up_to_words (element_count ref * data_bits_per_element (element_size ref))

module _ (id : ℕ) (s : SegmentBuilder) (a : BuilderArena)
    (here : get_elem? a.segments id ≡ some s) where
  zero_memory-fill_zero :
      (ptr n : ℕ) → ptr + n ≤ length s.words → zero_memory id ptr n a ≡ some (fill_zero id ptr n a)
  unfolding zero_memory
  zero_memory-fill_zero ptr n h = rw (here, leb-eq-true (ptr + n) (length s.words) h) refl

  zero_object_null :
      (fuel pos : ℕ)
      → read_word a id pos ≡ some zero_word
      → pos < length s.words
      → zero_object (suc fuel) id pos a ≡ some a
  unfolding zero_object zero_tagged zero_struct zero_pointers
  zero_object_null fuel pos null h = rw null (zero_memory-fill_zero (pos + 1 + 0) 0 (omega arith))

  zero_pointers_null :
      (fuel q n : ℕ)
      → AreNull a id q n
      → q + n ≤ length s.words
      → zero_pointers (zero_object (suc fuel)) id q n a ≡ some a
  unfolding zero_pointers
  zero_pointers_null fuel q zero nulls h = refl
  zero_pointers_null fuel q (suc n) (null, nulls) h =
      rw (zero_object_null fuel q null (omega arith))
        (zero_pointers_null fuel (q + 1) n nulls (omega arith))

  zero_tagged-fill_zero :
      (fuel ptr : ℕ) (ref : Word)
      → IsFlat a id ptr ref
      → ptr + flat_words ref ≤ length s.words
      → zero_tagged (zero_object (suc fuel)) id ref ptr a
        ≡ some (fill_zero id ptr (flat_words ref) a)
  unfolding zero_tagged zero_struct zero_list
  zero_tagged-fill_zero fuel ptr ref (inl (e, nulls)) h =
      let inside : ptr + word_size ref ≤ length s.words = rw e at h in
      rw e (
        rw
          (zero_pointers_null fuel (ptr + data_size ref) (ptr_count ref) nulls
            (omega (arith, inside)))
          (zero_memory-fill_zero ptr (word_size ref) inside))
  zero_tagged-fill_zero fuel ptr ref (inr (e, some_bits, no_pointers)) h =
      let n =
        round_bits_up_to_words (element_count ref * data_bits_per_element (element_size ref)) in
      let inside : ptr + n ≤ length s.words = rw e at h in
      rw e (
        rw
          (
            ==-eq-false (element_size ref) 0 (λ z. omega arith),
            ==-eq-false (element_size ref) 6 (λ z. omega arith),
            ==-eq-false (element_size ref) 7 (λ z. omega arith),
          )
          (zero_memory-fill_zero ptr n inside))

IsFlat-kind :
    (a : BuilderArena) (id ptr : ℕ) (ref : Word)
    → IsFlat a id ptr ref
    → (kind ref ≡ struct_kind) ⊎ (kind ref ≡ list_kind)
IsFlat-kind a id ptr ref (inl (e, nulls)) = inl e
IsFlat-kind a id ptr ref (inr (e, some_bits, no_pointers)) = inr e

zero_object-zero_tagged :
    (id pos ptr : ℕ) (ref : Word) (a : BuilderArena)
    → read_word a id pos ≡ some ref
    → trusted_target pos ref ≡ some ptr
    → (fuel : ℕ) → (kind ref ≡ struct_kind) ⊎ (kind ref ≡ list_kind)
    → zero_object (suc (suc fuel)) id pos a ≡ zero_tagged (zero_object (suc fuel)) id ref ptr a
unfolding zero_object zero_tagged
zero_object-zero_tagged id pos ptr ref a at target fuel (inl e) = rw (at, e, target) refl
zero_object-zero_tagged id pos ptr ref a at target fuel (inr e) = rw (at, e, target) refl

-- `zeroObject` in a well-formed arena, of a pointer to a struct of which all pointers are null, or
-- to a list of bits or numbers, where the object stands in the segment of the pointer: with fuel
-- for the object and its null pointers it does not throw, the arena stays well-formed, each word of
-- the object is zero, and every other word of the arena is what it was.
pub zero_object-overwritten :
    (fuel id pos ptr i p : ℕ) (ref w : Word) (s : SegmentBuilder) (a : BuilderArena)
    → IsArena a
    → get_elem? a.segments id ≡ some s
    → read_word a id pos ≡ some ref
    → trusted_target pos ref ≡ some ptr
    → IsFlat a id ptr ref
    → ptr + flat_words ref ≤ length s.words
    → read_word a i p ≡ some w
    → (a' : BuilderArena) × (zero_object (suc (suc fuel)) id pos a ≡ some a')
      × IsArena a'
      × (read_word a' i p
          ≡ some (if i == id && (leb ptr p && ltb p (ptr + flat_words ref)) then zero_word else w))
unfolding zero_object
zero_object-overwritten fuel id pos ptr i p ref w s a valid here at target flat inside word =
    let n = flat_words ref in
    let run =
      zero_object-zero_tagged id pos ptr ref a at target fuel (IsFlat-kind a id ptr ref flat)
      ∙ zero_tagged-fill_zero id s a here fuel ptr ref flat inside in
    (
      fill_zero id ptr n a,
      run,
      fill_zero-IsArena id ptr n a valid,
      fill_zero-overwritten id ptr n i p a w word,
    )
