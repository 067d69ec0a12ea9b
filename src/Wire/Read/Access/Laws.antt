-- ===== src/Wire/Read/Access/Laws.antt =====
-- The accessors of readers inside of their segments return readers inside of their segments.
use capnp_import.Common.{
  ℕ, ◌+◌, ◌*◌, ◌/◌, ◌%◌, ◌≤◌, ◌<◌, ◌≡◌, ◌⊎◌, length, ltb, refl, ap, ◌∙◌, arith, Bool-cases, inl,
  inr,
}
use capnp_import.Wire.{too_deep}
use capnp_import.Wire.Holds.{Holds, result, Holds-require}
use capnp_import.Wire.Read.{PointerReader, StructReader, ListReader}
use capnp_import.Wire.Read.Access.{get_pointer_field, get_pointer_element, get_struct_element}
use capnp_import.Wire.Read.Laws.{IsPointer, IsStruct, IsDefaultOr}
use capnp_import.Wire.Read.Lists.{IsList}

pub get_pointer_field-IsPointer :
    (s : StructReader) (index : ℕ)
    → IsStruct s
    → IsDefaultOr
        (λ (r : PointerReader). IsPointer r × (r.nesting_limit ≡ s.nesting_limit))
        (get_pointer_field s index)
unfolding get_pointer_field
get_pointer_field-IsPointer s index (body, inl no_pointers) =
    elim (Bool-cases (ltb index s.pointer_count)) [
      | inl e ↦ absurd (ground (arith, e, no_pointers))
      | inr e ↦ rw e tt
    ]
get_pointer_field-IsPointer s index (body, inr (aligned, inside)) =
    elim (Bool-cases (ltb index s.pointer_count)) [
      | inl e ↦ rw e ((ground (arith, aligned), ground (arith, e, inside)), refl)
      | inr e ↦ rw e tt
    ]

-- The bits of an element are those of the list.
pub element_inside :
    (index count step address len : ℕ)
    → index < count
    → 8 * address + count * step ≤ 64 * len
    → 8 * address + 8 * (index * step / 8) + step ≤ 64 * len
element_inside index count step address len h inside = grind arith

times_words : (index words : ℕ) → index * (64 * words) ≡ 64 * (index * words)
times_words index words = grind arith

step_words : (index step : ℕ) → step % 64 ≡ 0 → index * step / 8 % 8 ≡ 0
step_words index step h =
    let words : step ≡ 64 * (step / 64) = omega arith in
    let e : index * step ≡ 64 * (index * (step / 64)) =
      ap (index *◌) words ∙ times_words index (step / 64) in
    omega arith

pub get_pointer_element-IsPointer :
    (l : ListReader) (index : ℕ)
    → IsList l
    → 0 < l.pointer_count
    → index < l.count
    → IsPointer (get_pointer_element l index)
      × ((get_pointer_element l index).nesting_limit ≡ l.nesting_limit)
unfolding get_pointer_element
get_pointer_element-IsPointer l index (inside, aligned, fits, inl no_pointers) some_pointers h =
    absurd (omega arith)
get_pointer_element-IsPointer l index (inside, aligned, fits, inr (words, steps)) some_pointers h =
    let at_word = step_words index l.step steps in
    let within = element_inside index l.count l.step l.address (length l.segment) h inside in
    ((omega arith, omega arith), refl)

pub get_struct_element-IsStruct :
    (l : ListReader) (index limit : ℕ)
    → IsList l
    → index < l.count
    → Holds
        (λ (s : StructReader) left.
          IsStruct s × (s.nesting_limit < l.nesting_limit) × (left ≡ limit))
        (get_struct_element l index limit)
unfolding get_struct_element
get_struct_element-IsStruct l index limit (inside, aligned, fits, no_pointers) h =
    Holds-require
      (λ (s : StructReader) left. IsStruct s × (s.nesting_limit < l.nesting_limit) × (left ≡ limit))
      (ltb 0 l.nesting_limit) too_deep _ limit
      λ deep.
        let within = element_inside index l.count l.step l.address (length l.segment) h inside in
        result ((omega arith, pointers no_pointers), ground (arith, deep), refl)
  where
    pointers :
        (l.pointer_count ≡ 0) ⊎ ((l.data_bits % 64 ≡ 0) × (l.step % 64 ≡ 0))
        → (l.pointer_count ≡ 0)
          ⊎ (((l.address + index * l.step / 8 + l.data_bits / 8) % 8 ≡ 0)
              × (l.address + index * l.step / 8 + l.data_bits / 8 + 8 * l.pointer_count
                  ≤ 8 * length l.segment))
    pointers (inl none_there) = inl none_there
    pointers (inr (words, steps)) =
        let at_word = step_words index l.step steps in
        let within = element_inside index l.count l.step l.address (length l.segment) h inside in
        inr (omega arith, omega arith)
