-- ===== src/Build/Caps/Laws.antt =====
-- Capabilities that are added to the table of a message and dropped from it.
use capnp_import.Common.{
  ℕ, zero, suc, ◌≡◌, ◌≢◌, List, [], ◌∷◌, ◌++◌, length, get_elem?, true, ltb, none, some, refl, ap,
  ◌∙◌, arith, length-append,
}
use capnp_import.Build.{BuilderArena, and_then, replace_at}
use capnp_import.Build.Lists.{get_elem?-end, get_elem?-replace_at}
use capnp_import.Build.Caps.{extract_cap, inject_cap, drop_cap}

module _ {ℓ} {A : Type ℓ} where
  get_elem?-end_other :
      (xs : List A) (x : A) (j : ℕ) → j ≢ length xs → get_elem? (xs ++ (x ∷ [])) j ≡ get_elem? xs j
  get_elem?-end_other [] x zero h = absurd (h refl)
  get_elem?-end_other [] x (suc j) h = refl
  get_elem?-end_other (y ∷ xs) x zero h = refl
  get_elem?-end_other (y ∷ xs) x (suc j) h = get_elem?-end_other xs x j (λ e. h (ap suc e))

  get_elem?-replace_at_other :
      (i j : ℕ) (y : A) (xs : List A) → j ≢ i → get_elem? (replace_at i y xs) j ≡ get_elem? xs j
  get_elem?-replace_at_other i j y [] h = refl
  get_elem?-replace_at_other zero zero y (x ∷ xs) h = absurd (h refl)
  get_elem?-replace_at_other zero (suc j) y (x ∷ xs) h = refl
  get_elem?-replace_at_other (suc i) zero y (x ∷ xs) h = refl
  get_elem?-replace_at_other (suc i) (suc j) y (x ∷ xs) h =
      get_elem?-replace_at_other i j y xs (λ e. h (ap suc e))

-- A capability that `injectCap` adds is extracted at the index that it returns, every other index
-- extracts what it did before; behind a `dropCap` of that index it extracts none, and the others
-- still what they did.
pub extract_cap-inject_cap :
    (a : BuilderArena) (cap j : ℕ)
    → j ≢ (inject_cap cap a).0
    → (extract_cap (inject_cap cap a).0 (inject_cap cap a).1 ≡ some cap)
      × (extract_cap j (inject_cap cap a).1 ≡ extract_cap j a)
      × ((a' : BuilderArena) × (drop_cap (inject_cap cap a).0 (inject_cap cap a).1 ≡ some a')
          × (extract_cap (inject_cap cap a).0 a' ≡ none)
          × (extract_cap j a' ≡ extract_cap j a))
unfolding extract_cap inject_cap drop_cap
extract_cap-inject_cap a cap j other =
    let index = length a.cap_table in
    let table = a.cap_table ++ (some cap ∷ []) in
    let here = get_elem?-end a.cap_table (some cap) in
    let others = get_elem?-end_other a.cap_table (some cap) j other in
    let len : ltb index (length table) ≡ true =
      (let size = length-append a.cap_table (some cap ∷ []) in ground (arith, size)) in
    (
      ap (λ o. and_then o (λ cap. cap)) here,
      ap (λ o. and_then o (λ cap. cap)) others,
      (
        record a { cap_table = replace_at index none table },
        rw len refl,
        ap (λ o. and_then o (λ cap. cap)) (get_elem?-replace_at index (some cap) none table here),
        ap (λ o. and_then o (λ cap. cap))
            (get_elem?-replace_at_other index j none table other ∙ others),
      ),
    )
