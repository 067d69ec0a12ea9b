-- ===== src/Build/Lists.antt =====
-- Lists in which one element is replaced, and lists of free words.
use capnp_import.Common.{
  ℕ, zero, suc, ◌+◌, ◌-◌, ◌≤◌, ◌≡◌, List, [], ◌∷◌, ◌++◌, take, drop, replicate, get_elem?, length,
  All, some, refl, sym, ap, ◌∙◌, subst, arith,
}
use mathlib.Core.Option.{some-injective, none-ne-some}
use capnp_import.Build.{replace_at}

module _ {ℓ} {A : Type ℓ} where
  pub get_elem?-replace_at :
      (i : ℕ) (x y : A) (xs : List A)
      → get_elem? xs i ≡ some x
      → get_elem? (replace_at i y xs) i ≡ some y
  get_elem?-replace_at i x y [] h = absurd (none-ne-some x h)
  get_elem?-replace_at zero x y (z ∷ xs) h = refl
  get_elem?-replace_at (suc i) x y (z ∷ xs) h = get_elem?-replace_at i x y xs h

  pub All-replace_at {κ} :
      (P : A → Type κ) (i : ℕ) (y : A) (xs : List A) → All P xs → P y → All P (replace_at i y xs)
  All-replace_at P i y [] each p = each
  All-replace_at P zero y (z ∷ xs) (q, each) p = (p, each)
  All-replace_at P (suc i) y (z ∷ xs) (q, each) p = (q, All-replace_at P i y xs each p)

  pub All-get_elem? {κ} :
      (P : A → Type κ) (i : ℕ) (x : A) (xs : List A) → All P xs → get_elem? xs i ≡ some x → P x
  All-get_elem? P i x [] each h = absurd (none-ne-some x h)
  All-get_elem? P zero x (z ∷ xs) (q, each) h = subst P (some-injective z x h) q
  All-get_elem? P (suc i) x (z ∷ xs) (q, each) h = All-get_elem? P i x xs each h

  drop-nil : (n : ℕ) → drop {A = A} n [] ≡ []
  drop-nil zero = refl
  drop-nil (suc n) = refl

  pub drop-drop : (m n : ℕ) (xs : List A) → drop (m + n) xs ≡ drop n (drop m xs)
  drop-drop zero n xs = ap (λ k. drop k xs) (omega arith)
  drop-drop (suc m) n [] = drop-nil (suc m + n) ∙ sym (drop-nil n)
  drop-drop (suc m) n (x ∷ xs) =
      let e : suc m + n ≡ suc (m + n) = omega arith in
      ap (λ k. drop k (x ∷ xs)) e ∙ drop-drop m n xs

  pub drop-replicate : (m n : ℕ) (x : A) → drop m (replicate n x) ≡ replicate (n - m) x
  drop-replicate zero n x = ap (λ k. replicate k x) (omega arith)
  drop-replicate (suc m) zero x = let e : 0 ≡ 0 - suc m = omega arith in ap (λ k. replicate k x) e
  drop-replicate (suc m) (suc n) x =
      let e : n - m ≡ suc n - suc m = omega arith in
      drop-replicate m n x ∙ ap (λ k. replicate k x) e

  pub take-replicate : (m n : ℕ) (x : A) → m ≤ n → take m (replicate n x) ≡ replicate m x
  take-replicate zero n x h = refl
  take-replicate (suc m) zero x h = absurd (omega arith)
  take-replicate (suc m) (suc n) x h = ap (x ∷◌) (take-replicate m n x (omega arith))

  pub get_elem?-end : (xs : List A) (x : A) → get_elem? (xs ++ (x ∷ [])) (length xs) ≡ some x
  get_elem?-end [] x = refl
  get_elem?-end (y ∷ xs) x = get_elem?-end xs x

  pub replace_at-end :
      (xs : List A) (x y : A) → replace_at (length xs) y (xs ++ (x ∷ [])) ≡ xs ++ (y ∷ [])
  replace_at-end [] x y = refl
  replace_at-end (z ∷ xs) x y = ap (z ∷◌) (replace_at-end xs x y)

  pub All-end {κ} : (P : A → Type κ) (xs : List A) (x : A) → All P xs → P x → All P (xs ++ (x ∷ []))
  All-end P [] x each p = (p, tt)
  All-end P (y ∷ xs) x (q, each) p = (q, All-end P xs x each p)
