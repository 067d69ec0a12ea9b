-- ===== src/Build/Memory/Laws.antt =====
-- Words of segments behind stores and allocations.
use capnp_import.Common.{
  ℕ, zero, suc, ◌+◌, ◌≤◌, ◌<◌, ◌≡◌, ◌≢◌, ◌⊎◌, List, [], ◌∷◌, ◌++◌, length, get_elem?, take, drop,
  replicate, some, refl, ap, ◌∙◌, arith, inl, inr, length-append,
}
use mathlib.Core.Option.{some-injective, none-ne-some}
use capnp_import.Serialize.{Word, Segment}
use capnp_import.Build.Output.{extend}
use capnp_import.Build.Memory.{modify_at, get_word, poke, segment_length}

module _ {ℓ} {A : Type ℓ} where
  pub get_elem?-modify_at :
      (i : ℕ) (f : A → A) (x : A) (xs : List A)
      → get_elem? xs i ≡ some x
      → get_elem? (modify_at i f xs) i ≡ some (f x)
  get_elem?-modify_at i f x [] h = absurd (none-ne-some x h)
  get_elem?-modify_at zero f x (y ∷ xs) h = ap some (ap f (some-injective y x h))
  get_elem?-modify_at (suc i) f x (y ∷ xs) h = get_elem?-modify_at i f x xs h

  pub get_elem?-modify_at_other :
      (i j : ℕ) (f : A → A) (xs : List A) → i ≢ j → get_elem? (modify_at j f xs) i ≡ get_elem? xs i
  get_elem?-modify_at_other i j f [] h = refl
  get_elem?-modify_at_other zero zero f (y ∷ xs) h = absurd (h refl)
  get_elem?-modify_at_other zero (suc j) f (y ∷ xs) h = refl
  get_elem?-modify_at_other (suc i) zero f (y ∷ xs) h = refl
  get_elem?-modify_at_other (suc i) (suc j) f (y ∷ xs) h =
      get_elem?-modify_at_other i j f xs (λ e. h (ap suc e))

  pub length-modify_at : (i : ℕ) (f : A → A) (xs : List A) → length (modify_at i f xs) ≡ length xs
  length-modify_at i f [] = refl
  length-modify_at zero f (x ∷ xs) = refl
  length-modify_at (suc i) f (x ∷ xs) = ap suc (length-modify_at i f xs)

  get_elem?-lt : (xs : List A) (i : ℕ) (x : A) → get_elem? xs i ≡ some x → i < length xs
  get_elem?-lt [] i x h = absurd (none-ne-some x h)
  get_elem?-lt (y ∷ xs) zero x h = omega arith
  get_elem?-lt (y ∷ xs) (suc i) x h = let below = get_elem?-lt xs i x h in omega arith

  get_elem?-append :
      (xs ys : List A) (i : ℕ) (x : A) → get_elem? xs i ≡ some x → get_elem? (xs ++ ys) i ≡ some x
  get_elem?-append [] ys i x h = absurd (none-ne-some x h)
  get_elem?-append (y ∷ xs) ys zero x h = h
  get_elem?-append (y ∷ xs) ys (suc i) x h = get_elem?-append xs ys i x h

  get_elem?-append_right :
      (xs ys : List A) (k : ℕ) → get_elem? (xs ++ ys) (length xs + k) ≡ get_elem? ys k
  get_elem?-append_right [] ys k = let e : 0 + k ≡ k = omega arith in ap (get_elem? ys) e
  get_elem?-append_right (x ∷ xs) ys k =
      let e : suc (length xs) + k ≡ suc (length xs + k) = omega arith in
      ap (get_elem? (x ∷ (xs ++ ys))) e ∙ get_elem?-append_right xs ys k

  pub get_elem?-replicate : (n k : ℕ) (x : A) → k < n → get_elem? (replicate n x) k ≡ some x
  get_elem?-replicate zero k x h = absurd (omega arith)
  get_elem?-replicate (suc n) zero x h = refl
  get_elem?-replicate (suc n) (suc k) x h = get_elem?-replicate n k x (omega arith)

-- A word that is stored is found, and the others are as they were.
pub get_word-poke :
    (id pos : ℕ) (f : Word → Word) (w : Word) (message : List Segment)
    → get_word message id pos ≡ some w
    → get_word (poke id pos f message) id pos ≡ some (f w)
get_word-poke id pos f w [] h = absurd (none-ne-some w h)
get_word-poke zero pos f w (s ∷ message) h = get_elem?-modify_at pos f w s h
get_word-poke (suc id) pos f w (s ∷ message) h = get_word-poke id pos f w message h

pub get_word-poke_other :
    (id pos id' pos' : ℕ) (f : Word → Word) (message : List Segment)
    → (id ≢ id') ⊎ (pos ≢ pos')
    → get_word (poke id' pos' f message) id pos ≡ get_word message id pos
get_word-poke_other id pos id' pos' f [] h = refl
get_word-poke_other zero pos zero pos' f (s ∷ message) (inl h) = absurd (h refl)
get_word-poke_other zero pos zero pos' f (s ∷ message) (inr h) =
    get_elem?-modify_at_other pos pos' f s h
get_word-poke_other zero pos (suc id') pos' f (s ∷ message) h = refl
get_word-poke_other (suc id) pos zero pos' f (s ∷ message) h = refl
get_word-poke_other (suc id) pos (suc id') pos' f (s ∷ message) (inl h) =
    get_word-poke_other id pos id' pos' f message (inl (λ e. h (ap suc e)))
get_word-poke_other (suc id) pos (suc id') pos' f (s ∷ message) (inr h) =
    get_word-poke_other id pos id' pos' f message (inr h)

pub segment_length-poke :
    (id id' pos' : ℕ) (f : Word → Word) (message : List Segment)
    → segment_length (poke id' pos' f message) id ≡ segment_length message id
segment_length-poke id id' pos' f [] = refl
segment_length-poke zero zero pos' f (s ∷ message) = length-modify_at pos' f s
segment_length-poke zero (suc id') pos' f (s ∷ message) = refl
segment_length-poke (suc id) zero pos' f (s ∷ message) = refl
segment_length-poke (suc id) (suc id') pos' f (s ∷ message) =
    segment_length-poke id id' pos' f message

pub get_word-lt :
    (message : List Segment) (id pos : ℕ) (w : Word)
    → get_word message id pos ≡ some w
    → pos < segment_length message id
get_word-lt [] id pos w h = absurd (none-ne-some w h)
get_word-lt (s ∷ message) zero pos w h = get_elem?-lt s pos w h
get_word-lt (s ∷ message) (suc id) pos w h = get_word-lt message id pos w h

-- Words that are appended to a segment.
pub get_word-extend :
    (message : List Segment) (id pos id' : ℕ) (added : List Word) (w : Word)
    → get_word message id pos ≡ some w
    → get_word (extend id' added message) id pos ≡ some w
get_word-extend [] id pos id' added w h = absurd (none-ne-some w h)
get_word-extend (s ∷ message) zero pos zero added w h = get_elem?-append s added pos w h
get_word-extend (s ∷ message) zero pos (suc id') added w h = h
get_word-extend (s ∷ message) (suc id) pos zero added w h = h
get_word-extend (s ∷ message) (suc id) pos (suc id') added w h =
    get_word-extend message id pos id' added w h

pub get_word-extend_added :
    (message : List Segment) (id k : ℕ) (added : List Word)
    → id ≤ length message
    → get_word (extend id added message) id (segment_length message id + k) ≡ get_elem? added k
get_word-extend_added [] zero k added h = let e : 0 + k ≡ k = omega arith in ap (get_elem? added) e
get_word-extend_added [] (suc id) k added h = absurd (omega arith)
get_word-extend_added (s ∷ message) zero k added h = get_elem?-append_right s added k
get_word-extend_added (s ∷ message) (suc id) k added h =
    get_word-extend_added message id k added (omega arith)

pub segment_length-extend :
    (message : List Segment) (id : ℕ) (added : List Word)
    → id ≤ length message
    → segment_length (extend id added message) id ≡ segment_length message id + length added
segment_length-extend [] zero added h = omega arith
segment_length-extend [] (suc id) added h = absurd (omega arith)
segment_length-extend (s ∷ message) zero added h = length-append s added
segment_length-extend (s ∷ message) (suc id) added h =
    segment_length-extend message id added (omega arith)

take-replicate_row :
    (n : ℕ) (x : Word) (xs : List Word)
    → ((k : ℕ) → k < n → get_elem? xs k ≡ some x)
    → take n xs ≡ replicate n x
take-replicate_row zero x xs h = refl
take-replicate_row (suc n) x [] h = absurd (none-ne-some x (h 0 (omega arith)))
take-replicate_row (suc n) x (y ∷ xs) h =
    ap (λ z. z ∷ take n xs) (some-injective y x (h 0 (omega arith)))
    ∙ ap (x ∷◌) (take-replicate_row n x xs (λ k below. h (suc k) (omega arith)))

-- Equal words in a row.
pub take-drop-replicate :
    (n pos : ℕ) (x : Word) (xs : List Word)
    → ((k : ℕ) → k < n → get_elem? xs (pos + k) ≡ some x)
    → take n (drop pos xs) ≡ replicate n x
take-drop-replicate n zero x xs h =
    take-replicate_row n x xs
      (λ k below. let e : k ≡ 0 + k = omega arith in ap (get_elem? xs) e ∙ h k below)
take-drop-replicate zero (suc pos) x [] h = refl
take-drop-replicate (suc n) (suc pos) x [] h = absurd (none-ne-some x (h 0 (omega arith)))
take-drop-replicate n (suc pos) x (y ∷ xs) h = take-drop-replicate n pos x xs (λ k below.
    let e : suc (pos + k) ≡ suc pos + k = omega arith in ap (get_elem? (y ∷ xs)) e ∙ h k below)
