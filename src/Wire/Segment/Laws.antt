-- ===== src/Wire/Segment/Laws.antt =====
-- What holds of the reads of a segment.
use capnp_import.Common.{
  ℕ, zero, suc, ◌+◌, ◌-◌, ◌^◌, ◌≤◌, ◌<◌, ◌≡◌, List, [], ◌∷◌, length, get_elem?, true, Option, none,
  some, refl, arith, ◌==◌, ltb, leb, Bool-cases, inl, inr,
}
use capnp_import.Serialize.{Word, Segment}
use capnp_import.Wire.{Reads, Outcome, value, Error, then_do, ◌>>◌, pure, fail, require}
use capnp_import.Wire.Holds.{Holds, result, exception}
use capnp_import.Wire.Segment.{can_read, check_object, load, get_segment, found}

pub get_elem?-lt :
    (s : Segment) (pos : ℕ) → pos < length s → (w : Word) × (get_elem? s pos ≡ some w)
get_elem?-lt [] pos h = absurd (omega arith)
get_elem?-lt (w ∷ s) zero h = (w, refl)
get_elem?-lt (w ∷ s) (suc pos) h = get_elem?-lt s pos (omega arith)

-- A load inside of a segment, whatever the limit.
pub load-Loads :
    (segment : Segment) (pos : ℕ)
    → pos < length segment
    → (w : Word) × ((limit : ℕ) → load segment pos limit ≡ value w limit)
unfolding load
load-Loads segment pos h =
    let (w, e) = get_elem?-lt segment pos h in (w, λ limit. rw (e, load) refl)

pub load-Holds :
    (segment : Segment) (pos limit : ℕ)
    → pos < length segment
    → Holds (λ (w : Word) left. left ≡ limit) (load segment pos limit)
unfolding load
load-Holds segment pos limit h =
    let (w, e) = get_elem?-lt segment pos h in rw (e, load) (result refl)

pub can_read-enough :
    (amount limit : ℕ) → amount ≤ limit → can_read amount limit ≡ value tt (limit - amount)
unfolding can_read
can_read-enough amount limit h = elim (Bool-cases (ltb limit amount)) [
  | inl e ↦ absurd (ground (arith, e, h))
  | inr e ↦ rw e refl
]

-- A bounds check that succeeds.
pub check_object-fits :
    (segment : Segment) (start size limit : ℕ)
    → start + size ≤ length segment
    → size ≤ limit
    → check_object segment start size limit ≡ value true (limit - size)
unfolding check_object
check_object-fits segment start size limit inside enough =
    elim (Bool-cases (leb (start + size) (length segment))) [
      | inl e ↦ rw (e, can_read-enough size limit enough) refl
      | inr e ↦ absurd (ground (arith, e, inside))
    ]

pub can_read-Holds :
    (amount limit : ℕ)
    → Holds (λ (u : Unit {0}) left. left + amount ≡ limit) (can_read amount limit)
unfolding can_read
can_read-Holds amount limit = elim (Bool-cases (ltb limit amount)) [
  | inl e ↦ rw e exception
  | inr e ↦ rw e (result (ground (arith, e)))
]

-- Behind a read of the limit that a bounds check makes.
Holds-charged {ℓ κ} :
    {B : Type ℓ} (Q : B → ℕ → Type κ) (size limit : ℕ) (e : Error) (m : Reads B)
    (o : Outcome (Unit {0}))
    → Holds (λ (u : Unit {0}) left. left + size ≡ limit) o
    → ((left : ℕ) → left + size ≡ limit → Holds Q (m left))
    → Holds Q (then_do (then_do o (λ _. pure true)) (λ inside. require inside e >> m))
Holds-charged Q size limit e m o (result p) k = k _ p
Holds-charged Q size limit e m o exception k = exception

-- Behind a bounds check the object is inside of its segment, and its words are taken from the limit.
pub Holds-check {ℓ κ} :
    {B : Type ℓ} (Q : B → ℕ → Type κ) (segment : Segment) (start size : ℕ) (e : Error) (m : Reads B)
    (limit : ℕ)
    → ((left : ℕ) → start + size ≤ length segment → left + size ≡ limit → Holds Q (m left))
    → Holds Q (then_do (check_object segment start size limit) (λ inside. require inside e >> m))
unfolding check_object
Holds-check Q segment start size e m limit k =
    elim (Bool-cases (leb (start + size) (length segment))) [
      | inr out ↦ rw out exception
      | inl inside ↦ rw inside (
          Holds-charged Q size limit e m (can_read size limit) (can_read-Holds size limit)
            (λ left p. k left (ground (arith, inside)) p))
    ]

found-Holds :
    (e : Error) (s : Segment) (limit : ℕ)
    → Holds (λ (s : Segment) left. (left ≡ limit) × (1 ≤ length s)) (found e s limit)
found-Holds e s limit = elim (Bool-cases (length s == 0)) [
  | inl e0 ↦ rw e0 exception
  | inr e0 ↦ elim (Bool-cases (leb (2 ^ 29) (length s))) [
    | inl e1 ↦ rw (e0, e1) exception
    | inr e1 ↦ rw (e0, e1) (result (ground (arith, e0)))
  ]
]

-- A segment that is found has words.
pub get_segment-Holds :
    (message : List Segment) (id : ℕ) (e : Error) (limit : ℕ)
    → Holds (λ (s : Segment) left. (left ≡ limit) × (1 ≤ length s)) (get_segment message id e limit)
unfolding get_segment
get_segment-Holds message id e limit = go (get_elem? message id)
  where
    go :
        (o : Option Segment)
        → Holds
            (λ (s : Segment) left. (left ≡ limit) × (1 ≤ length s))
            ((elim o as (λ _. Reads Segment) [ some s ↦ found e s | none ↦ fail e ]) limit)
    go (some s) = found-Holds e s limit
    go none = exception
