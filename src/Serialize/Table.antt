-- ===== src/Serialize/Table.antt =====
-- The segment table of a message, read back.
use capnp_import.Common.{
  ℕ, ◌+◌, ◌-◌, ◌*◌, ◌/◌, ◌≤◌, ◌≡◌, List, [], ◌∷◌, ◌++◌, length, get_elem?, some, refl, ap, arith,
  length-append,
}
use capnp_import.Serialize.{Word, Segment, sizes, concat, total, words_of, entries_of, table}

-- The table fills its words.
pub entries_of-words_of :
    (half : ℕ) (t : List ℕ) (rest : List Word)
    → length t ≡ 2 * half
    → entries_of (words_of t ++ rest) ≡ t ++ entries_of rest
entries_of-words_of half [] rest h = refl
entries_of-words_of half (a ∷ []) rest h = absurd (omega arith)
entries_of-words_of half (a ∷ b ∷ t) rest h =
    ap (λ x. a ∷ b ∷ x) (entries_of-words_of (half - 1) t rest (omega arith))

pub length-words_of : (half : ℕ) (t : List ℕ) → length t ≡ 2 * half → length (words_of t) ≡ half
length-words_of half [] h = omega arith
length-words_of half (a ∷ []) h = absurd (omega arith)
length-words_of half (a ∷ b ∷ t) h = omega (arith, length-words_of (half - 1) t (omega arith))

length-sizes : (segments : List Segment) → length (sizes segments) ≡ length segments
length-sizes [] = refl
length-sizes (s ∷ segments) = omega (arith, length-sizes segments)

pub length-concat : (segments : List Segment) → length (concat segments) ≡ total segments
length-concat [] = refl
length-concat (s ∷ segments) =
    omega (arith, length-append s (concat segments), length-concat segments)

pub length-table :
    (segments : List Segment)
    → 1 ≤ length segments
    → length (table segments) ≡ 2 * (length segments / 2 + 1)
length-table segments h = ground (
  arith,
  length-append (sizes segments) [],
  length-append (sizes segments) (0 ∷ []),
  length-sizes segments,
)

-- The entry behind a known start of the table.
pub get_elem?-append :
    (before : List ℕ) (n : ℕ) (after : List ℕ)
    → get_elem? (before ++ n ∷ after) (length before) ≡ some n
get_elem?-append [] n after = refl
get_elem?-append (b ∷ before) n after = get_elem?-append before n after
