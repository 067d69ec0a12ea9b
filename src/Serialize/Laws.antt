-- ===== src/Serialize/Laws.antt =====
-- A message that is written as a flat array is read back as it was.
use capnp_import.Common.{
  ℕ, suc, ◌+◌, ◌-◌, ◌^◌, ◌/◌, ◌%◌, ◌≤◌, ◌<◌, ◌≡◌, List, [], ◌∷◌, ◌++◌, length, get_elem?, ◌==◌,
  if◌then◌else◌, none, some, refl, arith, sym, ◌∙◌, ap, length-append, append_assoc, All,
  take-append, drop-append, leb-eq-true, ltb-eq-false,
}
use capnp_import.Serialize.{
  Word, Segment, sizes, concat, total, words_of, entries_of, table, entry, or_zero, slice,
  segment_count, read_more, add_segment, new_reader, message_to_flat_array, read_rest,
  compute_serialized_size_in_words,
}
use capnp_import.Serialize.Table.{
  entries_of-words_of, length-words_of, length-table, length-concat, get_elem?-append,
}

abbrev pub IsShort : Segment → Type 0
IsShort s = length s < 2 ^ 32

entry-append :
    (array : List Word) (before : List ℕ) (n : ℕ) (after : List ℕ)
    → entries_of array ≡ before ++ n ∷ after
    → entry array (length before) ≡ n
entry-append array before n after e =
    ap (λ l. or_zero (get_elem? l (length before))) e ∙ ap or_zero (get_elem?-append before n after)

slice-append :
    (before s after : List Word) → slice (before ++ (s ++ after)) (length before) (length s) ≡ s
slice-append before s after = rw (drop-append before (s ++ after), take-append s after) refl

read_more-append :
    (array : List Word) (segments : List Segment) (t after : List ℕ) (before rest : List Word)
    → entries_of array ≡ t ++ (sizes segments ++ after)
    → array ≡ before ++ (concat segments ++ rest)
    → All IsShort segments
    → (i : ℕ) → length t ≡ i + 1
    → read_more array (length segments) i (length before)
      ≡ some (segments, length before + total segments)
unfolding read_more
read_more-append array [] t after before rest et ea short i n = ground arith
read_more-append array (s ∷ segments) t after before rest et ea (h, short) i n =
    let entry_of : entry array (i + 1) ≡ length s =
      ap (entry array) (sym n)
      ∙ entry-append array t (length s % 2 ^ 32) (sizes segments ++ after) et
      ∙ omega arith in
    let split : array ≡ before ++ (s ++ (concat segments ++ rest)) =
      ea ∙ ap (λ l. before ++ l) (append_assoc s (concat segments) rest) in
    let slice_of : slice array (length before) (length s) ≡ s =
      ap (λ a. slice a (length before) (length s)) split
      ∙ slice-append before s (concat segments ++ rest) in
    let fits : length before + length s ≤ length array = omega (
      arith,
      ap length split,
      length-append before (s ++ (concat segments ++ rest)),
      length-append s (concat segments ++ rest),
    ) in
    let more =
      read_more-append array segments (t ++ (length s % 2 ^ 32 ∷ [])) after (before ++ s) rest
        (et ∙ sym (append_assoc t _ _)) (split ∙ sym (append_assoc before s _)) short (i + 1)
        (omega (arith, n, length-append t (length s % 2 ^ 32 ∷ []))) in
    rw entry_of (
      rw (leb-eq-true _ _ fits, slice_of)
        (ap (add_segment s)
            (ap (read_more array (length segments) (i + 1)) (sym (length-append before s)) ∙ more)
          ∙ ap (λ e. some (s ∷ segments, e)) (omega (arith, length-append before s))))

new_reader_lem :
    (array : List Word) (k size end : ℕ) (s : Segment) (segments : List Segment)
    → segment_count array ≡ suc k
    → entry array 1 ≡ size
    → suc k / 2 + 1 + size ≤ length array
    → slice array (suc k / 2 + 1) size ≡ s
    → read_more array (suc k - 1) 1 (suc k / 2 + 1 + size) ≡ some (segments, end)
    → new_reader array ≡ record { error = none; segment0 = s; more_segments = segments; end = end }
unfolding new_reader read_rest
new_reader_lem array k size end s segments count first fits slice_of more =
    rw (count, first)
      (rw
        (
          ltb-eq-false (length array) 1 (omega arith),
          ltb-eq-false (length array) (suc k / 2 + 1) (omega arith),
          ltb-eq-false (length array) (suc k / 2 + 1 + size) fits,
        )
        (rw (slice_of, more) refl))

-- Segments, one at least, and fewer than 2^32 in number and in words each, are laid out in an array
-- of the size that is computed for them, and a reader of that array, with anything behind it, finds
-- them all, reports no error, and ends where the array ends.
pub new_reader-message_to_flat_array :
    (s : Segment) (segments : List Segment) (rest : List Word)
    → All IsShort (s ∷ segments)
    → length (s ∷ segments) < 2 ^ 32
    → (array : List Word) × (n : ℕ) × (message_to_flat_array (s ∷ segments) ≡ some array)
      × (compute_serialized_size_in_words (s ∷ segments) ≡ some n)
      × (length array ≡ n)
      × (new_reader (array ++ rest)
          ≡ record { error = none; segment0 = s; more_segments = segments; end = n })
unfolding message_to_flat_array compute_serialized_size_in_words
new_reader-message_to_flat_array s segments rest (h, short) n =
    let t = table (s ∷ segments) in
    let pad : List ℕ = if length (s ∷ segments) % 2 == 0 then 0 ∷ [] else [] in
    let half = length (s ∷ segments) / 2 + 1 in
    let count = (length (s ∷ segments) - 1) % 2 ^ 32 in
    let array = words_of t ++ concat (s ∷ segments) in
    let filled = length-table (s ∷ segments) (omega arith) in
    let size = length-words_of half t filled in
    let split : array ++ rest ≡ words_of t ++ (concat (s ∷ segments) ++ rest) =
      append_assoc (words_of t) (concat (s ∷ segments)) rest in
    let entries : entries_of (array ++ rest)
        ≡ count
          ∷ length s % 2 ^ 32
          ∷ ((sizes segments ++ pad) ++ entries_of (concat (s ∷ segments) ++ rest)) =
      ap entries_of split ∙ entries_of-words_of half t (concat (s ∷ segments) ++ rest) filled in
    let split_first : array ++ rest ≡ words_of t ++ (s ++ (concat segments ++ rest)) =
      split ∙ ap (λ l. words_of t ++ l) (append_assoc s (concat segments) rest) in
    let slice_of : slice (array ++ rest) half (length s) ≡ s =
      ap (λ a. slice a half (length s)) split_first
      ∙ ap (λ m. slice (words_of t ++ (s ++ (concat segments ++ rest))) m (length s)) (sym size)
      ∙ slice-append (words_of t) s (concat segments ++ rest) in
    let more =
      read_more-append (array ++ rest) segments (count ∷ length s % 2 ^ 32 ∷ [])
        (pad ++ entries_of (concat (s ∷ segments) ++ rest)) (words_of t ++ s) rest
        (entries
          ∙ ap (λ l. count ∷ length s % 2 ^ 32 ∷ l)
              (append_assoc (sizes segments) pad (entries_of (concat (s ∷ segments) ++ rest))))
        (split_first ∙ sym (append_assoc (words_of t) s (concat segments ++ rest))) short 1 refl in
    let long = length-append (words_of t) s in
    let whole : length array ≡ half + total (s ∷ segments) = omega (
      arith,
      length-append (words_of t) (concat (s ∷ segments)),
      size,
      length-concat (s ∷ segments),
    ) in
    (
      array,
      half + total (s ∷ segments),
      refl,
      refl,
      whole,
      new_reader_lem (array ++ rest) (length segments) (length s) (half + total (s ∷ segments)) s
          segments (ap (λ l. (or_zero (get_elem? l 0) + 1) % 2 ^ 32) entries ∙ omega arith)
          (ap (λ l. or_zero (get_elem? l 1)) entries ∙ omega arith)
          (omega (arith, whole, length-append array rest)) slice_of
          (ap (λ k. read_more (array ++ rest) k 1 (half + length s)) (omega arith)
            ∙ ap (read_more (array ++ rest) (length segments) 1) (omega (arith, long, size))
            ∙ more
            ∙ ap (λ e. some (segments, e)) (omega (arith, long, size))),
    )
