-- ===== src/Serialize.antt =====
-- Messages as flat arrays: capnproto/c++/src/capnp/serialize.c++.
pub mod Stream
pub mod Table
pub mod Laws
use capnp_import.Common.{
  ℕ, zero, suc, ◌+◌, ◌-◌, ◌*◌, ◌^◌, ◌/◌, ◌%◌, List, [], ◌∷◌, ◌++◌, length, take, drop, get_elem?,
  Bool, true, false, ◌==◌, ltb, leb, if◌then◌else◌, Option, none, some,
}

-- A word of a message, as its two `WireValue<uint32_t>`.
pub record Word : Type 0 where
  pub low : ℕ
  pub high : ℕ

abbrev pub Segment : Type 0
Segment = List Word

abbrev pub sizes : List Segment → List ℕ
sizes [] = []
sizes (s ∷ segments) = length s % 2 ^ 32 ∷ sizes segments

abbrev pub concat : List Segment → List Word
concat [] = []
concat (s ∷ segments) = s ++ concat segments

abbrev pub total : List Segment → ℕ
total [] = 0
total (s ∷ segments) = length s + total segments

-- An array of `uint32_t` as words; the array of words as `uint32_t`.
abbrev pub words_of : List ℕ → List Word
words_of [] = []
words_of (a ∷ []) = record { low = a; high = 0 } ∷ []
words_of (a ∷ b ∷ table) = record { low = a; high = b } ∷ words_of table

abbrev pub entries_of : List Word → List ℕ
entries_of [] = []
entries_of (w ∷ words) = w.low ∷ w.high ∷ entries_of words

-- The segment table.
abbrev pub table : List Segment → List ℕ
table segments =
    ((length segments - 1) % 2 ^ 32 ∷ sizes segments)
    ++ (if length segments % 2 == 0 then 0 ∷ [] else [])

-- `none` is the exception that no message was initialized.
pub compute_serialized_size_in_words : List Segment → Option ℕ
compute_serialized_size_in_words [] = none
compute_serialized_size_in_words (s ∷ segments) =
    some (length (s ∷ segments) / 2 + 1 + total (s ∷ segments))

pub message_to_flat_array : List Segment → Option (List Word)
message_to_flat_array [] = none
message_to_flat_array (s ∷ segments) =
    some (words_of (table (s ∷ segments)) ++ concat (s ∷ segments))

-- The pieces that `writeMessage` hands to `output.write`.
abbrev pieces_of : List Segment → List (List Word)
pieces_of [] = []
pieces_of (s ∷ segments) = s ∷ pieces_of segments

pub write_message : List Segment → Option (List (List Word))
write_message [] = none
write_message (s ∷ segments) = some (words_of (table (s ∷ segments)) ∷ pieces_of (s ∷ segments))

-- What a `KJ_REQUIRE` of the constructor complains about.
pub data Premature : Type 0 where
  in_segment_table in_first_segment in_segment : Premature

-- The state of a `FlatArrayMessageReader`; `end` counts from the start of the array.
pub record Reader : Type 0 where
  pub error : Option Premature
  pub segment0 : Segment
  pub more_segments : List Segment
  pub end : ℕ

abbrev pub or_zero : Option ℕ → ℕ
or_zero (some n) = n
or_zero none = 0

-- `table[i].get()`
abbrev pub entry : List Word → ℕ → ℕ
entry array i = or_zero (get_elem? (entries_of array) i)

abbrev pub segment_count : List Word → ℕ
segment_count array = (entry array 0 + 1) % 2 ^ 32

abbrev pub slice : List Word → ℕ → ℕ → List Word
slice array offset size = take size (drop offset array)

abbrev pub add_segment : Segment → Option (List Segment × ℕ) → Option (List Segment × ℕ)
add_segment segment none = none
add_segment segment (some (segments, end)) = some (segment ∷ segments, end)

-- `for (uint i = 1; i < segmentCount; i++)`, with `k` segments left.
pub read_more : List Word → ℕ → ℕ → ℕ → Option (List Segment × ℕ)
read_more array zero i offset = some ([], offset)
read_more array (suc k) i offset =
    let size = entry array (i + 1) in
    let rest = read_more array k (i + 1) (offset + size) in
    if leb (offset + size) (length array) then add_segment (slice array offset size) rest else none

-- Behind the first segment.
read_rest : List Word → Segment → Option (List Segment × ℕ) → Reader
read_rest array first (some (segments, end)) = record {
  error = none;
  segment0 = first;
  more_segments = segments;
  end = end;
}
read_rest array first none = record {
  error = some in_segment;
  segment0 = first;
  more_segments = [];
  end = length array;
}

abbrev empty_reader : Option Premature → List Word → Reader
empty_reader e array = record { error = e; segment0 = []; more_segments = []; end = length array }

pub new_reader : List Word → Reader
unfolding read_more read_rest
new_reader array =
    let offset = segment_count array / 2 + 1 in
    let size = entry array 1 in
    if ltb (length array) 1
    then empty_reader none array
    else if ltb (length array) offset
    then empty_reader (some in_segment_table) array
    else if ltb (length array) (offset + size)
    then empty_reader (some in_first_segment) array
    else read_rest array (slice array offset size)
        (read_more array (segment_count array - 1) 1 (offset + size))

pub get_segment : ℕ → Reader → Segment
get_segment zero r = r.segment0
get_segment (suc i) r = elim (get_elem? r.more_segments i) [ some s ↦ s | none ↦ [] ]

-- `for (uint i = 0; i < segmentCount; i++)`, with `k` sizes left.
add_sizes : List Word → ℕ → ℕ → ℕ → ℕ
add_sizes array zero i sum = sum
add_sizes array (suc k) i sum = add_sizes array k (i + 1) (sum + entry array (i + 1))

abbrev min : ℕ → ℕ → ℕ
min a b = if ltb a b then a else b

pub expected_size_in_words_from_prefix : List Word → ℕ
unfolding add_sizes
expected_size_in_words_from_prefix array =
    let count = segment_count array in
    if ltb (length array) 1
    then 1
    else add_sizes array (min count (length array * 2 - 1)) 0 (count / 2 + 1)
