-- ===== src/Tests/Streams.antt =====
-- The streams of kj/io.c++ at concrete inputs.
use capnp_import.Common.{refl, ℕ, ◌≤◌, ◌≡◌, List, [], ◌∷◌, ◌++◌, length, true, some, arith}
use capnp_import.Io.Input
use capnp_import.Io.Input.{buffered_try_read, read_all, array_try_read}
use capnp_import.Io.Input.Array.{array_try_read-IsInputStream}
use capnp_import.Io.Input.Laws.{buffered_try_read-enough, read_all-enough}
use capnp_import.Io.Output
use capnp_import.Serialize.Stream
use capnp_import.Serialize.Stream.Laws.{get_segment-whole}
use capnp_import.Io.Output.{flush, write_pieces}
use capnp_import.Io.Output.Laws.{flush-write_pieces}

abbrev half_read : Input.Buffered (List ℕ)
half_read = record { inner = 3 ∷ 4 ∷ 5 ∷ 6 ∷ []; available = 1 ∷ 2 ∷ []; size = 4 }

buffered_try_read-enough_example :
    (bytes : List ℕ) × (w' : Input.Buffered (List ℕ)) × (buffered_try_read array_try_read 3 5
        half_read
      ≡ some (bytes, w'))
    × (bytes ++ (w'.available ++ w'.inner) ≡ 1 ∷ 2 ∷ 3 ∷ 4 ∷ 5 ∷ 6 ∷ [])
    × (3 ≤ length bytes)
    × (length bytes ≤ 5)
buffered_try_read-enough_example =
    buffered_try_read-enough array_try_read (λ array. array) array_try_read-IsInputStream 3 5
      half_read (omega arith) (omega arith)

read_all-enough_example :
    read_all array_try_read 5 true (1 ∷ 2 ∷ 3 ∷ []) ≡ some (1 ∷ 2 ∷ 3 ∷ 0 ∷ [])
read_all-enough_example =
    read_all-enough array_try_read (λ array. array) array_try_read-IsInputStream 5 true
      (1 ∷ 2 ∷ 3 ∷ []) (omega arith)

abbrev half_full : Output.Buffered
half_full = record { written = 1 ∷ []; buffer = 2 ∷ 3 ∷ []; size = 3 }

abbrev some_pieces : List (List ℕ)
some_pieces = (4 ∷ 5 ∷ []) ∷ (6 ∷ 7 ∷ 8 ∷ 9 ∷ []) ∷ []

flush-write_pieces_example :
    (length (write_pieces some_pieces half_full).buffer ≤ (write_pieces some_pieces half_full).size)
    × ((flush (write_pieces some_pieces half_full)).written
        ≡ 1 ∷ 2 ∷ 3 ∷ 4 ∷ 5 ∷ 6 ∷ 7 ∷ 8 ∷ 9 ∷ [])
    × ((flush (write_pieces some_pieces half_full)).buffer ≡ [])
flush-write_pieces_example = flush-write_pieces some_pieces half_full (omega arith)

-- A message of two segments of a word each, the second one still to be read.
abbrev one_of_two : Stream.Reader (List ℕ)
one_of_two = record {
  input = 11 ∷ 12 ∷ 13 ∷ 14 ∷ 15 ∷ 16 ∷ 17 ∷ 18 ∷ 9 ∷ [];
  space = 1 ∷ 2 ∷ 3 ∷ 4 ∷ 5 ∷ 6 ∷ 7 ∷ 8 ∷ [];
  is_lazy = true;
  sizes = 1 ∷ 1 ∷ [];
}

get_segment-whole_example :
    (r' : Stream.Reader (List ℕ)) × (Stream.get_segment array_try_read 1 one_of_two
      ≡ some (11 ∷ 12 ∷ 13 ∷ 14 ∷ 15 ∷ 16 ∷ 17 ∷ 18 ∷ [], r'))
    × (r'.space ++ r'.input ≡ one_of_two.space ++ one_of_two.input)
    × (8 ≤ length r'.space)
    × (length r'.space ≤ 16)
    × (r'.sizes ≡ 1 ∷ 1 ∷ [])
    × (r'.is_lazy ≡ true)
get_segment-whole_example =
    get_segment-whole array_try_read (λ array. array) array_try_read-IsInputStream 1 one_of_two
      (one_of_two.space ∷ (11 ∷ 12 ∷ 13 ∷ 14 ∷ 15 ∷ 16 ∷ 17 ∷ 18 ∷ []) ∷ []) (9 ∷ [])
      (11 ∷ 12 ∷ 13 ∷ 14 ∷ 15 ∷ 16 ∷ 17 ∷ 18 ∷ []) refl (refl, (refl, tt)) refl (omega arith) refl
