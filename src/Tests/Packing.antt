-- ===== src/Tests/Packing.antt =====
-- The packed encoding and messages at concrete inputs.
use capnp_import.Common.{ℕ, ◌≡◌, List, [], ◌∷◌, ◌++◌, length, some, none, refl, arith}
use capnp_import.Packed.{Word, ok}
use capnp_import.Packed.Format.{Packed, nothing, plain, zeros, zero_word, format_tag}
use capnp_import.Packed.Size.{compute_unpacked_size_in_words}
use capnp_import.Packed.Size.Laws.{compute_unpacked_size_in_words-Packed}
use capnp_import.Packed.Read.Stream.{Input}
use capnp_import.Packed.Read.{fast_word, slow_word}
use capnp_import.Packed.Read.Fast.{fast_word-slow_word}
use capnp_import.Serialize
use capnp_import.Serialize.{
  Segment, message_to_flat_array, compute_serialized_size_in_words, new_reader,
}
use capnp_import.Serialize.Laws.{new_reader-message_to_flat_array}

-- A word with three bytes that are not zero, and one with none that is zero.
abbrev sparse : Word
sparse = record { b0 = 8; b1 = 0; b2 = 0; b3 = 0; b4 = 3; b5 = 0; b6 = 2; b7 = 0 }

abbrev dense : Word
dense = record { b0 = 1; b1 = 2; b2 = 3; b3 = 4; b4 = 5; b5 = 6; b6 = 7; b7 = 8 }

abbrev some_words : List Word
some_words = sparse ∷ zero_word ∷ zero_word ∷ dense ∷ dense ∷ []

-- The last byte of a word is missing, and the word is counted.
truncated_test : compute_unpacked_size_in_words (0x51 ∷ 8 ∷ 3 ∷ []) ≡ ok 1
unfolding compute_unpacked_size_in_words
truncated_test = refl

two_words-Packed :
    Packed (sparse ∷ zero_word ∷ zero_word ∷ []) (format_tag sparse ∷ 8 ∷ 3 ∷ 2 ∷ 0 ∷ 1 ∷ [])
two_words-Packed =
    unfold format_tag in plain sparse (omega arith) (omega arith) (zeros 1 (omega arith) nothing)

compute_unpacked_size_in_words-Packed_example :
    compute_unpacked_size_in_words (format_tag sparse ∷ 8 ∷ 3 ∷ 2 ∷ 0 ∷ 1 ∷ []) ≡ ok 3
compute_unpacked_size_in_words-Packed_example =
    compute_unpacked_size_in_words-Packed (sparse ∷ zero_word ∷ zero_word ∷ [])
      (format_tag sparse ∷ 8 ∷ 3 ∷ 2 ∷ 0 ∷ 1 ∷ []) two_words-Packed

abbrev ten_bytes : Input
ten_bytes = record { buffer = 0x51 ∷ 8 ∷ 3 ∷ 2 ∷ 0 ∷ 1 ∷ 0xff ∷ 1 ∷ 2 ∷ 3 ∷ []; more = [] }

fast_word-slow_word_example : fast_word ten_bytes ≡ slow_word ten_bytes
fast_word-slow_word_example = fast_word-slow_word ten_bytes (omega arith)

-- Segments of two words and of one.
abbrev first_segment : Segment
first_segment = record { low = 1; high = 2 } ∷ record { low = 3; high = 4 } ∷ []

abbrev second_segment : Segment
second_segment = record { low = 5; high = 6 } ∷ []

new_reader-message_to_flat_array_example :
    (array : List Serialize.Word) × (n : ℕ) × (message_to_flat_array
        (first_segment ∷ second_segment ∷ [])
      ≡ some array)
    × (compute_serialized_size_in_words (first_segment ∷ second_segment ∷ []) ≡ some n)
    × (length array ≡ n)
    × (new_reader (array ++ second_segment) ≡ record {
      error = none;
      segment0 = first_segment;
      more_segments = second_segment ∷ [];
      end = n;
    })
new_reader-message_to_flat_array_example =
    new_reader-message_to_flat_array first_segment (second_segment ∷ []) second_segment
      (omega arith, (omega arith, tt)) (omega arith)
