-- ===== src/Packed/Read/Tests.antt =====
-- A run of `PackedInputStream::tryRead` over buffers that end anywhere.
use capnp_import.Common.{◌≡◌, [], ◌∷◌, ◌++◌, refl}
use capnp_import.Packed.{Word, ok, bytes_of}
use capnp_import.Packed.Format.{zero_word}
use capnp_import.Packed.Read.{try_read, word_bytes, masked_bytes}
use capnp_import.Packed.Read.Stream.{next_buffer, next_byte, read_byte, read_exact}

-- A word with three bytes that are not zero, and one with none that is zero.
abbrev sparse : Word
sparse = record { b0 = 8; b1 = 0; b2 = 0; b3 = 0; b4 = 3; b5 = 0; b6 = 2; b7 = 0 }

abbrev dense : Word
dense = record { b0 = 1; b1 = 2; b2 = 3; b3 = 4; b4 = 5; b5 = 6; b6 = 7; b7 = 8 }

try_read_test :
    try_read 40 40 (record {
      buffer = 0x51 ∷ 8 ∷ 3 ∷ [];
      more =
          (2 ∷ 0 ∷ 1 ∷ [])
          ∷ (0xff ∷ 1 ∷ 2 ∷ 3 ∷ 4 ∷ 5 ∷ 6 ∷ 7 ∷ 8 ∷ 1 ∷ 1 ∷ 2 ∷ [])
          ∷ (3 ∷ 4 ∷ 5 ∷ 6 ∷ 7 ∷ 8 ∷ 9 ∷ [])
          ∷ [];
    })
    ≡ ok (
      bytes_of sparse
          ++ (bytes_of zero_word ++ (bytes_of zero_word ++ (bytes_of dense ++ bytes_of dense))),
      record { buffer = []; more = (9 ∷ []) ∷ [] },
    )
unfolding try_read next_buffer next_byte masked_bytes word_bytes read_byte read_exact
try_read_test = refl
