-- ===== src/Packed/Skip/Tests.antt =====
-- A run of `PackedInputStream::skip`.
use capnp_import.Common.{◌≡◌, [], ◌∷◌, refl}
use capnp_import.Packed.{ok}
use capnp_import.Packed.Skip.{skip}
use capnp_import.Packed.Read.{read_word, word_bytes, masked_bytes}
use capnp_import.Packed.Read.Stream.{next_buffer, next_byte, read_byte, read_exact}

skip_test :
    skip 24 (record {
      buffer =
          (0x51 ∷ 8 ∷ 3 ∷ 2 ∷ 0 ∷ 1 ∷ 0xff ∷ 1 ∷ 2 ∷ 3 ∷ 4 ∷ 5 ∷ 6 ∷ 7 ∷ 8 ∷ 1 ∷ 1 ∷ 2 ∷ 3 ∷ 4 ∷ 5
            ∷ 6 ∷ 7 ∷ 8 ∷ []);
      more = [];
    })
    ≡ ok (record {
      buffer = 0xff ∷ 1 ∷ 2 ∷ 3 ∷ 4 ∷ 5 ∷ 6 ∷ 7 ∷ 8 ∷ 1 ∷ 1 ∷ 2 ∷ 3 ∷ 4 ∷ 5 ∷ 6 ∷ 7 ∷ 8 ∷ [];
      more = [];
    })
unfolding skip read_word next_buffer next_byte masked_bytes word_bytes read_byte read_exact
skip_test = refl
