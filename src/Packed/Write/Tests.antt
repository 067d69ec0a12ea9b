-- ===== src/Packed/Write/Tests.antt =====
-- A run of `PackedOutputStream::write`.
use capnp_import.Common.{ℕ, ◌≡◌, List, [], ◌∷◌, refl}
use capnp_import.Packed.{Word, ok, tag_of}
use capnp_import.Packed.Format.{zero_word}
use capnp_import.Packed.Write.{write, write_loop, write_round}

-- A word with three bytes that are not zero, and one with none that is zero.
abbrev sparse : Word
sparse = record { b0 = 8; b1 = 0; b2 = 0; b3 = 0; b4 = 3; b5 = 0; b6 = 2; b7 = 0 }

abbrev dense : Word
dense = record { b0 = 1; b1 = 2; b2 = 3; b3 = 4; b4 = 5; b5 = 6; b6 = 7; b7 = 8 }

abbrev some_words : List Word
some_words = sparse ∷ zero_word ∷ zero_word ∷ dense ∷ dense ∷ []

-- The packed form that `write` gives for them.
abbrev some_packed : List ℕ
some_packed =
    0x51 ∷ 8 ∷ 3 ∷ 2 ∷ 0 ∷ 1 ∷ 0xff ∷ 1 ∷ 2 ∷ 3 ∷ 4 ∷ 5 ∷ 6 ∷ 7 ∷ 8 ∷ 1 ∷ 1 ∷ 2 ∷ 3 ∷ 4 ∷ 5 ∷ 6 ∷ 7
    ∷ 8 ∷ []

write_test : write (λ _. 12) some_words ≡ ok some_packed
unfolding write write_loop write_round tag_of
write_test = refl
