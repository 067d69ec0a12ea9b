-- ===== src/Packed/Write/Laws.antt =====
-- What `PackedOutputStream::write` puts out is the packed form of the words, whatever the sizes of
-- the buffers.
use capnp_import.Common.{ℕ, ◌≤◌, ◌≡◌, List, [], ◌∷◌, ◌++◌, length}
use capnp_import.Packed.{Word, bytes_of, tag_of, ok}
use capnp_import.Packed.Format.{Packed, squeeze}
use capnp_import.Packed.Write.{Output, make_room, write_round}

-- Everything that was put out so far.
abbrev total : Output → List ℕ
total o = o.written ++ o.buffer

-- The output when the tag and the bytes of `w` are stored.
stored : Word → Output → Output
stored w o = record (make_room o) {
  buffer = ((make_room o).buffer ++ (tag_of w ∷ [])) ++ squeeze (bytes_of w);
}

-- What one round achieves: it puts out a chunk, which stands for the words that it takes.
record Achieves (fresh : List ℕ → ℕ) (w : Word) (words : List Word) (o : Output) : Type 0 where
  out : Output
  rest : List Word
  chunk : List ℕ
  runs : write_round fresh w words o ≡ ok (out, rest)
  puts : total out ≡ total o ++ chunk
  packs : (bytes : List ℕ) → Packed rest bytes → Packed (w ∷ words) (chunk ++ bytes)
  shorter : length rest ≤ length words
