-- ===== src/Build/Copy.antt =====
-- Bytes that are copied into a message: `copyMemory`, `setTextPointer` and `setDataPointer` of
-- capnproto/c++/src/capnp/layout.c++.
pub mod Bytes
pub mod Laws
pub mod Blobs
use capnp_import.Common.{
  ℕ, zero, suc, ◌+◌, ◌-◌, ◌*◌, ◌/◌, ◌%◌, ◌^◌, List, [], ◌∷◌, length, Bool, true, false, ◌==◌, ltb,
  leb, if◌then◌else◌, Option, none, some,
}
use capnp_import.Serialize.{Word, Segment}
use capnp_import.Wire.{Reads, ◌>>=◌, pure}
use capnp_import.Wire.Read.Bytes.{load_byte, Blob}
use capnp_import.Build.{BuilderArena, and_then}
use capnp_import.Build.Memory.{modify_word}
use capnp_import.Build.Objects.{BlobBuilder, init_text, init_data}

-- A byte of half a word.
abbrev pub half_byte : ℕ → ℕ → ℕ
half_byte half i = half / 2 ^ (8 * i) % 2 ^ 8

abbrev pub pick_byte : ℕ → ℕ → ℕ → ℕ → ℕ
pick_byte i b half k = if k == i then b else half_byte half k

abbrev pub put_byte : ℕ → ℕ → ℕ → ℕ
put_byte i b half =
    pick_byte i b half 0
    + 2 ^ 8 * pick_byte i b half 1
    + 2 ^ 16 * pick_byte i b half 2
    + 2 ^ 24 * pick_byte i b half 3

-- The byte `i` of a word, in memory order, becomes `b`.
abbrev pub set_byte : ℕ → ℕ → Word → Word
set_byte i b w =
    if ltb i 4
    then record w { low = put_byte i b w.low }
    else record w { high = put_byte (i - 4) b w.high }

-- `copyMemory` of bytes.
pub copy_memory : ℕ → ℕ → List ℕ → BuilderArena → BuilderArena
copy_memory id address [] a = a
copy_memory id address (b ∷ bytes) a =
    copy_memory id (address + 1) bytes (modify_word id (address / 8) (set_byte (address % 8) b) a)

abbrev copied : List ℕ → BlobBuilder × BuilderArena → Option (BlobBuilder × BuilderArena)
copied bytes (b, a) = some (b, copy_memory b.id b.address bytes a)

-- `setTextPointer`, which throws for a text of more than `MAX_TEXT_SIZE` bytes.
pub set_text : ℕ → ℕ → ℕ → List ℕ → BuilderArena → Option (BlobBuilder × BuilderArena)
set_text fuel id ref bytes a =
    if leb (length bytes) (2 ^ 29 - 2)
    then and_then (init_text fuel id ref (length bytes) a) (copied bytes)
    else none

-- `setDataPointer`
pub set_data : ℕ → ℕ → ℕ → List ℕ → BuilderArena → Option (BlobBuilder × BuilderArena)
set_data fuel id ref bytes a =
    if leb (length bytes) (2 ^ 29 - 1)
    then and_then (init_data fuel id ref (length bytes) a) (copied bytes)
    else none

-- The bytes of a `Text::Reader` or a `Data::Reader`.
pub load_bytes : Segment → ℕ → ℕ → Reads (List ℕ)
load_bytes segment address zero = pure []
load_bytes segment address (suc n) = do
  first ← load_byte segment address
  rest ← load_bytes segment (address + 1) n
  pure (first ∷ rest)

pub blob_bytes : Blob → Reads (List ℕ)
unfolding load_bytes
blob_bytes b = load_bytes b.segment b.address b.size
