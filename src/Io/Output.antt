-- ===== src/Io/Output.antt =====
-- `BufferedOutputStreamWrapper`, `ArrayOutputStream` and `OutputStream::write` of
-- capnproto/c++/src/kj/io.c++.
pub mod Laws
use capnp_import.Common.{
  ℕ, zero, suc, ◌+◌, ◌-◌, List, [], ◌∷◌, ◌++◌, length, take, drop, ◌==◌, ltb, leb, if◌then◌else◌,
  Option, none, some,
}

-- The bytes given to the inner stream, those in the buffer before `bufferPos`, and its size.
pub record Buffered : Type 0 where
  pub written : List ℕ
  pub buffer : List ℕ
  pub size : ℕ

pub flush : Buffered → Buffered
flush o =
    if ltb 0 (length o.buffer) then record o { written = o.written ++ o.buffer; buffer = [] } else o

-- `write` of data that does not stand in the buffer.
pub write_copy : List ℕ → Buffered → Buffered
write_copy src o =
    let available = o.size - length o.buffer in
    if leb (length src) available
    then record o { buffer = o.buffer ++ src }
    else if leb (length src) o.size
    then record o {
      written = o.written ++ (o.buffer ++ take available src);
      buffer = drop available src;
    }
    else record o { written = (o.written ++ o.buffer) ++ src; buffer = [] }

-- `write` of data that the caller put into `getWriteBuffer()`.
pub write_in_place : List ℕ → Buffered → Buffered
write_in_place src o = record o { buffer = o.buffer ++ src }

-- `OutputStream::write` of several pieces.
pub write_pieces : List (List ℕ) → Buffered → Buffered
unfolding write_copy
write_pieces [] o = o
write_pieces (piece ∷ pieces) o = write_pieces pieces (write_copy piece o)

-- `ArrayOutputStream::write`: the bytes before `fillPos`, and the size of the array.
pub array_write : List ℕ → List ℕ → ℕ → Option (List ℕ)
array_write src filled size =
    if leb (length src) (size - length filled) then some (filled ++ src) else none
