-- ===== src/Packed/Read/Stream.antt =====
-- The inner stream of a `PackedInputStream`: a `kj::BufferedInputStream`, as the buffers that it
-- hands out. It is an interface to which any stream may be given, and what is relied on is its
-- contract (kj/io.h): a buffer that is handed out is empty at the end of the input only.
use capnp_import.Common.{
  ℕ, zero, suc, ◌-◌, List, [], ◌∷◌, ◌++◌, length, take, drop, leb, if◌then◌else◌,
}
use capnp_import.Packed.{Result, ok, err, premature_eof, overrun, ◌>>=◌}

-- The bytes of the buffer from `in` on, and the buffers that follow.
pub record Input : Type 0 where
  pub buffer : List ℕ
  pub more : List (List ℕ)

abbrev pub concat : List (List ℕ) → List ℕ
concat [] = []
concat (b ∷ more) = b ++ concat more

-- All bytes that are still to be read.
abbrev pub flat : Input → List ℕ
flat s = s.buffer ++ concat s.more

-- `getReadBuffer()`
unfoldable pub next_buffer : List (List ℕ) → Result Input
next_buffer [] = err premature_eof
next_buffer ([] ∷ more) = next_buffer more
next_buffer ((b ∷ bytes) ∷ more) = ok (record { buffer = b ∷ bytes; more = more })

-- `REFRESH_BUFFER()`, where the buffer is used up: the next buffer is not empty, so the check that
-- follows cannot fail.
unfoldable pub refresh : Input → Result Input
unfolding next_buffer
refresh s = next_buffer s.more

next_of : List ℕ → List (List ℕ) → Result (ℕ × Input)
next_of [] more = err overrun
next_of (b ∷ bytes) more = ok (b, record { buffer = bytes; more = more })

-- `*in++`
unfoldable pub next_byte : Input → Result (ℕ × Input)
unfolding next_of
next_byte s = next_of s.buffer s.more

read_byte_of : List ℕ → List (List ℕ) → Result (ℕ × Input)
unfolding next_byte refresh
read_byte_of [] more = do s ← refresh (record { buffer = []; more = more }); next_byte s
read_byte_of (b ∷ bytes) more = ok (b, record { buffer = bytes; more = more })

-- `if (BUFFER_REMAINING == 0) REFRESH_BUFFER(); *in++`
unfoldable pub read_byte : Input → Result (ℕ × Input)
unfolding read_byte_of
read_byte s = read_byte_of s.buffer s.more

-- `inner.read(out, n)`: the bytes, and what is left, the rest of a buffer included.
unfoldable pub read_exact : ℕ → List (List ℕ) → Result (List ℕ × List (List ℕ))
read_exact zero more = ok ([], more)
read_exact (suc n) [] = err premature_eof
read_exact (suc n) (b ∷ more) =
    let rest = read_exact (suc n - length b) more in
    if leb (suc n) (length b)
    then ok (take (suc n) b, drop (suc n) b ∷ more)
    else (do (bytes, more') ← rest; ok (b ++ bytes, more'))
