-- ===== src/Packed/Read.antt =====
-- `PackedInputStream::tryRead` of capnproto/c++/src/capnp/serialize-packed.c++.
mod Tests
pub mod Stream
pub mod Bytes
pub mod Fast
use capnp_import.Common.{
  ℕ, zero, suc, ◌+◌, ◌-◌, ◌*◌, List, [], ◌∷◌, ◌++◌, length, take, drop, replicate, Bool, true,
  false, ◌==◌, ltb, leb, if◌then◌else◌, ◌&&◌, ◌||◌,
}
use capnp_import.Packed.{
  Result, ok, err, Error, premature_eof, bad_boundary, overrun, out_of_fuel, ◌>>=◌, has_bit,
}
use capnp_import.Packed.Read.Stream.{Input, next_buffer, refresh, read_byte, next_byte, read_exact}

-- The eight bytes of a word: `next` gives the bytes whose bit is set. There are `k` left, from the
-- bit `i` on.
unfoldable pub word_bytes :
    (Input → Result (ℕ × Input)) → ℕ → ℕ → ℕ → Input → Result (List ℕ × Input)
word_bytes next zero i tag s = ok ([], s)
word_bytes next (suc k) i tag s =
    if has_bit tag i
    then (do (b, s') ← next s; (bytes, s'') ← word_bytes next k (suc i) tag s'; ok (b ∷ bytes, s''))
    else (do (bytes, s') ← word_bytes next k (suc i) tag s; ok (0 ∷ bytes, s'))

-- Behind the eight bytes that were read slowly: a run needs a byte in the buffer.
pub refresh_for_run : ℕ → Input → Result Input
refresh_for_run tag s =
    if length s.buffer == 0 && (tag == 0 || tag == 0xff) then refresh s else ok s

-- One to nine bytes in the buffer: each byte is read with a check of the bounds.
pub slow_word : Input → Result (ℕ × List ℕ × Input)
unfolding refresh_for_run
slow_word s = do
  (tag, s1) ← next_byte s
  (bytes, s2) ← word_bytes read_byte 8 0 tag s1
  s3 ← refresh_for_run tag s2
  ok (tag, bytes, s3)

-- `HANDLE_BYTE` of the `k` bits from `i` on: the next byte is loaded in any case, is masked where its
-- bit is not set, and is passed where it is.
unfoldable pub masked_bytes : ℕ → ℕ → ℕ → Input → Result (List ℕ × Input)
masked_bytes zero i tag s = ok ([], s)
masked_bytes (suc k) i tag s = do
  (b, s') ← next_byte s
  (bytes, s'') ← masked_bytes k (suc i) tag (if has_bit tag i then s' else s)
  ok ((if has_bit tag i then b else 0) ∷ bytes, s'')

-- Ten bytes or more in the buffer: no checks.
pub fast_word : Input → Result (ℕ × List ℕ × Input)
fast_word s = do (tag, s1) ← next_byte s; (bytes, s2) ← masked_bytes 8 0 tag s1; ok (tag, bytes, s2)

unfoldable pub read_word : Input → Result (ℕ × List ℕ × Input)
unfolding slow_word fast_word
read_word s = if ltb (length s.buffer) 10 then slow_word s else fast_word s

-- After a big read, the next buffer is fetched unless the output is full.
fetch_unless : Bool → List (List ℕ) → Result Input
fetch_unless full more = if full then ok (record { buffer = []; more = more }) else next_buffer more

-- The uncompressed words of a run of `n` bytes, with `room` bytes of output left: from the buffer if
-- it has them, and else what it has, with one read for the rest.
pub copy_run : ℕ → ℕ → Input → Result (List ℕ × Input)
unfolding fetch_unless
copy_run n room s =
    if leb n (length s.buffer)
    then ok (take n s.buffer, record s { buffer = drop n s.buffer })
    else (do
      (bytes, more) ← read_exact (n - length s.buffer) s.more
      s' ← fetch_unless (n == room) more
      ok (s.buffer ++ bytes, s'))

-- The run that follows the tags 0 and 0xff.
pub read_run : ℕ → ℕ → Input → Result (List ℕ × Input)
unfolding copy_run
read_run tag room s =
    if tag == 0
    then (do
      (count, s') ← next_byte s
      if leb (8 * count) room then ok (replicate (8 * count) 0, s') else err bad_boundary)
    else if tag == 0xff
    then (do
      (count, s') ← next_byte s
      if leb (8 * count) room then copy_run (8 * count) room s' else err bad_boundary)
    else ok ([], s)

-- One round that reads: a word and its run. `n` bytes are written so far.
pub read_round : ℕ → ℕ → Input → Result (List ℕ × Input)
unfolding read_word read_run
read_round max_bytes n s = do
  (tag, bytes, s1) ← read_word s
  (run, s2) ← read_run tag (max_bytes - (n + 8)) s1
  ok (bytes ++ run, s2)

-- `if (out == outEnd) return maxBytes;`, or the rest of the loop.
finish_round : Bool → List ℕ → Input → Result (List ℕ × Input) → Result (List ℕ × Input)
finish_round full bytes s rest =
    if full then ok (bytes, s) else (do (more, s') ← rest; ok (bytes ++ more, s'))

-- One round of `for (;;)`, behind its first test: what it writes, and whether the output is full.
read_step : ℕ → ℕ → Input → Result (List ℕ × Bool × Input)
unfolding read_round
read_step max_bytes n s =
    if length s.buffer == 0
    then (do s' ← refresh s; ok ([], false, s'))
    else (do (bytes, s') ← read_round max_bytes n s; ok (bytes, n + length bytes == max_bytes, s'))

-- `for (;;)`: the bytes that are written from here on, and the stream that is left.
read_loop : ℕ → ℕ → ℕ → ℕ → Input → Result (List ℕ × Input)
unfolding read_step finish_round
read_loop zero min_bytes max_bytes n s = err out_of_fuel
read_loop (suc fuel) min_bytes max_bytes n s =
    let next = (do
      (bytes, full, s') ← read_step max_bytes n s
      let rest = read_loop fuel min_bytes max_bytes (n + length bytes) s'
      finish_round full bytes s' rest) in
    if ltb (length s.buffer) 10 && leb min_bytes n then ok ([], s) else next

start : ℕ → ℕ → Input → Result Input → Result (List ℕ × Input)
unfolding read_loop
start min_bytes max_bytes s (err e) = ok ([], s)
start min_bytes max_bytes s (ok s') = read_loop (2 * max_bytes + 2) min_bytes max_bytes 0 s'

-- `tryGetReadBuffer()` hands out the first buffer with bytes in it; there is none at the end.
pub try_read : ℕ → ℕ → Input → Result (List ℕ × Input)
unfolding start
try_read min_bytes max_bytes s =
    if max_bytes == 0
    then ok ([], s)
    else start min_bytes max_bytes s (next_buffer (s.buffer ∷ s.more))
