-- ===== src/Packed/Skip.antt =====
-- `PackedInputStream::skip` of capnproto/c++/src/capnp/serialize-packed.c++.
mod Tests
use capnp_import.Common.{
  ℕ, zero, suc, ◌+◌, ◌-◌, ◌*◌, List, [], ◌∷◌, length, drop, Bool, false, ◌==◌, ltb, leb,
  if◌then◌else◌,
}
use capnp_import.Packed.{Result, ok, err, bad_boundary, out_of_fuel, ◌>>=◌}
use capnp_import.Packed.Read.Stream.{Input, next_buffer, refresh, next_byte, read_exact}
use capnp_import.Packed.Read.{read_word}

-- The next buffer, unless all bytes are skipped.
fetch_unless : Bool → List (List ℕ) → Result Input
fetch_unless done more = if done then ok (record { buffer = []; more = more }) else next_buffer more

-- The uncompressed words of a run of `n` bytes, with `left` bytes to skip after it.
skip_words : ℕ → ℕ → Input → Result Input
unfolding fetch_unless
skip_words n left s =
    if ltb n (length s.buffer)
    then ok (record s { buffer = drop n s.buffer })
    else (do (bytes, more) ← read_exact (n - length s.buffer) s.more; fetch_unless (left == 0) more)

-- The run that follows the tags 0 and 0xff: what is left to skip behind it.
skip_run : ℕ → ℕ → Input → Result (ℕ × Input)
unfolding skip_words
skip_run tag left s =
    if tag == 0
    then (do
      (count, s') ← next_byte s
      if leb (8 * count) left then ok (left - 8 * count, s') else err bad_boundary)
    else if tag == 0xff
    then (do
      (count, s') ← next_byte s
      s'' ←
          if leb (8 * count) left
          then skip_words (8 * count) (left - 8 * count) s'
          else err bad_boundary
      ok (left - 8 * count, s''))
    else ok (left, s)

-- One round that skips: the word is stepped over as `tryRead` reads it. With ten bytes in the buffer
-- the code loads none of its bytes, and the model drops those that it loads.
skip_round : ℕ → Input → Result (ℕ × Input)
unfolding skip_run
skip_round left s = do (tag, bytes, s') ← read_word s; skip_run tag (left - 8) s'

-- One round of `for (;;)`: what is left to skip, and whether that is nothing.
skip_step : ℕ → Input → Result (ℕ × Bool × Input)
unfolding skip_round
skip_step left s =
    if length s.buffer == 0
    then (do s' ← refresh s; ok (left, false, s'))
    else (do (left', s') ← skip_round left s; ok (left', left' == 0, s'))

finish_round : Bool → Input → Result Input → Result Input
finish_round done s rest = if done then ok s else rest

-- `for (;;)`, with `left` bytes to skip.
skip_loop : ℕ → ℕ → Input → Result Input
unfolding skip_step finish_round
skip_loop zero left s = err out_of_fuel
skip_loop (suc fuel) left s = do
  (left', done, s') ← skip_step left s
  let rest = skip_loop fuel left' s'
  finish_round done s' rest

pub skip : ℕ → Input → Result Input
unfolding skip_loop
skip bytes s =
    if bytes == 0
    then ok s
    else (do s' ← next_buffer (s.buffer ∷ s.more); skip_loop (2 * bytes + 2) bytes s')
