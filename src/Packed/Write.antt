-- ===== src/Packed/Write.antt =====
-- `PackedOutputStream::write` of capnproto/c++/src/capnp/serialize-packed.c++.
mod Tests
pub mod Laws
use capnp_import.Common.{
  ℕ, zero, suc, ◌+◌, ◌-◌, ◌*◌, List, [], ◌∷◌, ◌++◌, length, take, drop, Bool, true, false, ◌==◌,
  ltb, leb, if◌then◌else◌, ◌&&◌,
}
use capnp_import.Packed.{
  Word, bytes_of, bytes_of_words, tag_of, is_nonzero, to_bit, Result, ok, err, overrun, out_of_fuel,
  ◌>>=◌,
}

-- What the inner stream was given, the bytes in `buffer` up to `out`, and the size of `buffer`.
pub record Output : Type 0 where
  pub written : List ℕ
  pub buffer : List ℕ
  pub capacity : ℕ

abbrev pub room : Output → ℕ
room o = o.capacity - length o.buffer

-- A store at `out`, which moves on if `advance`.
abbrev store : Output → ℕ → Bool → Result Output
store o b advance =
    if ltb (length o.buffer) o.capacity
    then ok (if advance then record o { buffer = o.buffer ++ (b ∷ []) } else o)
    else err overrun

-- `HANDLE_BYTE` for each byte of the word.
handle_bytes : List ℕ → Output → Result Output
handle_bytes [] o = ok o
handle_bytes (b ∷ bytes) o = do o' ← store o b (is_nonzero b); handle_bytes bytes o'

-- Less than ten bytes left: what is there goes out, and the slow buffer of 20 bytes comes in.
make_room : Output → Output
make_room o =
    if ltb (room o) 10
    then record { written = o.written ++ o.buffer; buffer = []; capacity = 20 }
    else o

-- `*inWord == 0`, on all 64 bits.
is_zero : Word → Bool
is_zero w =
    w.b0 == 0
    && w.b1 == 0
    && w.b2 == 0
    && w.b3 == 0
    && w.b4 == 0
    && w.b5 == 0
    && w.b6 == 0
    && w.b7 == 0

-- `while (inWord < limit && *inWord == 0)`: how many words, at most `limit`.
count_zeros : ℕ → List Word → ℕ
unfolding is_zero
count_zeros zero words = 0
count_zeros (suc limit) [] = 0
count_zeros (suc limit) (w ∷ words) =
    let more = count_zeros limit words in if is_zero w then suc more else 0

abbrev zero_bytes : Word → ℕ
zero_bytes w =
    to_bit (w.b0 == 0)
    + to_bit (w.b1 == 0)
    + to_bit (w.b2 == 0)
    + to_bit (w.b3 == 0)
    + to_bit (w.b4 == 0)
    + to_bit (w.b5 == 0)
    + to_bit (w.b6 == 0)
    + to_bit (w.b7 == 0)

-- The words up to the first one with two zero bytes or more, at most `limit`.
count_dense : ℕ → List Word → ℕ
count_dense zero words = 0
count_dense (suc limit) [] = 0
count_dense (suc limit) (w ∷ words) =
    let more = count_dense limit words in if leb 2 (zero_bytes w) then 0 else suc more

-- The uncompressed words: into the buffer if they fit, and else straight to the inner stream, which
-- then hands out a new buffer, of the size `fresh` of what it has been given.
put_run : (List ℕ → ℕ) → List Word → Output → Output
put_run fresh run o =
    if leb (8 * length run) (room o)
    then record o { buffer = o.buffer ++ bytes_of_words run }
    else (let written = (o.written ++ o.buffer) ++ bytes_of_words run in
        record { written = written; buffer = []; capacity = fresh written })

-- What follows the tag and the bytes of a word: the output, and the words still to be written.
put_rest : (List ℕ → ℕ) → ℕ → List Word → Output → Result (Output × List Word)
unfolding put_run count_zeros count_dense
put_rest fresh tag words o =
    if tag == 0
    then (do let n = count_zeros 255 words; o' ← store o n true; ok (o', drop n words))
    else if tag == 0xff
    then (do
      let n = count_dense 255 words
      o' ← store o n true
      ok (put_run fresh (take n words) o', drop n words))
    else ok (o, words)

-- One round of the outer loop. The tag is stored first here; the code leaves its place free and
-- stores it behind the eight bytes.
write_round : (List ℕ → ℕ) → Word → List Word → Output → Result (Output × List Word)
unfolding make_room handle_bytes put_rest
write_round fresh w words o = do
  o' ← store (make_room o) (tag_of w) true
  o'' ← handle_bytes (bytes_of w) o'
  put_rest fresh (tag_of w) words o''

write_loop : (List ℕ → ℕ) → ℕ → List Word → Output → Result (List ℕ)
write_loop fresh fuel [] o = ok (o.written ++ o.buffer)
write_loop fresh zero (w ∷ words) o = err out_of_fuel
write_loop fresh (suc fuel) (w ∷ words) o = do
  (o', rest) ← write_round fresh w words o
  write_loop fresh fuel rest o'

-- All bytes that the inner stream is given for `src`; `fresh []` is the size of its first buffer.
pub write : (List ℕ → ℕ) → List Word → Result (List ℕ)
write fresh src =
    write_loop fresh (length src) src (record { written = []; buffer = []; capacity = fresh [] })
