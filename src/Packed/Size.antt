-- ===== src/Packed/Size.antt =====
-- `computeUnpackedSizeInWords` of capnproto/c++/src/capnp/serialize-packed.c++.
pub mod Laws
use capnp_import.Common.{
  ◌||◌, ℕ, zero, suc, ◌+◌, ◌-◌, ◌*◌, ◌/◌, ◌%◌, List, [], ◌∷◌, length, drop, ◌==◌, ltb, leb,
  if◌then◌else◌,
}
use capnp_import.Packed.{Result, ok, err, invalid_data, out_of_fuel, ◌>>=◌, has_bit, to_bit}

-- `kj::popCount` of a byte.
pub pop_count : ℕ → ℕ
pop_count tag =
    to_bit (has_bit tag 0)
    + to_bit (has_bit tag 1)
    + to_bit (has_bit tag 2)
    + to_bit (has_bit tag 3)
    + to_bit (has_bit tag 4)
    + to_bit (has_bit tag 5)
    + to_bit (has_bit tag 6)
    + to_bit (has_bit tag 7)

-- The run behind the tags 0 and 0xff: its words, and the bytes that follow it.
pub skip_run : ℕ → List ℕ → Result (ℕ × List ℕ)
skip_run tag [] = if tag == 0 || tag == 0xff then err invalid_data else ok (0, [])
skip_run tag (n ∷ bytes) =
    if tag == 0
    then ok (n, bytes)
    else if tag == 0xff
    then (if leb (8 * n) (length bytes) then ok (n, drop (8 * n) bytes) else err invalid_data)
    else ok (0, n ∷ bytes)

-- One round: the tag and what follows it. The code's check lets the last byte be missing
-- (`end - ptr >= count` with `ptr` on the tag), and `ptr` then stands one behind the end.
pub size_round : ℕ → List ℕ → Result (ℕ × List ℕ)
unfolding pop_count skip_run
size_round tag bytes =
    if leb (pop_count tag) (length bytes + 1)
    then skip_run tag (drop (pop_count tag) bytes)
    else err invalid_data

-- `while (ptr < end)`
pub size_loop : ℕ → List ℕ → ℕ → Result ℕ
unfolding size_round
size_loop fuel [] total = ok total
size_loop zero (tag ∷ bytes) total = err out_of_fuel
size_loop (suc fuel) (tag ∷ bytes) total = do
  (n, rest) ← size_round tag bytes
  size_loop fuel rest (total + 1 + n)

unfoldable pub compute_unpacked_size_in_words : List ℕ → Result ℕ
unfolding size_loop
compute_unpacked_size_in_words bytes = size_loop (length bytes) bytes 0
