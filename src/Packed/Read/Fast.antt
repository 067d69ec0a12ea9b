-- ===== src/Packed/Read/Fast.antt =====
-- Where the buffer holds ten bytes or more, `PackedInputStream::tryRead` reads a word without checks
-- of the bounds.
use capnp_import.Common.{
  ℕ, zero, suc, ◌≤◌, ◌≡◌, length, refl, arith, ==-eq-false, sym, ◌∙◌, Bool-cases, inl, inr,
}
use capnp_import.Packed.{ok, has_bit}
use capnp_import.Packed.Read.Stream.{Input, next_byte}
use capnp_import.Packed.Read.Bytes.{word_bytes_unchecked, word_bytes_fits, next_byte_of-eq}
use capnp_import.Packed.Read.{slow_word, fast_word, word_bytes, masked_bytes, refresh_for_run}

refresh_for_run_idle : (tag : ℕ) (s : Input) → 1 ≤ length s.buffer → refresh_for_run tag s ≡ ok s
unfolding refresh_for_run
refresh_for_run_idle tag s h = rw (==-eq-false (length s.buffer) 0 (omega arith)) refl

-- With a byte in the buffer for each bit, the load of a byte that is masked changes nothing.
masked_bytes-word_bytes :
    (k i tag : ℕ) (s : Input)
    → k ≤ length s.buffer
    → masked_bytes k i tag s ≡ word_bytes next_byte k i tag s
unfolding masked_bytes word_bytes
masked_bytes-word_bytes zero i tag s h = refl
masked_bytes-word_bytes (suc k) i tag s h =
    let (b, s', first, checked, left) = next_byte_of-eq s.buffer s.more (omega arith) in
    elim (Bool-cases (has_bit tag i)) [
      | inl e ↦ rw e (rw first (rw (masked_bytes-word_bytes k (suc i) tag s' (omega arith)) refl))
      | inr e ↦ rw e (rw first (rw (masked_bytes-word_bytes k (suc i) tag s (omega arith)) refl))
    ]

-- Where the buffer holds ten bytes or more, reading a word and its tag without checks of the bounds
-- gives the same result as reading it with them.
pub fast_word-slow_word : (s : Input) → 10 ≤ length s.buffer → fast_word s ≡ slow_word s
unfolding fast_word slow_word
fast_word-slow_word s h =
    let (tag, s1, first, checked, left) = next_byte_of-eq s.buffer s.more (omega arith) in
    let (bytes, s2, read, left2) = word_bytes_fits 8 0 tag s1 (omega arith) in
    let masked = masked_bytes-word_bytes 8 0 tag s1 (omega arith) in
    let same = sym (word_bytes_unchecked 8 0 tag s1 (omega arith)) ∙ read in
    rw first (rw (masked ∙ read, same) (rw (refresh_for_run_idle tag s2 (omega arith)) refl))
