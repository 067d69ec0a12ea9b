-- ===== src/Packed/Size/Laws.antt =====
-- The size that is computed for packed bytes is the number of words that they stand for.
use mathlib.Core.Path.{subst}
use capnp_import.Common.{
  ℕ, zero, suc, ◌+◌, ◌*◌, ◌≤◌, ◌≡◌, ◌≢◌, List, [], ◌∷◌, ◌++◌, length, replicate, refl, sym, ◌∙◌, ap,
  arith, length-append, length-replicate, drop-append, leb-eq-true, ==-eq-false,
}
use capnp_import.Packed.{Word, bytes_of, bytes_of_words, ok, has_bit, to_bit}
use capnp_import.Packed.Format.{
  Packed, nothing, plain, zeros, verbatim, squeeze, zero_word, format_tag,
}
use capnp_import.Packed.Format.Tags.{Fits, Fits-tag_of, tag_of-format_tag}
use capnp_import.Packed.Size.{
  pop_count, skip_run, size_round, size_loop, compute_unpacked_size_in_words,
}

-- The number of bits that are set, by the list of bytes that they tell of.
bits : ℕ → ℕ → List ℕ → ℕ
bits tag i [] = 0
bits tag i (b ∷ bytes) = to_bit (has_bit tag i) + bits tag (suc i) bytes

length-squeeze :
    (tag i : ℕ) (bytes : List ℕ) → Fits tag i bytes → bits tag i bytes ≡ length (squeeze bytes)
unfolding bits
length-squeeze tag i [] fits = refl
length-squeeze tag i (b ∷ bytes) (fit, fits) =
    rw fit (ground (arith, length-squeeze tag (suc i) bytes fits))

pop_count-bits : (tag : ℕ) (w : Word) → pop_count tag ≡ bits tag 0 (bytes_of w)
unfolding pop_count bits
pop_count-bits tag w = omega arith

pop_count-format_tag : (w : Word) → pop_count (format_tag w) ≡ length (squeeze (bytes_of w))
pop_count-format_tag w =
    pop_count-bits (format_tag w) w
    ∙ length-squeeze (format_tag w) 0 (bytes_of w)
        (subst (λ t. Fits t 0 (bytes_of w)) (tag_of-format_tag w) (Fits-tag_of w).0)

length-bytes_of_words : (run : List Word) → length (bytes_of_words run) ≡ 8 * length run
length-bytes_of_words [] = refl
length-bytes_of_words (w ∷ run) = omega (arith, length-bytes_of_words run)

-- What one round makes of a tag, the bytes it tells of, and what follows.
size_round-append :
    (tag : ℕ) (q bytes : List ℕ)
    → pop_count tag ≡ length q
    → size_round tag (q ++ bytes) ≡ skip_run tag bytes
unfolding size_round
size_round-append tag q bytes e =
    rw
      (
        e,
        drop-append q bytes,
        leb-eq-true (length q) (length (q ++ bytes) + 1) (omega (arith, length-append q bytes)),
      )
      refl

skip_run-plain :
    (tag : ℕ) (bytes : List ℕ) → tag ≢ 0 → tag ≢ 0xff → skip_run tag bytes ≡ ok (0, bytes)
unfolding skip_run
skip_run-plain tag [] z f = rw (==-eq-false tag 0 z, ==-eq-false tag 0xff f) refl
skip_run-plain tag (b ∷ bytes) z f = rw (==-eq-false tag 0 z, ==-eq-false tag 0xff f) refl

skip_run-verbatim :
    (n : ℕ) (q bytes : List ℕ) → length q ≡ 8 * n → skip_run 0xff (n ∷ (q ++ bytes)) ≡ ok (n, bytes)
unfolding skip_run
skip_run-verbatim n q bytes e = rw (sym e) (
    rw
      (
        drop-append q bytes,
        leb-eq-true (length q) (length (q ++ bytes)) (omega (arith, length-append q bytes)),
      )
      refl)

pop_count_full : (w : Word) → format_tag w ≡ 0xff → pop_count 0xff ≡ length (bytes_of w)
pop_count_full w e = unfold pop_count in refl

length-loop :
    (fuel total tag n : ℕ) (bytes rest : List ℕ)
    → size_round tag bytes ≡ ok (n, rest)
    → size_loop (suc fuel) (tag ∷ bytes) total ≡ size_loop fuel rest (total + 1 + n)
unfolding size_loop
length-loop fuel total tag n bytes rest e = rw e refl

size_loop-Packed :
    (words : List Word) (bytes : List ℕ)
    → Packed words bytes
    → (fuel total : ℕ) → length bytes ≤ fuel
    → size_loop fuel bytes total ≡ ok (total + length words)
unfolding size_loop
size_loop-Packed words bytes nothing fuel total h = ground arith
size_loop-Packed words bytes (plain w z f more) zero total h = absurd (omega arith)
size_loop-Packed words bytes (plain w {words = ws} {bytes = bs} z f more) (suc fuel) total h =
    length-loop fuel total (format_tag w) 0 (squeeze (bytes_of w) ++ bs) bs (
      size_round-append (format_tag w) (squeeze (bytes_of w)) bs (pop_count-format_tag w)
      ∙ skip_run-plain (format_tag w) bs z f)
    ∙ size_loop-Packed ws bs more fuel (total + 1 + 0)
        (omega (arith, h, length-append (squeeze (bytes_of w)) bs))
    ∙ ap (λ n. ok n) (omega arith)
size_loop-Packed words bytes (zeros n k more) zero total h = absurd (omega arith)
size_loop-Packed words bytes (zeros n {words = ws} {bytes = bs} k more) (suc fuel) total h =
    length-loop fuel total 0 n (n ∷ bs) bs
      (size_round-append 0 [] (n ∷ bs) (unfold pop_count in refl) ∙ (unfold skip_run in refl))
    ∙ size_loop-Packed ws bs more fuel (total + 1 + n) (omega arith)
    ∙ ap (λ m. ok m)
        (omega (arith, length-append (replicate n zero_word) ws, length-replicate n zero_word))
size_loop-Packed words bytes (verbatim w run f k more) zero total h = absurd (omega arith)
size_loop-Packed words bytes (verbatim w run {words = ws} {bytes = bs} f k more) (suc fuel) total
      h =
    length-loop fuel total 0xff (length run)
      (bytes_of w ++ (length run ∷ (bytes_of_words run ++ bs))) bs
      (size_round-append 0xff (bytes_of w) (length run ∷ (bytes_of_words run ++ bs))
          (pop_count_full w f)
        ∙ skip_run-verbatim (length run) (bytes_of_words run) bs (length-bytes_of_words run))
    ∙ size_loop-Packed ws bs more fuel (total + 1 + length run)
        (omega (arith, h, length-append (bytes_of_words run) bs))
    ∙ ap (λ m. ok m) (omega (arith, length-append run ws))

-- For every packed form of some words, whatever the lengths of its runs, the size that is computed is
-- their number, and no data is found invalid.
pub compute_unpacked_size_in_words-Packed :
    (words : List Word) (bytes : List ℕ)
    → Packed words bytes
    → compute_unpacked_size_in_words bytes ≡ ok (length words)
unfolding compute_unpacked_size_in_words
compute_unpacked_size_in_words-Packed words bytes p =
    size_loop-Packed words bytes p (length bytes) 0 (omega arith) ∙ ap (λ n. ok n) (omega arith)
