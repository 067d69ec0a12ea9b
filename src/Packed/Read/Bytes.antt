-- ===== src/Packed/Read/Bytes.antt =====
-- Bytes are read from the stream in order, wherever its buffers end; reading a word without checks
-- of the bounds is the same as reading it with them.
use capnp_import.Common.{
  ℕ, zero, suc, ◌+◌, ◌≤◌, ◌≡◌, List, [], ◌∷◌, ◌++◌, length, true, false, ◌==◌, refl, arith,
  Bool-cases, inl, inr,
}
use capnp_import.Packed.{Result, ok, has_bit, is_nonzero}
use capnp_import.Packed.Format.{squeeze}
use capnp_import.Packed.Format.Tags.{Fits}
use capnp_import.Packed.Read.Stream.{Input, concat, flat, next_buffer, next_byte, read_byte}
use capnp_import.Packed.Read.{word_bytes}

-- The next buffer with bytes in it.
pub next_buffer-flat :
    (more : List (List ℕ)) (b : ℕ) (rest : List ℕ)
    → concat more ≡ b ∷ rest
    → (s : Input) × (next_buffer more ≡ ok s) × (flat s ≡ b ∷ rest) × (1 ≤ length s.buffer)
unfolding next_buffer
next_buffer-flat [] b rest e = cc
next_buffer-flat ([] ∷ more) b rest e = next_buffer-flat more b rest e
next_buffer-flat ((c ∷ bytes) ∷ more) b rest e = (_, refl, e, omega arith)

pub next_byte-cons :
    (s : Input) (b : ℕ) (rest : List ℕ)
    → 1 ≤ length s.buffer
    → flat s ≡ b ∷ rest
    → (s' : Input) × (next_byte s ≡ ok (b, s'))
      × (flat s' ≡ rest)
      × (length s.buffer ≡ length s'.buffer + 1)
next_byte-cons s b rest h e = go s.buffer s.more h e
  where
    go :
        (buffer : List ℕ) (more : List (List ℕ))
        → 1 ≤ length buffer
        → buffer ++ concat more ≡ b ∷ rest
        → (s' : Input) × (next_byte (record { buffer = buffer; more = more }) ≡ ok (b, s'))
          × (flat s' ≡ rest)
          × (length buffer ≡ length s'.buffer + 1)
    go [] more h e = absurd (omega arith)
    go (c ∷ bytes) more h e = (
      record { buffer = bytes; more = more },
      unfold next_byte in ground (arith, e),
      ground (arith, e),
      omega arith,
    )

read_byte_of-flat :
    (buffer : List ℕ) (more : List (List ℕ)) (b : ℕ) (rest : List ℕ)
    → buffer ++ concat more ≡ b ∷ rest
    → (s' : Input) × (read_byte (record { buffer = buffer; more = more }) ≡ ok (b, s'))
      × (flat s' ≡ rest)
read_byte_of-flat [] more b rest e =
    let (s, found, same, full) = next_buffer-flat more b rest e in
    let (s', read, left, n) = next_byte-cons s b rest full same in
    (s', unfold read_byte in rw (found, read), left)
read_byte_of-flat (c ∷ bytes) more b rest e = (
  record { buffer = bytes; more = more },
  unfold read_byte in ground (arith, e),
  ground (arith, e),
)

pub read_byte-flat :
    (s : Input) (b : ℕ) (rest : List ℕ)
    → flat s ≡ b ∷ rest
    → (s' : Input) × (read_byte s ≡ ok (b, s')) × (flat s' ≡ rest)
read_byte-flat s b rest e = read_byte_of-flat s.buffer s.more b rest e

-- Where the buffer is not empty, no check is needed.
pub next_byte_of-eq :
    (buffer : List ℕ) (more : List (List ℕ))
    → 1 ≤ length buffer
    → (b : ℕ) × (s' : Input) × (next_byte (record { buffer = buffer; more = more }) ≡ ok (b, s'))
      × (read_byte (record { buffer = buffer; more = more }) ≡ ok (b, s'))
      × (length buffer ≡ length s'.buffer + 1)
unfolding next_byte read_byte
next_byte_of-eq [] more h = absurd (omega arith)
next_byte_of-eq (b ∷ bytes) more h =
    (b, record { buffer = bytes; more = more }, refl, refl, omega arith)

-- Ten bytes in the buffer are enough for the eight bytes of a word: reading them with no checks
-- gives what reading them with checks does.
pub word_bytes_unchecked :
    (k i tag : ℕ) (s : Input)
    → k ≤ length s.buffer
    → word_bytes next_byte k i tag s ≡ word_bytes read_byte k i tag s
unfolding word_bytes
word_bytes_unchecked zero i tag s h = refl
word_bytes_unchecked (suc k) i tag s h = elim (Bool-cases (has_bit tag i)) [
  | inl e ↦
      let (b, s', fast, slow, left) = next_byte_of-eq s.buffer s.more (omega arith) in
      rw e (rw (fast, slow) (rw (word_bytes_unchecked k (suc i) tag s' (omega arith)) refl))
  | inr e ↦ rw e (rw (word_bytes_unchecked k (suc i) tag s (omega arith)) refl)
]

-- Such reads succeed, and take at most one byte each out of the buffer.
pub word_bytes_fits :
    (k i tag : ℕ) (s : Input)
    → k ≤ length s.buffer
    → (bytes : List ℕ) × (s' : Input) × (word_bytes next_byte k i tag s ≡ ok (bytes, s'))
      × (length s.buffer ≤ length s'.buffer + k)
unfolding word_bytes
word_bytes_fits zero i tag s h = ([], s, refl, omega arith)
word_bytes_fits (suc k) i tag s h = elim (Bool-cases (has_bit tag i)) [
  | inl e ↦
      let (b, s', fast, slow, left) = next_byte_of-eq s.buffer s.more (omega arith) in
      let (bytes, s'', read, n) = word_bytes_fits k (suc i) tag s' (omega arith) in
      (b ∷ bytes, s'', rw e (rw fast (rw read refl)), omega arith)
  | inr e ↦
      let (bytes, s', read, n) = word_bytes_fits k (suc i) tag s (omega arith) in
      (0 ∷ bytes, s', rw e (rw read refl), omega arith)
]

zero_byte :
    (b : ℕ) (bytes : List ℕ) (s : Input)
    → (b == 0) ≡ true
    → Path (Result (List ℕ × Input)) (ok (0 ∷ bytes, s)) (ok (b ∷ bytes, s))
zero_byte b bytes s z = ground (arith, z)

has_bit_zero :
    (b i tag : ℕ) → has_bit tag i ≡ is_nonzero b → (b == 0) ≡ true → has_bit tag i ≡ false
has_bit_zero b i tag fit z = rw (fit, z) refl

has_bit_nonzero :
    (b i tag : ℕ) → has_bit tag i ≡ is_nonzero b → (b == 0) ≡ false → has_bit tag i ≡ true
has_bit_nonzero b i tag fit n = rw (fit, n) refl

-- The bytes whose bits are set come from the stream, in order, and the others are zero.
pub word_bytes-flat :
    (bytes : List ℕ) (i tag : ℕ) (s : Input) (rest : List ℕ)
    → Fits tag i bytes
    → flat s ≡ squeeze bytes ++ rest
    → (s' : Input) × (word_bytes read_byte (length bytes) i tag s ≡ ok (bytes, s'))
      × (flat s' ≡ rest)
unfolding word_bytes
word_bytes-flat [] i tag s rest fits e = (s, refl, e)
word_bytes-flat (b ∷ bytes) i tag s rest (fit, fits) e = elim (Bool-cases (b == 0)) [
  | inl z ↦
      let (s', read, left) = word_bytes-flat bytes (suc i) tag s rest fits (rw z at e) in
      (s', rw (has_bit_zero b i tag fit z) (rw read (zero_byte b bytes s' z)), left)
  | inr n ↦
      let (s1, first, left1) = read_byte-flat s b (squeeze bytes ++ rest) (rw n at e) in
      let (s', read, left) = word_bytes-flat bytes (suc i) tag s1 rest fits left1 in
      (s', rw (has_bit_nonzero b i tag fit n) (rw first (rw read refl)), left)
]
