-- ===== src/Io/Input.antt =====
-- `InputStream`, `BufferedInputStreamWrapper` and `ArrayInputStream` of capnproto/c++/src/kj/io.c++.
-- A result `none` is an exception.
pub mod Laws
pub mod Array
use capnp_import.Common.{
  ℕ, zero, suc, ◌+◌, ◌-◌, ◌≤◌, ◌≡◌, ◌⊎◌, min, List, [], ◌∷◌, ◌++◌, length, take, drop, Bool, true,
  false, ◌==◌, ltb, leb, if◌then◌else◌, Option, none, some,
}

-- The contract of `tryRead` (kj/io.h) for a stream with the state `S`: the bytes that it gives are
-- the next ones of the input, at most `max_bytes`, and fewer than `min_bytes` at the end only.
pub record IsInputStream {S : Type 0} (try_read : ℕ → ℕ → S → List ℕ × S) (remaining : S → List ℕ)
    : Type 0 where
  pub in_order :
      (min_bytes max_bytes : ℕ) (s : S)
      → (try_read min_bytes max_bytes s).0 ++ remaining (try_read min_bytes max_bytes s).1
        ≡ remaining s
  pub at_most :
      (min_bytes max_bytes : ℕ) (s : S)
      → min_bytes ≤ max_bytes
      → length (try_read min_bytes max_bytes s).0 ≤ max_bytes
  pub at_least :
      (min_bytes max_bytes : ℕ) (s : S)
      → min_bytes ≤ max_bytes
      → (min_bytes ≤ length (try_read min_bytes max_bytes s).0)
        ⊎ (remaining (try_read min_bytes max_bytes s).1 ≡ [])

abbrev pub block_size : ℕ
block_size = 4096

abbrev pub scratch_size : ℕ
scratch_size = 8192

-- A `BufferedInputStreamWrapper` around a stream: `bufferAvailable`, and the size of the buffer.
pub record Buffered (S : Type 0) : Type 0 where
  pub inner : S
  pub available : List ℕ
  pub size : ℕ

module _ {S : Type 0} (try_read : ℕ → ℕ → S → List ℕ × S) where
  abbrev require : ℕ → List ℕ × S → Option (List ℕ × S)
  require min_bytes (bytes, s) = if leb min_bytes (length bytes) then some (bytes, s) else none

  pub read : ℕ → ℕ → S → Option (List ℕ × S)
  read min_bytes max_bytes s = require min_bytes (try_read min_bytes max_bytes s)

  abbrev and_then {ℓ} : {B : Type ℓ} → Option (List ℕ × S) → (List ℕ → S → Option B) → Option B
  and_then none f = none
  and_then (some (bytes, s)) f = f bytes s

  -- `InputStream::skip`: at most `scratch_size` bytes at a time.
  pub skip_loop : ℕ → ℕ → S → Option S
  unfolding read
  skip_loop fuel zero s = some s
  skip_loop zero (suc bytes) s = none
  skip_loop (suc fuel) (suc bytes) s =
      let amount = min (suc bytes) scratch_size in
      and_then (read amount amount s) (λ bytes_read s'. skip_loop fuel (suc bytes - amount) s')

  pub skip : ℕ → S → Option S
  unfolding skip_loop
  skip bytes s = skip_loop bytes bytes s

  abbrev prepend : List ℕ → Option (List ℕ) → Option (List ℕ)
  prepend part none = none
  prepend part (some bytes) = some (part ++ bytes)

  -- `readAll`, with `end` the terminating NUL or nothing. A part is full when another one follows.
  pub read_all_loop : ℕ → ℕ → List ℕ → S → Option (List ℕ)
  read_all_loop zero limit end s = none
  read_all_loop (suc fuel) limit end s =
      let part_size = min block_size limit in
      let (part, s') = try_read part_size part_size s in
      let rest = read_all_loop fuel (limit - length part) end s' in
      if ltb 0 limit
      then (if ltb (length part) part_size then some (part ++ end) else prepend part rest)
      else none

  pub read_all : ℕ → Bool → S → Option (List ℕ)
  unfolding read_all_loop
  read_all limit nul_terminate s =
      read_all_loop (suc limit) limit (if nul_terminate then 0 ∷ [] else []) s

  -- `BufferedInputStreamWrapper`
  pub try_get_read_buffer : Buffered S → List ℕ × Buffered S
  try_get_read_buffer w =
      let (bytes, s) = try_read 1 w.size w.inner in
      if length w.available == 0
      then (bytes, record w { inner = s; available = bytes })
      else (w.available, w)

  pub buffered_try_read : ℕ → ℕ → Buffered S → Option (List ℕ × Buffered S)
  unfolding read
  buffered_try_read min_bytes max_bytes w =
      let first = length w.available in
      let min_left = min_bytes - first in
      let max_left = max_bytes - first in
      if leb min_bytes first
      then some (
        take (min first max_bytes) w.available,
        record w { available = drop (min first max_bytes) w.available },
      )
      else if leb max_left w.size
      then and_then (read min_left w.size w.inner) (λ bytes s. some (
        w.available ++ take (min (length bytes) max_left) bytes,
        record w { inner = s; available = drop (min (length bytes) max_left) bytes },
      ))
      else and_then (read min_left max_left w.inner)
          (λ bytes s. some (w.available ++ bytes, record w { inner = s; available = [] }))

  abbrev skipped : Buffered S → Option S → Option (Buffered S)
  skipped w none = none
  skipped w (some s) = some (record w { inner = s; available = [] })

  pub buffered_skip : ℕ → Buffered S → Option (Buffered S)
  unfolding read skip
  buffered_skip bytes w =
      let left = bytes - length w.available in
      if leb bytes (length w.available)
      then some (record w { available = drop bytes w.available })
      else if leb left w.size
      then and_then (read left w.size w.inner)
          (λ bytes_read s. some (record w { inner = s; available = drop left bytes_read }))
      else skipped w (skip left w.inner)

-- `ArrayInputStream::tryRead` and `skip`.
pub array_try_read : ℕ → ℕ → List ℕ → List ℕ × List ℕ
array_try_read min_bytes max_bytes array =
    let n = min max_bytes (length array) in (take n array, drop n array)

pub array_skip : ℕ → List ℕ → Option (List ℕ)
array_skip bytes array = if leb bytes (length array) then some (drop bytes array) else none
