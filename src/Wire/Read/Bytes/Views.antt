-- ===== src/Wire/Read/Bytes/Views.antt =====
-- The elements of a list as bytes are in its segment.
use capnp_import.Common.{ℕ, ◌+◌, ◌-◌, ◌*◌, ◌^◌, ◌≤◌, ◌<◌, ◌≡◌, length, ◌==◌, ◌&&◌, ltb, refl, arith}
use capnp_import.Wire.{not_bytes, not_terminated, incompatible}
use capnp_import.Wire.Holds.{Holds, result, Holds-require, Holds-then_do}
use capnp_import.Wire.Read.{ListReader}
use capnp_import.Wire.Read.Lists.{IsList}
use capnp_import.Wire.Read.Bytes.{Blob, as_data, as_text, as_raw_bytes}
use capnp_import.Wire.Read.Bytes.Laws.{load_byte-Holds}

-- A blob inside of its segment, for which nothing is taken from the limit.
abbrev pub IsBytes : ℕ → Blob → ℕ → Type 0
IsBytes limit b left = (b.address + b.size ≤ 8 * length b.segment) × (left ≡ limit)

times_mono : (count bits step : ℕ) → bits ≤ step → count * bits ≤ count * step
times_mono count bits step h = grind arith

bytes_inside :
    (count bits step address len : ℕ)
    → bits ≤ step
    → 8 * address + count * step ≤ 64 * len
    → 8 * address + count * bits ≤ 64 * len
bytes_inside count bits step address len fits inside =
    let most = times_mono count bits step fits in omega arith

pub as_data-IsBytes :
    (l : ListReader) (limit : ℕ) → IsList l → Holds (IsBytes limit) (as_data l limit)
unfolding as_data
as_data-IsBytes l limit (inside, aligned, fits, pointers) =
    Holds-require (IsBytes limit) (l.data_bits == 8 && l.pointer_count == 0) not_bytes _ limit
      λ bytes.
        let eight : l.data_bits ≡ 8 = ground (arith, bytes) in
        let within =
          bytes_inside l.count 8 l.step l.address (length l.segment) (omega arith) inside in
        result (omega arith, refl)

pub as_text-IsBytes :
    (l : ListReader) (limit : ℕ) → IsList l → Holds (IsBytes limit) (as_text l limit)
unfolding as_text
as_text-IsBytes l limit (inside, aligned, fits, pointers) =
    Holds-require (IsBytes limit) (l.data_bits == 8 && l.pointer_count == 0) not_bytes _ limit
      λ bytes. Holds-require (IsBytes limit) (ltb 0 l.count) not_terminated _ limit λ some_bytes.
        let eight : l.data_bits ≡ 8 = ground (arith, bytes) in
        let within =
          bytes_inside l.count 8 l.step l.address (length l.segment) (omega arith) inside in
        Holds-then_do (λ (b : ℕ) left. (b < 2 ^ 8) × (left ≡ limit)) (IsBytes limit)
          (load_byte-Holds l.segment (l.address + (l.count - 1)) limit
            (ground (arith, some_bytes, within)))
          λ end l1 (small, e).
            Holds-require (IsBytes limit) (end == 0) not_terminated _ l1
              λ _. result (omega arith, e)

pub as_raw_bytes-IsBytes :
    (l : ListReader) (limit : ℕ) → IsList l → Holds (IsBytes limit) (as_raw_bytes l limit)
unfolding as_raw_bytes
as_raw_bytes-IsBytes l limit (inside, aligned, fits, pointers) =
    Holds-require (IsBytes limit) (l.pointer_count == 0) incompatible _ limit λ _.
      let within =
        bytes_inside l.count l.data_bits l.step l.address (length l.segment) (omega arith) inside in
      result (omega arith, refl)
