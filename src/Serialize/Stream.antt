-- ===== src/Serialize/Stream.antt =====
-- `InputStreamMessageReader` of capnproto/c++/src/capnp/serialize.c++: a message read from a stream,
-- its segments behind the first one only when they are asked for. A result `none` is an exception.
pub mod Laws
use capnp_import.Common.{
  ℕ, zero, suc, ◌+◌, ◌-◌, ◌*◌, ◌/◌, ◌%◌, ◌^◌, List, [], ◌∷◌, ◌++◌, length, take, drop, Bool, true,
  false, ◌==◌, ◌&&◌, ltb, leb, if◌then◌else◌, Option, none, some,
}
use capnp_import.Io.Input.{read, skip}

-- `WireValue<uint32_t>::get()` for each four bytes.
abbrev pub wire_values : List ℕ → List ℕ
wire_values (a ∷ b ∷ c ∷ d ∷ bytes) = (a + b * 2 ^ 8 + c * 2 ^ 16 + d * 2 ^ 24) ∷ wire_values bytes
wire_values bytes = []

abbrev pub sum : List ℕ → ℕ
sum [] = 0
sum (n ∷ ns) = n + sum ns

abbrev pub head_or_zero : List ℕ → ℕ
head_or_zero [] = 0
head_or_zero (n ∷ ns) = n

-- The bytes that are read so far, which end at `readPos`, and the sizes of the segments in words.
-- `is_lazy` is `readPos != nullptr`.
pub record Reader (S : Type 0) : Type 0 where
  pub input : S
  pub space : List ℕ
  pub is_lazy : Bool
  pub sizes : List ℕ

-- `allEnd - scratchSpace`, in bytes.
abbrev pub all_end : {S : Type 0} → Reader S → ℕ
all_end r = 8 * sum r.sizes

module _ {S : Type 0} (try_read : ℕ → ℕ → S → List ℕ × S) where
  abbrev pub and_then {κ} : {B : Type κ} → Option (List ℕ × S) → (List ℕ → S → Option B) → Option B
  and_then none f = none
  and_then (some (bytes, s)) f = f bytes s

  -- With the sizes of all segments known: the first segment at least is read.
  read_segments : ℕ → ℕ → List ℕ → S → Option (Reader S)
  read_segments limit count sizes s =
      let total = 8 * sum sizes in
      let least = if count == 1 then total else 8 * head_or_zero sizes in
      let with_bytes = and_then (read try_read least total s) (λ bytes s'.
        some (record { input = s'; space = bytes; is_lazy = ltb 1 count; sizes = sizes })) in
      if ltb limit (sum sizes)
      then none
      else if count == 0
      then some (record { input = s; space = []; is_lazy = false; sizes = sizes })
      else with_bytes

  -- The table: the sizes of all segments but the first, with the padding.
  read_table : ℕ → ℕ → ℕ → S → Option (Reader S)
  unfolding read_segments
  read_table limit count size0 s =
      let n = 4 * (count / 2 * 2) in
      if leb 512 count
      then none
      else if ltb 1 count
      then and_then (read try_read n n s)
          (λ bytes s'. read_segments limit count (size0 ∷ take (count - 1) (wire_values bytes)) s')
      else read_segments limit count (size0 ∷ []) s

  pub new_reader : ℕ → S → Option (Reader S)
  unfolding read_table
  new_reader limit s = and_then (read try_read 8 8 s) (λ first s'.
      let count = (head_or_zero (wire_values first) + 1) % 2 ^ 32 in
      let size0 = if count == 0 then 0 else head_or_zero (drop 1 (wire_values first)) in
      read_table limit count size0 s')

  -- The first byte of a segment, and its end, in the bytes of the message.
  abbrev pub segment_start : ℕ → Reader S → ℕ
  segment_start id r = 8 * sum (take id r.sizes)

  abbrev pub segment_end : ℕ → Reader S → ℕ
  segment_end id r = 8 * sum (take (suc id) r.sizes)

  -- The bytes of a segment in the space that is filled.
  abbrev pub segment : ℕ → Reader S → List ℕ → List ℕ
  segment id r space =
      take (segment_end id r - segment_start id r) (drop (segment_start id r) space)

  pub get_segment : ℕ → Reader S → Option (List ℕ × Reader S)
  get_segment id r =
      let pos = length r.space in
      if leb (length r.sizes) id
      then some ([], r)
      else if r.is_lazy && ltb pos (segment_end id r)
      then and_then (read try_read (segment_end id r - pos) (all_end r - pos) r.input) (λ bytes s.
        some (segment id r (r.space ++ bytes), record r { input = s; space = r.space ++ bytes }))
      else some (segment id r r.space, r)

  -- The destructor skips what is not read.
  pub close : Reader S → Option S
  close r = if r.is_lazy then skip try_read (all_end r - length r.space) r.input else some r.input
