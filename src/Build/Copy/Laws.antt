-- ===== src/Build/Copy/Laws.antt =====
-- What bytes of a message are behind a copy.
use capnp_import.Common.{
  ℕ, zero, suc, ◌+◌, ◌-◌, ◌*◌, ◌/◌, ◌%◌, ◌^◌, ◌≤◌, ◌<◌, ◌≡◌, ◌≢◌, ◌⊎◌, List, [], ◌∷◌, length,
  get_elem?, All, true, false, ◌==◌, if◌then◌else◌, Option, none, some, refl, sym, ap, ◌∙◌, subst,
  arith, Bool-cases, inl, inr,
}
use mathlib.Core.Option.{some-injective, none-ne-some}
use capnp_import.Serialize.{Word, Segment}
use capnp_import.Wire.{value}
use capnp_import.Wire.Read.Bytes.{byte_of, load_byte}
use capnp_import.Wire.Read.Found.{load_found}
use capnp_import.Build.{BuilderArena, and_then, get_segments_for_output}
use capnp_import.Build.Memory.{get_word, poke, segment_length, segment_of, modify_word}
use capnp_import.Build.Memory.Laws.{get_word-poke, get_word-poke_other, segment_length-poke}
use capnp_import.Build.Memory.Arenas.{get_segments_for_output-modify_word, modify_word-stored}
use capnp_import.Build.Laws.{IsArena}
use capnp_import.Build.Objects.{Allocation}
use capnp_import.Build.Objects.Found.{get_elem?-segment_of}
use capnp_import.Build.Objects.Built.{get_word_exists, IsBuilt, modify_word-IsBuilt}
use capnp_import.Build.Copy.{set_byte, copy_memory, load_bytes}
use capnp_import.Build.Copy.Bytes.{byte_of-set_byte}

abbrev pub get_byte : List Segment → ℕ → ℕ → Option ℕ
get_byte message id address =
    and_then (get_word message id (address / 8)) λ w. some (byte_of w (address % 8))

abbrev poke_byte : ℕ → ℕ → ℕ → List Segment → List Segment
poke_byte id address b message = poke id (address / 8) (set_byte (address % 8) b) message

abbrev pub poke_bytes : ℕ → ℕ → List ℕ → List Segment → List Segment
poke_bytes id address [] message = message
poke_bytes id address (b ∷ bytes) message =
    poke_bytes id (address + 1) bytes (poke_byte id address b message)

-- A byte that is stored, read at any address of its word.
get_byte-poke_word :
    (message : List Segment) (id address address' b : ℕ) (w : Word)
    → get_word message id (address / 8) ≡ some w
    → address' / 8 ≡ address / 8
    → b < 2 ^ 8
    → get_byte (poke_byte id address b message) id address'
      ≡ some (if address' % 8 == address % 8 then b else byte_of w (address' % 8))
get_byte-poke_word message id address address' b w there same small =
    let stored : get_word (poke_byte id address b message) id (address' / 8)
        ≡ some (set_byte (address % 8) b w) =
      ap (get_word (poke_byte id address b message) id) same
      ∙ get_word-poke id (address / 8) (set_byte (address % 8) b) w message there in
    ap (λ o. and_then o (λ w. some (byte_of w (address' % 8)))) stored
    ∙ ap some (byte_of-set_byte (address % 8) b (address' % 8) w (omega arith) (omega arith) small)

get_byte-poke_byte :
    (message : List Segment) (id address b : ℕ)
    → address < 8 * segment_length message id
    → b < 2 ^ 8
    → get_byte (poke_byte id address b message) id address ≡ some b
get_byte-poke_byte message id address b inside small =
    let (w, there) = get_word_exists message id (address / 8) (omega arith) in
    let same : (address % 8 == address % 8) ≡ true = ground arith in
    get_byte-poke_word message id address address b w there refl small
    ∙ ap (λ t. some (if t then b else byte_of w (address % 8))) same

get_byte-poke_other :
    (message : List Segment) (id address address' b : ℕ)
    → address < 8 * segment_length message id
    → b < 2 ^ 8
    → address' ≢ address
    → get_byte (poke_byte id address b message) id address' ≡ get_byte message id address'
get_byte-poke_other message id address address' b inside small other =
    elim (Bool-cases (address' / 8 == address / 8)) [
      | inr apart ↦
          ap (λ o. and_then o (λ w. some (byte_of w (address' % 8))))
            (get_word-poke_other id (address' / 8) id (address / 8) (set_byte (address % 8) b)
              message (inr (λ e. ground (arith, apart, e))))
      | inl together ↦
          let same : address' / 8 ≡ address / 8 = ground (arith, together) in
          let (w, there) = get_word_exists message id (address / 8) (omega arith) in
          let differ : (address' % 8 == address % 8) ≡ false = ground (arith, same, other) in
          get_byte-poke_word message id address address' b w there same small
          ∙ ap (λ t. some (if t then b else byte_of w (address' % 8))) differ
          ∙ sym (
              ap (λ o. and_then o (λ w. some (byte_of w (address' % 8))))
                (ap (get_word message id) same ∙ there))
    ]

-- Bytes before the copy and behind it are as they were.
pub get_byte-poke_bytes_other :
    (message : List Segment) (id address : ℕ) (bytes : List ℕ) (address' : ℕ)
    → All (λ b. b < 2 ^ 8) bytes
    → address + length bytes ≤ 8 * segment_length message id
    → (address' < address) ⊎ (address + length bytes ≤ address')
    → get_byte (poke_bytes id address bytes message) id address' ≡ get_byte message id address'
get_byte-poke_bytes_other message id address [] address' small inside apart = refl
get_byte-poke_bytes_other message id address (b ∷ bytes) address' (few, small) inside apart =
    let size = segment_length-poke id id (address / 8) (set_byte (address % 8) b) message in
    get_byte-poke_bytes_other (poke_byte id address b message) id (address + 1) bytes address' small
      (omega arith) (next apart)
    ∙ get_byte-poke_other message id address address' b (omega arith) few (differ apart)
  where
    next :
        (address' < address) ⊎ (address + length (b ∷ bytes) ≤ address')
        → (address' < address + 1) ⊎ (address + 1 + length bytes ≤ address')
    next (inl h) = inl (omega arith)
    next (inr h) = inr (omega arith)

    differ : (address' < address) ⊎ (address + length (b ∷ bytes) ≤ address') → address' ≢ address
    differ (inl h) e = omega arith
    differ (inr h) e = omega arith

-- The bytes of the copy.
pub get_byte-poke_bytes :
    (message : List Segment) (id address : ℕ) (bytes : List ℕ) (i b : ℕ)
    → All (λ b. b < 2 ^ 8) bytes
    → address + length bytes ≤ 8 * segment_length message id
    → get_elem? bytes i ≡ some b
    → get_byte (poke_bytes id address bytes message) id (address + i) ≡ some b
get_byte-poke_bytes message id address [] i b small inside h = absurd (none-ne-some b h)
get_byte-poke_bytes message id address (c ∷ bytes) zero b (few, small) inside h =
    let size = segment_length-poke id id (address / 8) (set_byte (address % 8) c) message in
    let first : address + 0 ≡ address = omega arith in
    ap (get_byte (poke_bytes id (address + 1) bytes (poke_byte id address c message)) id) first
    ∙ get_byte-poke_bytes_other (poke_byte id address c message) id (address + 1) bytes address
        small (omega arith) (inl (omega arith))
    ∙ get_byte-poke_byte message id address c (omega arith) few
    ∙ h
get_byte-poke_bytes message id address (c ∷ bytes) (suc i) b (few, small) inside h =
    let size = segment_length-poke id id (address / 8) (set_byte (address % 8) c) message in
    let later : address + suc i ≡ address + 1 + i = omega arith in
    ap (get_byte (poke_bytes id (address + 1) bytes (poke_byte id address c message)) id) later
    ∙ get_byte-poke_bytes (poke_byte id address c message) id (address + 1) bytes i b small
        (omega arith) h

pub load_byte-get_byte :
    (message : List Segment) (id address limit b : ℕ)
    → get_byte message id address ≡ some b
    → load_byte (segment_of message id) address limit ≡ value b limit
unfolding load_byte
load_byte-get_byte message id address limit b h = go (get_word message id (address / 8)) refl
  where
    go :
        (o : Option Word)
        → get_word message id (address / 8) ≡ o
        → load_byte (segment_of message id) address limit ≡ value b limit
    go none e =
        absurd
          (none-ne-some b (sym (ap (λ o. and_then o (λ w. some (byte_of w (address % 8)))) e) ∙ h))
    go (some w) e =
        let is : some (byte_of w (address % 8)) ≡ some b =
          sym (ap (λ o. and_then o (λ w. some (byte_of w (address % 8)))) e) ∙ h in
        let (segment, there) = get_elem?-segment_of message id (address / 8) w e in
        rw (load_found (segment_of message id) (address / 8) limit w there)
          (ap (λ b. value b limit) (some-injective (byte_of w (address % 8)) b is))

-- The bytes in a row.
pub load_bytes-get_byte :
    (message : List Segment) (id address limit : ℕ) (bytes : List ℕ)
    → ((i b : ℕ) → get_elem? bytes i ≡ some b → get_byte message id (address + i) ≡ some b)
    → load_bytes (segment_of message id) address (length bytes) limit ≡ value bytes limit
unfolding load_bytes
load_bytes-get_byte message id address limit [] each = refl
load_bytes-get_byte message id address limit (b ∷ bytes) each =
    let first : address + 0 ≡ address = omega arith in
    let here = ap (get_byte message id) (sym first) ∙ each 0 b refl in
    rw
      (
        load_byte-get_byte message id address limit b here,
        load_bytes-get_byte message id (address + 1) limit bytes (λ i c h.
            let later : address + 1 + i ≡ address + suc i = omega arith in
            ap (get_byte message id) later ∙ each (suc i) c h),
      )
      refl

-- In an arena.
pub get_segments_for_output-copy_memory :
    (id address : ℕ) (bytes : List ℕ) (a : BuilderArena)
    → get_segments_for_output (copy_memory id address bytes a)
      ≡ poke_bytes id address bytes (get_segments_for_output a)
unfolding copy_memory
get_segments_for_output-copy_memory id address [] a = refl
get_segments_for_output-copy_memory id address (b ∷ bytes) a =
    get_segments_for_output-copy_memory id (address + 1) bytes
      (modify_word id (address / 8) (set_byte (address % 8) b) a)
    ∙ ap (poke_bytes id (address + 1) bytes)
        (get_segments_for_output-modify_word id (address / 8) (set_byte (address % 8) b) a)

pub copy_memory-IsBuilt :
    (a : BuilderArena) (id ref amount k high address : ℕ) (r : Allocation) (bytes : List ℕ)
    (a' : BuilderArena)
    → IsBuilt a id ref amount k high r a'
    → 8 * r.pos ≤ address
    → address + length bytes ≤ 8 * (r.pos + amount)
    → IsBuilt a id ref amount k high r (copy_memory r.id address bytes a')
unfolding copy_memory
copy_memory-IsBuilt a id ref amount k high address r [] a' built from to = built
copy_memory-IsBuilt a id ref amount k high address r (b ∷ bytes) a' built from to =
    let n = address / 8 - r.pos in
    let at : r.pos + n ≡ address / 8 = omega arith in
    copy_memory-IsBuilt a id ref amount k high (address + 1) r bytes
      (modify_word r.id (address / 8) (set_byte (address % 8) b) a')
      (subst
        (λ p. IsBuilt a id ref amount k high r (modify_word r.id p (set_byte (address % 8) b) a'))
        at
        (modify_word-IsBuilt a id ref amount k high n r a' (set_byte (address % 8) b) built
          (omega arith)))
      (omega arith) (omega arith)

-- A copy into what is output keeps an arena well-formed.
pub copy_memory-IsArena :
    (id address : ℕ) (bytes : List ℕ) (a : BuilderArena)
    → IsArena a
    → address + length bytes ≤ 8 * segment_length (get_segments_for_output a) id
    → IsArena (copy_memory id address bytes a)
unfolding copy_memory
copy_memory-IsArena id address [] a valid inside = valid
copy_memory-IsArena id address (b ∷ bytes) a valid inside =
    let message = get_segments_for_output a in
    let f = set_byte (address % 8) b in
    let (w, there) = get_word_exists message id (address / 8) (omega arith) in
    let (valid', there') = modify_word-stored id (address / 8) f w a valid there in
    let size =
      ap (λ m. segment_length m id) (get_segments_for_output-modify_word id (address / 8) f a)
      ∙ segment_length-poke id id (address / 8) f message in
    copy_memory-IsArena id (address + 1) bytes (modify_word id (address / 8) f a) valid'
      (omega arith)
