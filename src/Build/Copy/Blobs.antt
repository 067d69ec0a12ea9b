-- ===== src/Build/Copy/Blobs.antt =====
-- Texts and data that are set, as they are read.
use capnp_import.Common.{
  ℕ, ◌+◌, ◌-◌, ◌*◌, ◌/◌, ◌%◌, ◌^◌, ◌≤◌, ◌<◌, ◌≡◌, ◌≢◌, ◌⊎◌, List, length, All, true, leb, some,
  refl, sym, ap, ◌∙◌, arith, inr,
}
use mathlib.Core.Option.{some-injective}
use capnp_import.Serialize.{Word}
use capnp_import.Wire.{value}
use capnp_import.Wire.Pointer.{is_null, list_kind, byte_element, set_list}
use capnp_import.Wire.Read.Bytes.{byte_of, get_text, get_data, round_bytes_up_to_words}
use capnp_import.Wire.Read.Found.{pointer_at}
use capnp_import.Build.{BuilderArena, and_then, get_segments_for_output}
use capnp_import.Build.Laws.{IsArena}
use capnp_import.Build.Memory.{get_word, segment_of}
use capnp_import.Build.Objects.{Allocation, finish, BlobBuilder, blob_reader}
use capnp_import.Build.Objects.Reached.{IsMade}
use capnp_import.Build.Objects.Built.{IsBuilt, IsMade-IsBuilt, get_word_exists}
use capnp_import.Build.Objects.Blobs.{
  builder_at, byte_of-zero, init_data-IsMade, init_text-IsMade, get_data-IsBuilt, get_text-IsBuilt,
}
use capnp_import.Build.Copy.{copy_memory, set_text, set_data, blob_bytes}
use capnp_import.Build.Copy.Laws.{
  get_byte, get_byte-poke_bytes, get_byte-poke_bytes_other, load_bytes-get_byte,
  get_segments_for_output-copy_memory, copy_memory-IsBuilt,
}

-- The bytes behind a copy to the start of an object.
module _ (a : BuilderArena) (id ref amount high : ℕ) (r : Allocation) (bytes : List ℕ)
    (made : IsMade a id ref amount list_kind high r) (small : All (λ b. b < 2 ^ 8) bytes)
    (fits : length bytes ≤ 8 * amount) where
  abbrev filled : BuilderArena
  filled = copy_memory r.id (8 * r.pos) bytes (finish high r).arena

  filled-IsBuilt : IsBuilt a id ref amount list_kind high r filled
  filled-IsBuilt =
      copy_memory-IsBuilt a id ref amount list_kind high (8 * r.pos) r bytes (finish high r).arena
        (IsMade-IsBuilt a id ref amount list_kind high r made) (omega arith) (omega arith)

  filled_bytes :
      (limit : ℕ)
      → blob_bytes
          (blob_reader (get_segments_for_output filled) (builder_at r (length bytes)))
          limit
        ≡ value bytes limit
  unfolding blob_bytes
  filled_bytes limit =
      let message = get_segments_for_output (finish high r).arena in
      let inside = made.reached.inside in
      let e = get_segments_for_output-copy_memory r.id (8 * r.pos) bytes (finish high r).arena in
      load_bytes-get_byte (get_segments_for_output filled) r.id (8 * r.pos) limit bytes (λ i b h.
        ap (λ m. get_byte m r.id (8 * r.pos + i)) e
        ∙ get_byte-poke_bytes message r.id (8 * r.pos) bytes i b small (omega arith) h)

  filled_end :
      (n : ℕ)
      → length bytes ≤ n
      → n < 8 * amount
      → get_byte (get_segments_for_output filled) r.id (8 * r.pos + n) ≡ some 0
  filled_end n behind inside =
      let message = get_segments_for_output (finish high r).arena in
      let most = made.reached.inside in
      let word : (8 * r.pos + n) / 8 ≡ r.pos + n / 8 = omega arith in
      ap (λ m. get_byte m r.id (8 * r.pos + n))
        (get_segments_for_output-copy_memory r.id (8 * r.pos) bytes (finish high r).arena)
      ∙ get_byte-poke_bytes_other message r.id (8 * r.pos) bytes (8 * r.pos + n) small (omega arith)
          (inr (omega arith))
      ∙ ap (λ o. and_then o (λ w. some (byte_of w ((8 * r.pos + n) % 8))))
          (ap (get_word message r.id) word ∙ made.zeros (n / 8) (omega arith))
      ∙ ap some (byte_of-zero ((8 * r.pos + n) % 8))

-- For a null pointer of a well-formed arena with less than 2^32 segments, `setDataPointer` stores
-- less than 2^29 bytes: the message that the arena then outputs is read, from the same pointer and
-- within the traversal limit of its words and one more, as the data of the builder, and its bytes
-- are the ones that were set. The arena is well-formed again.
pub get_data-set_data :
    (a : BuilderArena) (fuel id ref depth limit : ℕ) (bytes : List ℕ) (w : Word)
    → IsArena a
    → length (get_segments_for_output a) < 2 ^ 32
    → get_word (get_segments_for_output a) id ref ≡ some w
    → is_null w ≡ true
    → All (λ b. b < 2 ^ 8) bytes
    → length bytes < 2 ^ 29
    → round_bytes_up_to_words (length bytes) ≤ limit
    → (b : BlobBuilder) × (a' : BuilderArena) × (left : ℕ) × (set_data fuel id ref bytes a
        ≡ some (b, a'))
      × IsArena a'
      × (get_data
            (get_segments_for_output a')
            (pointer_at (segment_of (get_segments_for_output a') id) ref depth)
            (1 + limit)
          ≡ value (some (blob_reader (get_segments_for_output a') b)) left)
      × (blob_bytes (blob_reader (get_segments_for_output a') b) left ≡ value bytes left)
unfolding set_data
get_data-set_data a fuel id ref depth limit bytes w valid few here null small fits enough =
    let (r, e, made) = init_data-IsMade a fuel id ref (length bytes) w valid few here null fits in
    let amount = round_bytes_up_to_words (length bytes) in
    let high = set_list byte_element (length bytes) in
    let a' = filled a id ref amount high r bytes made small (omega arith) in
    let built = filled-IsBuilt a id ref amount high r bytes made small (omega arith) in
    let (left, read) =
      get_data-IsBuilt a id ref (length bytes) depth limit r a' fits enough built in
    let allowed : leb (length bytes) (2 ^ 29 - 1) ≡ true = ground arith in
    (
      builder_at r (length bytes),
      a',
      left,
      rw (allowed, e) refl,
      built.arena,
      read,
      filled_bytes a id ref amount high r bytes made small (omega arith) left,
    )

-- For a null pointer of a well-formed arena with less than 2^32 segments, `setTextPointer` stores
-- less than 2^29 - 1 bytes: the message that the arena then outputs is read, from the same pointer
-- and within the traversal limit of the words of the bytes and their NUL and one more, as the text
-- of the builder, and its bytes are the ones that were set. The arena is well-formed again.
pub get_text-set_text :
    (a : BuilderArena) (fuel id ref depth limit : ℕ) (bytes : List ℕ) (w : Word)
    → IsArena a
    → length (get_segments_for_output a) < 2 ^ 32
    → get_word (get_segments_for_output a) id ref ≡ some w
    → is_null w ≡ true
    → All (λ b. b < 2 ^ 8) bytes
    → length bytes < 2 ^ 29 - 1
    → round_bytes_up_to_words (length bytes + 1) ≤ limit
    → (b : BlobBuilder) × (a' : BuilderArena) × (left : ℕ) × (set_text fuel id ref bytes a
        ≡ some (b, a'))
      × IsArena a'
      × (get_text
            (get_segments_for_output a')
            (pointer_at (segment_of (get_segments_for_output a') id) ref depth)
            (1 + limit)
          ≡ value (some (blob_reader (get_segments_for_output a') b)) left)
      × (blob_bytes (blob_reader (get_segments_for_output a') b) left ≡ value bytes left)
unfolding set_text
get_text-set_text a fuel id ref depth limit bytes w valid few here null small fits enough =
    let size = length bytes in
    let (r, e, made) = init_text-IsMade a fuel id ref size w valid few here null fits in
    let amount = round_bytes_up_to_words (size + 1) in
    let high = set_list byte_element (size + 1) in
    let a' = filled a id ref amount high r bytes made small (omega arith) in
    let built = filled-IsBuilt a id ref amount high r bytes made small (omega arith) in
    let inside = built.reached.inside in
    let (end, there) =
      get_word_exists (get_segments_for_output a') r.id (r.pos + size / 8) (omega arith) in
    let nul =
      filled_end a id ref amount high r bytes made small (omega arith) size (omega arith)
        (omega arith) in
    let word : (8 * r.pos + size) / 8 ≡ r.pos + size / 8 = omega arith in
    let byte : (8 * r.pos + size) % 8 ≡ size % 8 = omega arith in
    let zero_byte : byte_of end (size % 8) ≡ 0 = some-injective (byte_of end (size % 8)) 0 (
      sym (ap (λ o. and_then o (λ w. some (byte_of w (size % 8)))) there)
      ∙ sym (
          ap
            (λ p.
              and_then (get_word (get_segments_for_output a') r.id p)
                (λ w. some (byte_of w (size % 8))))
            word)
      ∙ sym (
          ap
            (λ i.
              and_then (get_word (get_segments_for_output a') r.id ((8 * r.pos + size) / 8))
                (λ w. some (byte_of w i)))
            byte)
      ∙ nul) in
    let (left, read) =
      get_text-IsBuilt a id ref size depth limit r a' end fits enough built there zero_byte in
    let allowed : leb size (2 ^ 29 - 2) ≡ true = ground arith in
    (
      builder_at r size,
      a',
      left,
      rw (allowed, e) refl,
      built.arena,
      read,
      filled_bytes a id ref amount high r bytes made small (omega arith) left,
    )

-- For a null pointer of a well-formed arena with less than 2^32 segments, and less than 2^29 - 1
-- bytes, `setTextPointer` does not throw, and every word that the arena did output, but the pointer
-- itself, is output behind it in its place.
pub get_word-set_text :
    (a : BuilderArena) (fuel id ref i p : ℕ) (bytes : List ℕ) (w x : Word)
    → IsArena a
    → length (get_segments_for_output a) < 2 ^ 32
    → get_word (get_segments_for_output a) id ref ≡ some w
    → is_null w ≡ true
    → All (λ b. b < 2 ^ 8) bytes
    → length bytes < 2 ^ 29 - 1
    → get_word (get_segments_for_output a) i p ≡ some x
    → (i ≢ id) ⊎ (p ≢ ref)
    → (b : BlobBuilder) × (a' : BuilderArena) × (set_text fuel id ref bytes a ≡ some (b, a'))
      × (get_word (get_segments_for_output a') i p ≡ some x)
unfolding set_text
get_word-set_text a fuel id ref i p bytes w x valid few here null small fits old other =
    let size = length bytes in
    let (r, e, made) = init_text-IsMade a fuel id ref size w valid few here null fits in
    let amount = round_bytes_up_to_words (size + 1) in
    let high = set_list byte_element (size + 1) in
    let built = filled-IsBuilt a id ref amount high r bytes made small (omega arith) in
    let allowed : leb size (2 ^ 29 - 2) ≡ true = ground arith in
    (
      builder_at r size,
      filled a id ref amount high r bytes made small (omega arith),
      rw (allowed, e) refl,
      built.reached.kept i p x old other,
    )
