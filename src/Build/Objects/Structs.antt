-- ===== src/Build/Objects/Structs.antt =====
-- Structs that are allocated, as they are read.
use capnp_import.Common.{
  ℕ, ◌+◌, ◌-◌, ◌*◌, ◌/◌, ◌^◌, ◌≤◌, ◌<◌, ◌≡◌, ◌≢◌, ◌⊎◌, length, take, drop, replicate, true, some,
  refl, ◌∙◌, arith, inr,
}
use capnp_import.Serialize.{Word}
use capnp_import.Wire.{value}
use capnp_import.Wire.Pointer.{is_null, struct_kind, data_size, ptr_count, word_size, set_struct}
use capnp_import.Wire.Read.{get_struct}
use capnp_import.Wire.Read.Found.{pointer_at, get_struct_found, read_struct_at_found}
use capnp_import.Build.{zero_word, BuilderArena, get_segments_for_output}
use capnp_import.Build.Laws.{IsArena}
use capnp_import.Build.Memory.{get_word, segment_of}
use capnp_import.Build.Objects.{Allocation, finish, StructBuilder, struct_reader, init_struct}
use capnp_import.Build.Objects.Built.{IsBuilt, IsMade-IsBuilt, IsBuilt-IsFound}
use capnp_import.Build.Objects.Reached.{IsSized, IsMade, allocate_object-IsMade}
use capnp_import.Build.Objects.Found.{length-segment_of, place_of, IsMade-zeros}

struct_sizes :
    (w : Word) (words pointers : ℕ)
    → words < 2 ^ 16
    → pointers < 2 ^ 16
    → w.high ≡ set_struct words pointers
    → (data_size w ≡ words) × (ptr_count w ≡ pointers)
unfolding set_struct
struct_sizes w words pointers few_words few_pointers sizes = (omega arith, omega arith)

struct-IsSized :
    (words pointers : ℕ)
    → words < 2 ^ 16
    → pointers < 2 ^ 16
    → IsSized struct_kind (words + pointers) (set_struct words pointers)
unfolding set_struct
struct-IsSized words pointers few_words few_pointers = inr (refl, λ some_words. omega arith)

abbrev pub struct_at : Allocation → ℕ → ℕ → StructBuilder
struct_at r words pointers = record {
  id = r.id;
  address = 8 * r.pos;
  pointers = 8 * (r.pos + words);
  data_bits = 64 * words;
  pointer_count = pointers;
}

pub init_struct-IsMade :
    (a : BuilderArena) (fuel id ref words pointers : ℕ) (w : Word)
    → IsArena a
    → length (get_segments_for_output a) < 2 ^ 32
    → get_word (get_segments_for_output a) id ref ≡ some w
    → is_null w ≡ true
    → words < 2 ^ 16
    → pointers < 2 ^ 16
    → (r : Allocation) × (init_struct fuel id ref words pointers a
        ≡ some (struct_at r words pointers, (finish (set_struct words pointers) r).arena))
      × IsMade a id ref (words + pointers) struct_kind (set_struct words pointers) r
unfolding init_struct
init_struct-IsMade a fuel id ref words pointers w valid few here null few_words few_pointers =
    let (r, e, made) =
      allocate_object-IsMade a fuel id ref (words + pointers) struct_kind w valid few here null
        (omega arith) (omega arith) in
    (
      r,
      rw e refl,
      made (set_struct words pointers) (struct-IsSized words pointers few_words few_pointers),
    )

pub get_struct-IsBuilt :
    (a : BuilderArena) (id ref words pointers depth limit : ℕ) (r : Allocation) (a' : BuilderArena)
    → words < 2 ^ 16
    → pointers < 2 ^ 16
    → words + pointers ≤ limit
    → IsBuilt a id ref (words + pointers) struct_kind (set_struct words pointers) r a'
    → (left : ℕ) × (get_struct
          (get_segments_for_output a')
          (pointer_at (segment_of (get_segments_for_output a') id) ref (1 + depth))
          (1 + limit)
        ≡ value
            (some (struct_reader (get_segments_for_output a') depth (struct_at r words pointers)))
            left)
get_struct-IsBuilt a id ref words pointers depth limit r a' few_words few_pointers enough built =
    let message = get_segments_for_output a' in
    let tag = built.reached.linked.tag in
    let (of_words, of_pointers) =
      struct_sizes tag words pointers few_words few_pointers built.reached.linked.sizes in
    let (left, at_least, found) =
      IsBuilt-IsFound a id ref (words + pointers) struct_kind (set_struct words pointers) limit r a'
        built (omega arith) in
    let size = length-segment_of message r.id in
    let inside = built.reached.inside in
    (
      left - word_size tag,
      get_struct_found message (segment_of message id) ref (place_of message r tag) (1 + limit) left
            found depth
          ∙ read_struct_at_found depth (place_of message r tag) left built.reached.linked.kind_of
              (omega arith) (omega arith)
          ∙ rw (of_words, of_pointers) refl,
    )

-- For a null pointer of a well-formed arena with less than 2^32 segments, `initStructPointer` makes
-- a struct with less than 2^16 words of data and of pointers each: the message that the arena then
-- outputs is read, from the same pointer with a nesting limit above 0 and within the traversal
-- limit of its words and one more, as the struct of the builder, with its sizes, and all words of
-- the struct are zero. The arena is well-formed again.
pub get_struct-init_struct :
    (a : BuilderArena) (fuel id ref words pointers depth limit : ℕ) (w : Word)
    → IsArena a
    → length (get_segments_for_output a) < 2 ^ 32
    → get_word (get_segments_for_output a) id ref ≡ some w
    → is_null w ≡ true
    → words < 2 ^ 16
    → pointers < 2 ^ 16
    → words + pointers ≤ limit
    → (b : StructBuilder) × (a' : BuilderArena) × (left : ℕ) × (init_struct fuel id ref words
          pointers a
        ≡ some (b, a'))
      × IsArena a'
      × (get_struct
            (get_segments_for_output a')
            (pointer_at (segment_of (get_segments_for_output a') id) ref (1 + depth))
            (1 + limit)
          ≡ value (some (struct_reader (get_segments_for_output a') depth b)) left)
      × (take
            (words + pointers)
            (drop (b.address / 8) (segment_of (get_segments_for_output a') b.id))
          ≡ replicate (words + pointers) zero_word)
get_struct-init_struct a fuel id ref words pointers depth limit w valid few here null few_words
      few_pointers enough =
    let (r, e, made) =
      init_struct-IsMade a fuel id ref words pointers w valid few here null few_words
        few_pointers in
    let high = set_struct words pointers in
    let (left, read) =
      get_struct-IsBuilt a id ref words pointers depth limit r (finish high r).arena few_words
        few_pointers enough (IsMade-IsBuilt a id ref (words + pointers) struct_kind high r made) in
    let at : 8 * r.pos / 8 ≡ r.pos = omega arith in
    (
      struct_at r words pointers,
      (finish high r).arena,
      left,
      e,
      made.arena,
      read,
      rw at (IsMade-zeros a id ref (words + pointers) struct_kind high r made),
    )

-- For a null pointer of a well-formed arena with less than 2^32 segments, and less than 2^16 words
-- of data and of pointers, every word that the arena did output, but the pointer itself, is output
-- behind `initStructPointer` in its place.
get_word-init_struct :
    (a : BuilderArena) (fuel id ref words pointers i p : ℕ) (w x : Word)
    → IsArena a
    → length (get_segments_for_output a) < 2 ^ 32
    → get_word (get_segments_for_output a) id ref ≡ some w
    → is_null w ≡ true
    → words < 2 ^ 16
    → pointers < 2 ^ 16
    → get_word (get_segments_for_output a) i p ≡ some x
    → (i ≢ id) ⊎ (p ≢ ref)
    → (b : StructBuilder) × (a' : BuilderArena) × (init_struct fuel id ref words pointers a
        ≡ some (b, a'))
      × (get_word (get_segments_for_output a') i p ≡ some x)
get_word-init_struct a fuel id ref words pointers i p w x valid few here null few_words few_pointers
      old other =
    let (r, e, made) =
      init_struct-IsMade a fuel id ref words pointers w valid few here null few_words
        few_pointers in
    (
      struct_at r words pointers,
      (finish (set_struct words pointers) r).arena,
      e,
      made.reached.kept i p x old other,
    )
