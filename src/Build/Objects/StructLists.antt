-- ===== src/Build/Objects/StructLists.antt =====
-- Lists of structs that are allocated, as they are read.
use capnp_import.Common.{
  ℕ, ◌+◌, ◌-◌, ◌*◌, ◌/◌, ◌^◌, ◌≤◌, ◌<◌, ◌≡◌, length, take, drop, replicate, Bool, true, leb, some,
  refl, ap, ◌∙◌, subst, arith, inl, inr,
}
use capnp_import.Serialize.{Word}
use capnp_import.Wire.{value}
use capnp_import.Wire.Pointer.{
  kind, is_null, list_kind, struct_kind, data_size, ptr_count, inline_composite_element,
  inline_composite_list_element_count, set_list, set_struct, set_tag,
}
use capnp_import.Wire.Read.{get_list}
use capnp_import.Wire.Read.Found.{pointer_at, get_list_found, read_list_at_structs}
use capnp_import.Build.{zero_word, max_segment_words, BuilderArena, get_segments_for_output}
use capnp_import.Build.Laws.{IsArena}
use capnp_import.Build.Memory.{get_word, segment_of, set_word}
use capnp_import.Build.Memory.Laws.{get_word-poke, get_word-poke_other, take-drop-replicate}
use capnp_import.Build.Memory.Arenas.{get_segments_for_output-modify_word}
use capnp_import.Build.Objects.{Allocation, finish, ListBuilder, list_reader, init_struct_list}
use capnp_import.Build.Objects.Reached.{IsMade, allocate_object-IsMade}
use capnp_import.Build.Objects.Found.{length-segment_of, get_elem?-segment_of, place_of}
use capnp_import.Build.Objects.Built.{IsBuilt, IsMade-IsBuilt, modify_word-IsBuilt, IsBuilt-IsFound}
use capnp_import.Build.Objects.Lists.{list_sizes}

abbrev tag_of : ℕ → ℕ → ℕ → Word
tag_of count words pointers = record {
  low = set_tag struct_kind count;
  high = set_struct words pointers;
}

tag_sizes :
    (count words pointers : ℕ)
    → words < 2 ^ 16
    → pointers < 2 ^ 16
    → count < 2 ^ 29
    → (kind (tag_of count words pointers) ≡ struct_kind)
      × (inline_composite_list_element_count (tag_of count words pointers) ≡ count)
      × (data_size (tag_of count words pointers) ≡ words)
      × (ptr_count (tag_of count words pointers) ≡ pointers)
unfolding set_struct set_tag
tag_sizes count words pointers few_words few_pointers few =
    (omega arith, omega arith, omega arith, omega arith)

-- With the tag in front of the elements.
module _ (a : BuilderArena) (id ref total count words pointers : ℕ) (r : Allocation)
    (made : IsMade a id ref (1 + total) list_kind (set_list inline_composite_element total) r) where
  abbrev tagged : BuilderArena
  tagged =
      set_word r.id r.pos (tag_of count words pointers)
        (finish (set_list inline_composite_element total) r).arena

  tagged_output :
      (pos n : ℕ)
      → pos ≡ r.pos + n
      → n < 1 + total
      → (get_word (get_segments_for_output tagged) r.id r.pos ≡ some (tag_of count words pointers))
        × (0 < n → get_word (get_segments_for_output tagged) r.id pos ≡ some zero_word)
  tagged_output pos n at below =
      let message =
        get_segments_for_output (finish (set_list inline_composite_element total) r).arena in
      let e =
        get_segments_for_output-modify_word r.id r.pos (λ _. tag_of count words pointers)
          (finish (set_list inline_composite_element total) r).arena in
      let first : r.pos + 0 ≡ r.pos = omega arith in
      let start : get_word message r.id r.pos ≡ some zero_word =
        subst (λ p. get_word message r.id p ≡ some zero_word) first (made.zeros 0 (omega arith)) in
      (
        ap (λ m. get_word m r.id r.pos) e
            ∙ get_word-poke r.id r.pos (λ _. tag_of count words pointers) zero_word message start,
        λ behind.
            ap (λ m. get_word m r.id pos) e
            ∙ get_word-poke_other r.id pos r.id r.pos (λ _. tag_of count words pointers) message
                (inr (λ same. absurd (omega arith)))
            ∙ ap (get_word message r.id) at
            ∙ made.zeros n below,
      )

  tagged_zeros :
      take total (drop (r.pos + 1) (segment_of (get_segments_for_output tagged) r.id))
      ≡ replicate total zero_word
  tagged_zeros =
      take-drop-replicate total (r.pos + 1) zero_word
        (segment_of (get_segments_for_output tagged) r.id)
        (λ n below.
          (get_elem?-segment_of (get_segments_for_output tagged) r.id (r.pos + 1 + n) zero_word (
            (tagged_output (r.pos + 1 + n) (1 + n) (omega arith) (omega arith)).1 (omega arith))).1)

  tagged-IsBuilt :
      IsBuilt a id ref (1 + total) list_kind (set_list inline_composite_element total) r tagged
  tagged-IsBuilt =
      let first : r.pos + 0 ≡ r.pos = omega arith in
      let high = set_list inline_composite_element total in
      subst
        (λ p.
          IsBuilt a id ref (1 + total) list_kind high r
            (set_word r.id p (tag_of count words pointers) (finish high r).arena))
        first
        (modify_word-IsBuilt a id ref (1 + total) list_kind high 0 r (finish high r).arena
          (λ _. tag_of count words pointers)
          (IsMade-IsBuilt a id ref (1 + total) list_kind high r made) (omega arith))

-- For a null pointer of a well-formed arena with less than 2^32 segments, `initStructListPointer`
-- makes a list of less than 2^29 structs, each with less than 2^16 words of data and of pointers,
-- if its words, its tag and a landing pad fit into a segment: the message that the arena then
-- outputs is read, from the same pointer with a nesting limit above 0, with or without the check of
-- its elements, and within the traversal limit of its words, its elements and two more, as the list
-- of the builder, and all words of its elements are zero. The arena is well-formed again.
pub get_list-init_struct_list :
    (a : BuilderArena) (fuel id ref count words pointers depth limit : ℕ) (check : Bool) (w : Word)
    → IsArena a
    → length (get_segments_for_output a) < 2 ^ 32
    → get_word (get_segments_for_output a) id ref ≡ some w
    → is_null w ≡ true
    → count < 2 ^ 29
    → words < 2 ^ 16
    → pointers < 2 ^ 16
    → count * (words + pointers) + 2 ≤ max_segment_words
    → count * (words + pointers) + 1 + count ≤ limit
    → (b : ListBuilder) × (a' : BuilderArena) × (left : ℕ) × (init_struct_list fuel id ref count
          words pointers a
        ≡ some (b, a'))
      × IsArena a'
      × (get_list
            (get_segments_for_output a')
            inline_composite_element
            check
            (pointer_at (segment_of (get_segments_for_output a') id) ref (1 + depth))
            (1 + limit)
          ≡ value (some (list_reader (get_segments_for_output a') depth b)) left)
      × (take
            (count * (words + pointers))
            (drop (b.address / 8) (segment_of (get_segments_for_output a') b.id))
          ≡ replicate (count * (words + pointers)) zero_word)
unfolding init_struct_list
get_list-init_struct_list a fuel id ref count words pointers depth limit check w valid few here null
      elements few_words few_pointers fits enough =
    let total = count * (words + pointers) in
    let high = set_list inline_composite_element total in
    let (r, e, make) =
      allocate_object-IsMade a fuel id ref (1 + total) list_kind w valid few here null (omega arith)
        (omega arith) in
    let made = make high (inl refl) in
    let a' = tagged a id ref total count words pointers r made in
    let message = get_segments_for_output a' in
    let built = tagged-IsBuilt a id ref total count words pointers r made in
    let there =
      (tagged_output a id ref total count words pointers r made r.pos 0 (omega arith)
        (omega arith)).0 in
    let (known, counts, of_words, of_pointers) =
      tag_sizes count words pointers few_words few_pointers elements in
    let (of_size, of_total) =
      list_sizes built.reached.linked.tag inline_composite_element total (omega arith) (omega arith)
        built.reached.linked.sizes in
    let (left, at_least, found) =
      IsBuilt-IsFound a id ref (1 + total) list_kind high limit r a' built (omega arith) in
    let size = length-segment_of message r.id in
    let inside = built.reached.inside in
    let (behind, read) =
      read_list_at_structs depth count words pointers total check
        (place_of message r built.reached.linked.tag) (tag_of count words pointers) left
        built.reached.linked.kind_of of_size of_total
        (get_elem?-segment_of message r.id r.pos (tag_of count words pointers) there).1 known counts
        of_words of_pointers (omega arith) (omega arith) (omega arith) in
    let at : 8 * (r.pos + 1) / 8 ≡ r.pos + 1 = omega arith in
    let allowed : leb count (2 ^ 29 - 1) ≡ true = ground arith in
    let held : leb total (max_segment_words - 1) ≡ true = ground arith in
    (
      record {
        id = r.id;
        address = 8 * (r.pos + 1);
        step = 64 * (words + pointers);
        count = count;
        data_bits = 64 * words;
        pointer_count = pointers;
        element = inline_composite_element;
      },
      a',
      behind,
      rw (allowed, held, e) refl,
      built.arena,
      get_list_found message (segment_of message id) ref
            (place_of message r built.reached.linked.tag) (1 + limit) left found
            inline_composite_element depth check
          ∙ read,
      rw at (tagged_zeros a id ref total count words pointers r made),
    )
