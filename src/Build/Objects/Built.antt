-- ===== src/Build/Objects/Built.antt =====
-- Stores into the words of an object that is reached.
use capnp_import.Common.{
  ℕ, zero, suc, ◌+◌, ◌≤◌, ◌<◌, ◌≡◌, ◌≢◌, ◌⊎◌, List, [], ◌∷◌, length, get_elem?, true, false, ◌==◌,
  some, refl, sym, ap, ◌∙◌, subst, arith, Bool-cases, inl, inr,
}
use mathlib.Core.Bool.{true≢false}
use mathlib.Core.Option.{some-injective}
use capnp_import.Serialize.{Word, Segment}
use capnp_import.Wire.Pointer.{kind, is_null, far_kind, is_double_far, far_target, target}
use capnp_import.Build.{zero_word, BuilderArena, get_segments_for_output}
use capnp_import.Build.Laws.{IsArena}
use capnp_import.Build.Memory.{get_word, poke, segment_length, segment_of, modify_word}
use capnp_import.Build.Memory.Laws.{get_word-poke_other, segment_length-poke, get_word-lt}
use capnp_import.Build.Memory.Arenas.{
  get_segments_for_output-modify_word, modify_word-stored, segment_length-le,
}
use capnp_import.Build.Objects.{Allocation, finish}
use capnp_import.Build.Objects.Reached.{IsReached, IsMade}
use capnp_import.Build.Objects.Found.{place_of, IsReached-IsFound}
use capnp_import.Wire.Read.Found.{IsFound}

pub get_word_exists :
    (message : List Segment) (id pos : ℕ)
    → pos < segment_length message id
    → (w : Word) × (get_word message id pos ≡ some w)
get_word_exists [] id pos h = absurd (omega arith)
get_word_exists (s ∷ message) zero pos h = get_elem?-exists s pos h
  where
    get_elem?-exists :
        (s : Segment) (pos : ℕ) → pos < length s → (w : Word) × (get_elem? s pos ≡ some w)
    get_elem?-exists [] pos h = absurd (omega arith)
    get_elem?-exists (w ∷ s) zero h = (w, refl)
    get_elem?-exists (w ∷ s) (suc pos) h = get_elem?-exists s pos (omega arith)
get_word_exists (s ∷ message) (suc id) pos h = get_word_exists message id pos h

-- A word of the object's segment that is not its tag, its pointer or an old word.
pub record IsFree (before : List Segment) (id ref : ℕ) (r : Allocation) (p : ℕ) : Type 0 where
  pub no_tag : r.ref ≢ p
  pub no_pointer : (id ≢ r.id) ⊎ (ref ≢ p)
  pub no_old : segment_length before r.id ≤ p

some_words_differ :
    (message : List Segment) (id ref id' ref' : ℕ) (w : Word)
    → get_word message id ref ≡ some w
    → is_null w ≡ false
    → get_word message id' ref' ≡ some zero_word
    → id ≡ id'
    → ref ≢ ref'
some_words_differ message id ref id' ref' w there used free same e =
    let equal : w ≡ zero_word =
      some-injective w zero_word
        (sym there ∙ ap (λ i. get_word message i ref) same ∙ ap (get_word message id') e ∙ free) in
    let null : is_null w ≡ true = ap is_null equal in absurd (true≢false (sym null ∙ used))

kind-is_null : (w : Word) → kind w ≡ far_kind → is_null w ≡ false
kind-is_null w is_far =
    let nonzero : (w.low == 0) ≡ false = ground (arith, is_far) in rw nonzero refl

differ_or : (m n p q : ℕ) → (m ≡ n → p ≢ q) → (m ≢ n) ⊎ (p ≢ q)
differ_or m n p q h = elim (Bool-cases (m == n)) [
  | inr other ↦ inl (λ e. ground (arith, other, e))
  | inl same ↦ let e : m ≡ n = ground (arith, same) in inr (h e)
]

module _ (a : BuilderArena) (id ref amount k high n : ℕ) (r : Allocation)
    (made : IsMade a id ref amount k high r) (below : n < amount) where
  abbrev message : List Segment
  message = get_segments_for_output (finish high r).arena

  no_tag_there : r.ref ≢ r.pos + n
  no_tag_there =
      some_words_differ message r.id r.ref r.id (r.pos + n) made.reached.linked.tag
        made.reached.linked.tagged made.reached.used (made.zeros n below) refl

  no_pointer_there :
      ((r.id ≡ id) × (r.ref ≡ ref))
        ⊎ ((far : Word) × (get_word message id ref ≡ some far)
            × (kind far ≡ far_kind)
            × (is_double_far far ≡ false)
            × (far.high ≡ r.id)
            × (far_target (segment_length message r.id) far ≡ r.ref))
      → (id ≢ r.id) ⊎ (ref ≢ r.pos + n)
  no_pointer_there (inl (same_id, same_ref)) = inr (λ e. no_tag_there (same_ref ∙ e))
  no_pointer_there (inr (far, there, is_far, single, leads, pad)) =
      differ_or id r.id ref (r.pos + n) (
        some_words_differ message id ref r.id (r.pos + n) far there (kind-is_null far is_far)
          (made.zeros n below))

  IsMade-IsFree : IsFree (get_segments_for_output a) id ref r (r.pos + n)
  IsMade-IsFree = record {
    no_tag = no_tag_there;
    no_pointer = no_pointer_there made.reached.linked.from;
    no_old = made.fresh n below;
  }

-- A store into a free word leaves the object reached.
IsReached-poke :
    (before message : List Segment) (id ref amount k high p : ℕ) (r : Allocation) (f : Word → Word)
    → IsReached before message id ref amount k high r
    → IsFree before id ref r p
    → IsReached before (poke r.id p f message) id ref amount k high r
IsReached-poke before message id ref amount k high p r f reached free =
    let size = segment_length-poke r.id r.id p f message in
    let linked = reached.linked in
    let inside = reached.inside in
    record {
      linked = record {
        tag = linked.tag;
        tagged = get_word-poke_other r.id r.ref r.id p f message (inr free.no_tag) ∙ linked.tagged;
        kind_of = linked.kind_of;
        sizes = linked.sizes;
        leads = ap (λ n. target n r.ref linked.tag) size ∙ linked.leads;
        from = from_poke size linked.from;
      };
      used = reached.used;
      inside = omega arith;
      kept = λ i q w old other.
          get_word-poke_other i q r.id p f message (
            differ_or i r.id q p (λ same e.
              let end = get_word-lt before i q w old in
              let there = free.no_old in let len = ap (segment_length before) same in omega arith))
          ∙ reached.kept i q w old other;
    }
  where
    from_poke :
        segment_length (poke r.id p f message) r.id ≡ segment_length message r.id
        → ((r.id ≡ id) × (r.ref ≡ ref))
          ⊎ ((far : Word) × (get_word message id ref ≡ some far)
              × (kind far ≡ far_kind)
              × (is_double_far far ≡ false)
              × (far.high ≡ r.id)
              × (far_target (segment_length message r.id) far ≡ r.ref))
        → ((r.id ≡ id) × (r.ref ≡ ref))
          ⊎ ((far : Word) × (get_word (poke r.id p f message) id ref ≡ some far)
              × (kind far ≡ far_kind)
              × (is_double_far far ≡ false)
              × (far.high ≡ r.id)
              × (far_target (segment_length (poke r.id p f message) r.id) far ≡ r.ref))
    from_poke size (inl same) = inl same
    from_poke size (inr (far, there, is_far, single, leads, pad)) = inr (
      far,
      get_word-poke_other id ref r.id p f message free.no_pointer ∙ there,
      is_far,
      single,
      leads,
      ap (λ n. far_target n far) size ∙ pad,
    )

-- An object with stores into it.
pub record IsBuilt (a : BuilderArena) (id ref amount k high : ℕ) (r : Allocation)
    (a' : BuilderArena) : Type 0 where
  pub arena : IsArena a'
  pub reached :
      IsReached (get_segments_for_output a) (get_segments_for_output a') id ref amount k high r
  pub free : (n : ℕ) → n < amount → IsFree (get_segments_for_output a) id ref r (r.pos + n)

pub IsMade-IsBuilt :
    (a : BuilderArena) (id ref amount k high : ℕ) (r : Allocation)
    → IsMade a id ref amount k high r
    → IsBuilt a id ref amount k high r (finish high r).arena
IsMade-IsBuilt a id ref amount k high r made = record {
  arena = made.arena;
  reached = made.reached;
  free = λ n below. IsMade-IsFree a id ref amount k high n r made below;
}

pub modify_word-IsBuilt :
    (a : BuilderArena) (id ref amount k high n : ℕ) (r : Allocation) (a' : BuilderArena)
    (f : Word → Word)
    → IsBuilt a id ref amount k high r a'
    → n < amount
    → IsBuilt a id ref amount k high r (modify_word r.id (r.pos + n) f a')
modify_word-IsBuilt a id ref amount k high n r a' f built below =
    let inside = built.reached.inside in
    let message = get_segments_for_output a' in
    let (w, there) = get_word_exists message r.id (r.pos + n) (omega arith) in
    record {
      arena = (modify_word-stored r.id (r.pos + n) f w a' built.arena there).0;
      reached =
          subst (λ m. IsReached (get_segments_for_output a) m id ref amount k high r)
            (sym (get_segments_for_output-modify_word r.id (r.pos + n) f a'))
            (IsReached-poke (get_segments_for_output a) message id ref amount k high (r.pos + n) r f
              built.reached (built.free n below));
      free = built.free;
    }

pub IsBuilt-IsFound :
    (a : BuilderArena) (id ref amount k high limit : ℕ) (r : Allocation) (a' : BuilderArena)
    → (built : IsBuilt a id ref amount k high r a') → k < 2
    → (left : ℕ) × (limit ≤ left)
      × IsFound
          (get_segments_for_output a')
          (segment_of (get_segments_for_output a') id)
          ref
          (place_of (get_segments_for_output a') r built.reached.linked.tag)
          (1 + limit)
          left
IsBuilt-IsFound a id ref amount k high limit r a' built kinds =
    let most = segment_length-le r.id a' built.arena in
    IsReached-IsFound (get_segments_for_output a) (get_segments_for_output a') id ref amount k high
      r limit built.reached kinds (omega arith)
