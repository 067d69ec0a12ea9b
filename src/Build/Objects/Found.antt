-- ===== src/Build/Objects/Found.antt =====
-- Objects that are reached, as a reader finds them.
use capnp_import.Common.{
  ℕ, zero, suc, ◌+◌, ◌*◌, ◌/◌, ◌^◌, ◌≤◌, ◌<◌, ◌≡◌, ◌⊎◌, List, [], ◌∷◌, length, get_elem?, take,
  drop, replicate, false, ◌==◌, some, refl, sym, ap, ◌∙◌, subst, arith, inl, inr,
}
use mathlib.Core.Option.{none-ne-some}
use capnp_import.Serialize.{Word, Segment}
use capnp_import.Wire.{value}
use capnp_import.Wire.Pointer.{kind, far_kind, is_double_far, target, far_target}
use capnp_import.Wire.Fars.{Place}
use capnp_import.Wire.Fars.Found.{follow_fars-near, follow_fars-pad}
use capnp_import.Wire.Read.Found.{IsFound}
use capnp_import.Build.{zero_word, BuilderArena, get_segments_for_output}
use capnp_import.Build.Memory.Arenas.{segment_length-le}
use capnp_import.Build.Memory.{get_word, segment_length, segment_of}
use capnp_import.Build.Memory.Laws.{get_word-lt, take-drop-replicate}
use capnp_import.Build.Objects.{Allocation, finish}
use capnp_import.Build.Objects.Reached.{IsReached, IsMade}

pub length-segment_of :
    (message : List Segment) (id : ℕ) → length (segment_of message id) ≡ segment_length message id
length-segment_of [] id = refl
length-segment_of (s ∷ message) zero = refl
length-segment_of (s ∷ message) (suc id) = length-segment_of message id

pub get_elem?-segment_of :
    (message : List Segment) (id pos : ℕ) (w : Word)
    → get_word message id pos ≡ some w
    → (get_elem? message id ≡ some (segment_of message id))
      × (get_elem? (segment_of message id) pos ≡ some w)
get_elem?-segment_of [] id pos w h = absurd (none-ne-some w h)
get_elem?-segment_of (s ∷ message) zero pos w h = (refl, h)
get_elem?-segment_of (s ∷ message) (suc id) pos w h = get_elem?-segment_of message id pos w h

abbrev pub place_of : List Segment → Allocation → Word → Place
place_of message r tag = record { segment = segment_of message r.id; ref = tag; pos = r.pos }

-- A reader follows the pointer to the object, for one word of the limit at most.
pub IsReached-IsFound :
    (before message : List Segment) (id ref amount k high : ℕ) (r : Allocation) (limit : ℕ)
    → (reached : IsReached before message id ref amount k high r) → k < 2
    → segment_length message r.id < 2 ^ 29
    → (left : ℕ) × (limit ≤ left)
      × IsFound message
          (segment_of message id)
          ref
          (place_of message r reached.linked.tag)
          (1 + limit)
          left
IsReached-IsFound before message id ref amount k high r limit reached kinds small =
    go reached.linked.from
  where
    go :
        ((r.id ≡ id) × (r.ref ≡ ref))
          ⊎ ((far : Word) × (get_word message id ref ≡ some far)
              × (kind far ≡ far_kind)
              × (is_double_far far ≡ false)
              × (far.high ≡ r.id)
              × (far_target (segment_length message r.id) far ≡ r.ref))
        → (left : ℕ) × (limit ≤ left)
          × IsFound message
              (segment_of message id)
              ref
              (place_of message r reached.linked.tag)
              (1 + limit)
              left
    go (inl (same_id, same_ref)) =
        let tag = reached.linked.tag in
        let there : get_word message id ref ≡ some tag =
          subst (λ i. get_word message i ref ≡ some tag) same_id
            (subst (λ p. get_word message r.id p ≡ some tag) same_ref reached.linked.tagged) in
        let (segment, word) = get_elem?-segment_of message id ref tag there in
        let kind_of = reached.linked.kind_of in
        let near : (kind tag == far_kind) ≡ false = ground (arith, kind_of) in
        let at : 8 * ref / 8 ≡ ref = omega arith in
        let goal : target (length (segment_of message id)) (8 * ref / 8) tag ≡ r.pos =
          ap (λ n. target n (8 * ref / 8) tag) (length-segment_of message id)
          ∙ ap (λ q. target (segment_length message id) q tag) at
          ∙ sym (ap (λ i. target (segment_length message i) ref tag) same_id)
          ∙ sym (ap (λ q. target (segment_length message r.id) q tag) same_ref)
          ∙ reached.linked.leads in
        (
          1 + limit,
          omega arith,
          record {
            word = tag;
            there = word;
            used = reached.used;
            found =
                follow_fars-near message (segment_of message id) tag _ (1 + limit) near
                ∙ ap
                    (λ q.
                      value (record { segment = segment_of message id; ref = tag; pos = q })
                        (1 + limit))
                    goal
                ∙ sym (
                    ap
                      (λ i.
                        value (record { segment = segment_of message i; ref = tag; pos = r.pos })
                          (1 + limit))
                      same_id);
          },
        )
    go (inr (far, there, is_far, single, leads, pad)) =
        let tag = reached.linked.tag in
        let (segment, word) = get_elem?-segment_of message id ref far there in
        let (next, padded) = get_elem?-segment_of message r.id r.ref tag reached.linked.tagged in
        let len = length-segment_of message r.id in
        let inside = get_word-lt message r.id r.ref tag reached.linked.tagged in
        let goal : target (length (segment_of message r.id)) r.ref tag ≡ r.pos =
          ap (λ n. target n r.ref tag) len ∙ reached.linked.leads in
        let nonzero : (far.low == 0) ≡ false = ground (arith, is_far) in
        (
          limit,
          omega arith,
          record {
            word = far;
            there = word;
            used = rw nonzero refl;
            found =
                follow_fars-pad message (segment_of message id) (segment_of message r.id) far tag _
                  r.ref limit is_far single (ap (get_elem? message) leads ∙ next) (omega arith)
                  (ap (λ n. far_target n far) len ∙ pad) (omega arith) padded
                ∙ ap
                    (λ q.
                      value (record { segment = segment_of message r.id; ref = tag; pos = q })
                        limit)
                    goal;
          },
        )

pub IsMade-IsFound :
    (a : BuilderArena) (id ref amount k high limit : ℕ) (r : Allocation)
    → (made : IsMade a id ref amount k high r) → k < 2
    → (left : ℕ) × (limit ≤ left)
      × IsFound
          (get_segments_for_output (finish high r).arena)
          (segment_of (get_segments_for_output (finish high r).arena) id)
          ref
          (place_of (get_segments_for_output (finish high r).arena) r made.reached.linked.tag)
          (1 + limit)
          left
IsMade-IsFound a id ref amount k high limit r made kinds =
    let most = segment_length-le r.id (finish high r).arena made.arena in
    IsReached-IsFound (get_segments_for_output a) (get_segments_for_output (finish high r).arena) id
      ref amount k high r limit made.reached kinds (omega arith)

-- The words of the object, in a row.
pub IsMade-zeros :
    (a : BuilderArena) (id ref amount k high : ℕ) (r : Allocation)
    → IsMade a id ref amount k high r
    → take amount (drop r.pos (segment_of (get_segments_for_output (finish high r).arena) r.id))
      ≡ replicate amount zero_word
IsMade-zeros a id ref amount k high r made =
    let message = get_segments_for_output (finish high r).arena in
    take-drop-replicate amount r.pos zero_word (segment_of message r.id)
      (λ n below. (get_elem?-segment_of message r.id (r.pos + n) zero_word (made.zeros n below)).1)
