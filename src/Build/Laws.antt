-- ===== src/Build/Laws.antt =====
-- The builder's arena gives out words that are free and zero.
use capnp_import.Common.{
  ℕ, ◌+◌, ◌≤◌, ◌≡◌, ◌⊎◌, max, [], ◌∷◌, ◌++◌, length, take, drop, replicate, get_elem?, All, Option,
  none, some, leb, refl, arith, Bool-cases, inl, inr, length-replicate,
}
use capnp_import.Build.{
  zero_word, max_segment_words, SegmentBuilder, BuilderArena, replace_at, allocate_in, allocate_new,
  allocate_from, allocate,
}
use capnp_import.Build.Lists.{
  get_elem?-replace_at, All-replace_at, All-get_elem?, get_elem?-end, replace_at-end, All-end,
}
use capnp_import.Build.Segments.{
  IsSegment, allocated-IsSegment, allocate_words-fits, allocate_words-full, allocate_segment-words,
  new_segment, new_segment-IsSegment, fits_size,
}

abbrev pub IsArena : BuilderArena → Type 0
IsArena a = All IsSegment a.segments × (a.message.next_size ≤ max_segment_words)

-- The segment of the id was there, with its allocated words up to the position, or it is new; the
-- other segments are as they were.
abbrev pub IsExtended : BuilderArena → ℕ → ℕ → SegmentBuilder → BuilderArena → Type 0
IsExtended a id pos s a' =
    ((get_elem? a.segments id ≡ some (record s { pos = pos }))
      × (a'.segments ≡ replace_at id s a.segments))
    ⊎ ((id ≡ length a.segments) × (pos ≡ 0) × (a'.segments ≡ a.segments ++ (s ∷ [])))

-- Behind an allocation the words from the position on are zero and allocated in their segment.
abbrev pub IsAllocated : ℕ → BuilderArena → ℕ × ℕ × BuilderArena → Type 0
IsAllocated amount a (id, pos, a') =
    IsArena a'
    × ((s : SegmentBuilder) × (get_elem? a'.segments id ≡ some s)
        × (s.pos ≡ pos + amount)
        × (take amount (drop pos s.words) ≡ replicate amount zero_word)
        × IsExtended a id pos s a')

allocate_in-fits :
    (amount id : ℕ) (a : BuilderArena) (s : SegmentBuilder)
    → get_elem? a.segments id ≡ some s
    → s.pos + amount ≤ length s.words
    → allocate_in amount id a
      ≡ some (
        id,
        s.pos,
        record a { segments = replace_at id (record s { pos = s.pos + amount }) a.segments },
      )
allocate_in-fits amount id a s here fits = rw (here, allocate_words-fits amount s fits) refl

-- The words that an allocation in a segment with space returns.
allocate_in-IsAllocated :
    (amount id : ℕ) (a : BuilderArena) (s : SegmentBuilder)
    → IsArena a
    → get_elem? a.segments id ≡ some s
    → s.pos + amount ≤ length s.words
    → (pos : ℕ) × (a' : BuilderArena) × (allocate_in amount id a ≡ some (id, pos, a'))
      × IsAllocated amount a (id, pos, a')
allocate_in-IsAllocated amount id a s (segments, small) here fits =
    let behind = record s { pos = s.pos + amount } in
    let (valid, zeros) =
      allocated-IsSegment amount s (All-get_elem? IsSegment id s a.segments segments here) fits in
    (
      s.pos,
      record a { segments = replace_at id behind a.segments },
      rw (here, allocate_words-fits amount s fits) refl,
      (
        (All-replace_at IsSegment id behind a.segments segments valid, small),
        (behind, get_elem?-replace_at id s behind a.segments here, refl, zeros, inl (here, refl)),
      ),
    )

-- A segment has the space for an allocation or not.
pub allocate_in-cases :
    (amount id : ℕ) (a : BuilderArena) (s : SegmentBuilder)
    → IsArena a
    → get_elem? a.segments id ≡ some s
    → ((pos : ℕ) × (a' : BuilderArena) × (allocate_in amount id a ≡ some (id, pos, a'))
        × IsAllocated amount a (id, pos, a'))
      ⊎ (allocate_in amount id a ≡ none)
allocate_in-cases amount id a s valid here =
    elim (Bool-cases (leb (s.pos + amount) (length s.words))) [
      | inl there ↦ inl (allocate_in-IsAllocated amount id a s valid here (ground (arith, there)))
      | inr full ↦
          let within = (All-get_elem? IsSegment id s a.segments valid.0 here).0 in
          inr (rw (here, allocate_words-full amount s (ground (arith, full)) within) refl)
    ]

allocate_new-IsAllocated :
    (amount : ℕ) (a : BuilderArena)
    → IsArena a
    → amount ≤ max_segment_words
    → (r : ℕ × ℕ × BuilderArena) × (allocate_new amount a ≡ some r) × IsAllocated amount a r
allocate_new-IsAllocated amount a (segments, small) fits =
    let size = max amount a.message.next_size in
    let (message, e, small') = allocate_segment-words amount a.message fits small in
    let len : length (replicate size zero_word) ≡ size = length-replicate size zero_word in
    let s : SegmentBuilder = new_segment size in
    let id = length a.segments in
    let fresh = new_segment-IsSegment size (omega arith) in
    let behind : SegmentBuilder = record s { pos = s.pos + amount } in
    let (valid, zeros) = allocated-IsSegment amount s fresh (omega arith) in
    let grown : BuilderArena = record {
      message = message;
      segments = a.segments ++ (s ∷ []);
      segment_with_space = some id;
      cap_table = a.cap_table;
    } in
    let placed = replace_at-end a.segments s behind in
    (
      (id, s.pos, record grown { segments = replace_at id behind (a.segments ++ (s ∷ [])) }),
      rw (e, fits_size amount a.message.next_size fits small)
          (allocate_in-fits amount id grown s (get_elem?-end a.segments s) (omega arith)),
      (
        (rw placed (All-end IsSegment a.segments behind segments valid), small'),
        (
          behind,
          get_elem?-replace_at id s behind (a.segments ++ (s ∷ [])) (get_elem?-end a.segments s),
          refl,
          zeros,
          inr (refl, refl, placed),
        ),
      ),
    )

pub Option-cases {ℓ} : {A : Type ℓ} (o : Option A) → ((a : A) × (o ≡ some a)) ⊎ (o ≡ none)
Option-cases (some a) = inl (a, refl)
Option-cases none = inr refl

allocate_from-IsAllocated :
    (amount : ℕ) (a : BuilderArena) (o : Option ℕ)
    → IsArena a
    → amount ≤ max_segment_words
    → (r : ℕ × ℕ × BuilderArena) × (allocate_from amount a o ≡ some r) × IsAllocated amount a r
allocate_from-IsAllocated amount a none valid fits = allocate_new-IsAllocated amount a valid fits
allocate_from-IsAllocated amount a (some id) valid fits =
    let (fresh, e, allocated) = allocate_new-IsAllocated amount a valid fits in
    elim (Option-cases (get_elem? a.segments id)) [
      | inr gone ↦ (fresh, rw gone e, allocated)
      | inl (s, here) ↦ elim (allocate_in-cases amount id a s valid here) [
        | inl (pos, a', e', allocated') ↦ ((id, pos, a'), rw e' refl, allocated')
        | inr full ↦ (fresh, rw full e, allocated)
      ]
    ]

-- A well-formed arena allocates every amount up to the largest segment: in the segment with space or
-- in a new one it returns words that are zero and free, behind those that are allocated there,
-- changes no other segment, and is well-formed again.
pub allocate-IsAllocated :
    (amount : ℕ) (a : BuilderArena)
    → IsArena a
    → amount ≤ max_segment_words
    → (r : ℕ × ℕ × BuilderArena) × (allocate amount a ≡ some r) × IsAllocated amount a r
unfolding allocate
allocate-IsAllocated amount a valid fits =
    allocate_from-IsAllocated amount a a.segment_with_space valid fits
