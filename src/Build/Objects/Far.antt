-- ===== src/Build/Objects/Far.antt =====
-- An object behind a landing pad.
use capnp_import.Common.{
  ℕ, ◌+◌, ◌%◌, ◌^◌, ◌≤◌, ◌<◌, ◌≡◌, ◌≢◌, ◌⊎◌, List, length, replicate, false, ◌==◌, some, refl, sym,
  ap, ◌∙◌, arith, Bool-cases, inl, inr, length-replicate,
}
use capnp_import.Serialize.{Word, Segment}
use capnp_import.Wire.Pointer.{set_kind_and_target, set_far}
use capnp_import.Wire.Pointer.Laws.{target-set_kind_and_target, far_target-set_far}
use capnp_import.Build.{zero_word, BuilderArena}
use capnp_import.Build.Output.{extend}
use capnp_import.Build.Memory.{get_word, poke, segment_length}
use capnp_import.Build.Memory.Laws.{
  get_word-poke, get_word-poke_other, segment_length-poke, get_word-lt, get_word-extend,
  get_word-extend_added, segment_length-extend, get_elem?-replicate,
}
use capnp_import.Build.Objects.Placed.{IsLinked, IsFresh, IsKept}

-- In a message with a far pointer, and two stores into its landing pad.
module _ (before : List Segment) (id ref amount k high id' pos : ℕ) (w : Word)
    (here : get_word before id ref ≡ some w) (end : segment_length before id' ≡ pos)
    (among : id' ≤ length before) (small : pos + (amount + 1) < 2 ^ 29) (kinds : k < 4)
    (known : id' < 2 ^ 32) where
  abbrev pub grown : List Segment
  grown = extend id' (replicate (amount + 1) zero_word) before

  abbrev far_word : Word
  far_word = record { low = set_far false pos; high = id' % 2 ^ 32 }

  abbrev pad_word : Word
  pad_word = record { low = set_kind_and_target k pos (pos + 1); high = high }

  abbrev linking : List Segment
  linking = poke id ref (λ _. far_word) grown

  abbrev padded : List Segment
  padded = poke id' pos (λ w. record w { low = set_kind_and_target k pos (pos + 1) }) linking

  abbrev pub far : List Segment
  far = poke id' pos (λ w. record w { high = high }) padded

  -- The pointer is not in the new words.
  apart : (i : ℕ) → (id' ≢ id) ⊎ (pos + i ≢ ref)
  apart i = elim (Bool-cases (id' == id)) [
    | inr e ↦ inl (λ same. absurd (ground (arith, e, same)))
    | inl e ↦
        let same : id' ≡ id = ground (arith, e) in
        let below = get_word-lt before id ref w here in
        let there : segment_length before id ≡ pos = ap (segment_length before) (sym same) ∙ end in
        inr (λ over. absurd (omega arith))
  ]

  apart_ref : (id ≢ id') ⊎ (ref ≢ pos)
  apart_ref = elim (apart 0) [ inl f ↦ inl (λ e. f (sym e)) | inr f ↦ inr (λ e. f (omega arith)) ]

  added : (i : ℕ) → i < amount + 1 → get_word linking id' (pos + i) ≡ some zero_word
  added i h =
      get_word-poke_other id' (pos + i) id ref (λ _. far_word) grown (apart i)
      ∙ ap (λ p. get_word grown id' (p + i)) (sym end)
      ∙ get_word-extend_added before id' i (replicate (amount + 1) zero_word) among
      ∙ get_elem?-replicate (amount + 1) i zero_word h

  pub pad_free : get_word linking id' pos ≡ some zero_word
  pad_free =
      let e : pos + 0 ≡ pos = omega arith in
      ap (get_word linking id') (sym e) ∙ added 0 (omega arith)

  -- The landing pad is not among the old words.
  apart_old : (i p : ℕ) (x : Word) → get_word before i p ≡ some x → (i ≢ id') ⊎ (p ≢ pos)
  apart_old i p x there = elim (Bool-cases (i == id')) [
    | inr e ↦ inl (λ same. absurd (ground (arith, e, same)))
    | inl e ↦
        let same : i ≡ id' = ground (arith, e) in
        let below = get_word-lt before i p x there in
        let length_of : segment_length before i ≡ pos = ap (segment_length before) same ∙ end in
        inr (λ over. absurd (omega arith))
  ]

  far_others : (i p : ℕ) → (i ≢ id') ⊎ (p ≢ pos) → get_word far i p ≡ get_word linking i p
  far_others i p h =
      get_word-poke_other i p id' pos (λ w. record w { high = high }) padded h
      ∙ get_word-poke_other i p id' pos
          (λ w. record w { low = set_kind_and_target k pos (pos + 1) }) linking h

  far_tag : get_word far id' pos ≡ some pad_word
  far_tag =
      let e : pos + 0 ≡ pos = omega arith in
      get_word-poke id' pos (λ w. record w { high = high })
        (record zero_word { low = set_kind_and_target k pos (pos + 1) }) padded
        (get_word-poke id' pos (λ w. record w { low = set_kind_and_target k pos (pos + 1) })
          zero_word linking (ap (get_word linking id') (sym e) ∙ added 0 (omega arith)))

  far_pointer : get_word far id ref ≡ some far_word
  far_pointer =
      far_others id ref apart_ref
      ∙ get_word-poke id ref (λ _. far_word) w grown
          (get_word-extend before id ref id' (replicate (amount + 1) zero_word) w here)

  far_length : segment_length far id' ≡ pos + (amount + 1)
  far_length =
      let len = length-replicate (amount + 1) zero_word in
      let e : segment_length before id' + length (replicate (amount + 1) zero_word)
          ≡ pos + (amount + 1) =
        omega arith in
      segment_length-poke id' id' pos (λ w. record w { high = high }) padded
      ∙ segment_length-poke id' id' pos
          (λ w. record w { low = set_kind_and_target k pos (pos + 1) }) linking
      ∙ segment_length-poke id' id ref (λ _. far_word) grown
      ∙ segment_length-extend before id' (replicate (amount + 1) zero_word) among
      ∙ e

  pub far-IsLinked :
      (a : BuilderArena)
      → IsLinked far id ref k high (record { id = id'; ref = pos; pos = pos + 1; arena = a })
  far-IsLinked a =
      let len = far_length in
      let (kind_of, leads) =
        target-set_kind_and_target (segment_length far id') pos (pos + 1) k high (omega arith)
          (omega arith) (omega arith) kinds in
      let (far_kind_of, single, far_leads) =
        far_target-set_far (segment_length far id') pos (id' % 2 ^ 32) false (omega arith)
          (omega arith) in
      record {
        tag = pad_word;
        tagged = far_tag;
        kind_of = kind_of;
        sizes = refl;
        leads = leads;
        from = inr (far_word, far_pointer, far_kind_of, single, omega arith, far_leads);
      }

  pub far-IsFresh :
      (a : BuilderArena)
      → IsFresh before far amount (record { id = id'; ref = pos; pos = pos + 1; arena = a })
  far-IsFresh a =
      let len = far_length in
      record {
        fresh = omega arith;
        end = omega arith;
        zeros = λ i h.
            let e : pos + 1 + i ≡ pos + (i + 1) = omega arith in
            far_others id' (pos + 1 + i) (inr (λ e. absurd (omega arith)))
            ∙ ap (get_word linking id') e
            ∙ added (i + 1) (omega arith);
      }

  pub far-IsKept : IsKept before far id ref
  far-IsKept i p x there h =
      far_others i p (apart_old i p x there)
      ∙ get_word-poke_other i p id ref (λ _. far_word) grown h
      ∙ get_word-extend before i p id' (replicate (amount + 1) zero_word) x there
