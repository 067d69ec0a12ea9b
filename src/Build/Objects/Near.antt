-- ===== src/Build/Objects/Near.antt =====
-- An object in the segment of its pointer.
use capnp_import.Common.{
  ℕ, ◌+◌, ◌^◌, ◌≤◌, ◌<◌, ◌≡◌, ◌≢◌, ◌⊎◌, List, length, replicate, some, refl, sym, ap, ◌∙◌, arith,
  inl, inr, length-replicate,
}
use capnp_import.Serialize.{Word, Segment}
use capnp_import.Wire.Pointer.{set_kind_and_target}
use capnp_import.Wire.Pointer.Laws.{target-set_kind_and_target}
use capnp_import.Build.{zero_word, BuilderArena}
use capnp_import.Build.Output.{extend}
use capnp_import.Build.Memory.{get_word, poke, segment_length}
use capnp_import.Build.Memory.Laws.{
  get_word-poke, get_word-poke_other, segment_length-poke, get_word-lt, get_word-extend,
  get_word-extend_added, segment_length-extend, get_elem?-replicate,
}
use capnp_import.Build.Objects.Placed.{IsLinked, IsFresh, IsKept}

-- In a message with two stores into one word.
module _ (before : List Segment) (id ref amount k high pos : ℕ) (w : Word)
    (here : get_word before id ref ≡ some w) (end : segment_length before id ≡ pos)
    (among : id ≤ length before) (small : pos + amount < 2 ^ 29) (kinds : k < 4) where
  abbrev grown : List Segment
  grown = extend id (replicate amount zero_word) before

  abbrev with_low : Word
  with_low = record w { low = set_kind_and_target k ref pos }

  abbrev pub near : List Segment
  near =
      poke id ref (λ w. record w { high = high })
        (poke id ref (λ w. record w { low = set_kind_and_target k ref pos }) grown)

  near_tag :
      get_word near id ref ≡ some (record { low = set_kind_and_target k ref pos; high = high })
  near_tag =
      get_word-poke id ref (λ w. record w { high = high }) with_low
        (poke id ref (λ w. record w { low = set_kind_and_target k ref pos }) grown)
        (get_word-poke id ref (λ w. record w { low = set_kind_and_target k ref pos }) w grown
          (get_word-extend before id ref id (replicate amount zero_word) w here))

  near_others : (i p : ℕ) → (i ≢ id) ⊎ (p ≢ ref) → get_word near i p ≡ get_word grown i p
  near_others i p h =
      get_word-poke_other i p id ref (λ w. record w { high = high })
        (poke id ref (λ w. record w { low = set_kind_and_target k ref pos }) grown) h
      ∙ get_word-poke_other i p id ref (λ w. record w { low = set_kind_and_target k ref pos }) grown
          h

  near_length : segment_length near id ≡ pos + amount
  near_length =
      let len = length-replicate amount zero_word in
      let e : segment_length before id + length (replicate amount zero_word) ≡ pos + amount =
        omega arith in
      segment_length-poke id id ref (λ w. record w { high = high })
        (poke id ref (λ w. record w { low = set_kind_and_target k ref pos }) grown)
      ∙ segment_length-poke id id ref (λ w. record w { low = set_kind_and_target k ref pos }) grown
      ∙ segment_length-extend before id (replicate amount zero_word) among
      ∙ e

  pub near-IsLinked :
      (a : BuilderArena)
      → IsLinked near id ref k high (record { id = id; ref = ref; pos = pos; arena = a })
  near-IsLinked a =
      let below = get_word-lt before id ref w here in
      let len = near_length in
      let (kind_of, leads) =
        target-set_kind_and_target (segment_length near id) ref pos k high (omega arith)
          (omega arith) (omega arith) kinds in
      record {
        tag = record { low = set_kind_and_target k ref pos; high = high };
        tagged = near_tag;
        kind_of = kind_of;
        sizes = refl;
        leads = leads;
        from = inl (refl, refl);
      }

  pub near-IsFresh :
      (a : BuilderArena)
      → IsFresh before near amount (record { id = id; ref = ref; pos = pos; arena = a })
  near-IsFresh a =
      let below = get_word-lt before id ref w here in
      record {
        fresh = omega arith;
        end = near_length;
        zeros = λ i h.
            near_others id (pos + i) (inr (λ e. absurd (omega arith)))
            ∙ ap (λ p. get_word grown id (p + i)) (sym end)
            ∙ get_word-extend_added before id i (replicate amount zero_word) among
            ∙ get_elem?-replicate amount i zero_word h;
      }

  pub near-IsKept : IsKept before near id ref
  near-IsKept i p x there h =
      near_others i p h ∙ get_word-extend before i p id (replicate amount zero_word) x there
