-- ===== src/Serialize/Stream/Laws.antt =====
-- The segments that a reader of a stream gives are those of the message.
use capnp_import.Common.{
  ℕ, zero, suc, ◌+◌, ◌-◌, ◌≤◌, ◌<◌, ◌≡◌, List, [], ◌∷◌, ◌++◌, length, take, drop, Bool, true, false,
  ◌&&◌, ltb, some, refl, sym, ap, ◌∙◌, arith, append_assoc, length-append, Bool-cases, inl, inr,
  leb-eq-false, ◌*◌, get_elem?, take-append,
}
use mathlib.Core.Option.{some-injective}
use capnp_import.Io.Input.{IsInputStream}
use capnp_import.Io.Input.Laws.{read-enough}
use capnp_import.Serialize.Stream.{
  Reader, sum, all_end, segment, segment_start, segment_end, get_segment,
}

drop-append-le : (n : ℕ) (xs ys : List ℕ) → n ≤ length xs → drop n (xs ++ ys) ≡ drop n xs ++ ys
drop-append-le zero xs ys h = refl
drop-append-le (suc n) [] ys h = absurd (omega arith)
drop-append-le (suc n) (x ∷ xs) ys h = drop-append-le n xs ys (omega arith)

-- What stands behind the bytes of a segment does not matter.
take-drop-append :
    (m n : ℕ) (xs ys : List ℕ) → m + n ≤ length xs → take n (drop m (xs ++ ys)) ≡ take n (drop m xs)
take-drop-append zero zero xs ys h = refl
take-drop-append zero (suc n) [] ys h = absurd (omega arith)
take-drop-append zero (suc n) (x ∷ xs) ys h =
    ap (λ l. x ∷ l) (take-drop-append zero n xs ys (omega arith))
take-drop-append (suc m) n [] ys h = absurd (omega arith)
take-drop-append (suc m) n (x ∷ xs) ys h = take-drop-append m n xs ys (omega arith)

sum-take-le : (id : ℕ) (ns : List ℕ) → sum (take id ns) ≤ sum (take (suc id) ns)
sum-take-le zero ns = omega arith
sum-take-le (suc id) [] = omega arith
sum-take-le (suc id) (n ∷ ns) = omega (arith, sum-take-le id ns)

sum-take-all : (id : ℕ) (ns : List ℕ) → sum (take id ns) ≤ sum ns
sum-take-all zero ns = omega arith
sum-take-all (suc id) [] = omega arith
sum-take-all (suc id) (n ∷ ns) = omega (arith, sum-take-all id ns)

behind_pos : (a b : Bool) → b ≡ false → (a && b) ≡ false
behind_pos a b h = ground (arith, h)

ahead_of_pos : (a b : Bool) → a ≡ true → b ≡ true → (a && b) ≡ true
ahead_of_pos a b h k = ground (arith, h, k)

-- Segments of as many words as the table says.
abbrev pub AreSegments : List ℕ → List (List ℕ) → Type 0
AreSegments [] [] = Unit
AreSegments [] (part ∷ parts) = ⊥
AreSegments (n ∷ sizes) [] = ⊥
AreSegments (n ∷ sizes) (part ∷ parts) = (length part ≡ 8 * n) × AreSegments sizes parts

-- The bytes of the segments, one behind the other.
abbrev pub concat : List (List ℕ) → List ℕ
concat [] = []
concat (part ∷ parts) = part ++ concat parts

length-concat :
    (sizes : List ℕ) (parts : List (List ℕ))
    → AreSegments sizes parts
    → length (concat parts) ≡ 8 * sum sizes
length-concat [] [] h = refl
length-concat [] (part ∷ parts) h = absurd h
length-concat (n ∷ sizes) [] h = absurd h
length-concat (n ∷ sizes) (part ∷ parts) (e, h) =
    omega (arith, length-append part (concat parts), length-concat sizes parts h)

get_elem?-lt :
    (id : ℕ) (sizes : List ℕ) (parts : List (List ℕ)) (part : List ℕ)
    → AreSegments sizes parts
    → get_elem? parts id ≡ some part
    → id < length sizes
get_elem?-lt id [] [] part h here = ground arith
get_elem?-lt id [] (q ∷ parts) part h here = absurd h
get_elem?-lt id (n ∷ sizes) [] part h here = absurd h
get_elem?-lt zero (n ∷ sizes) (q ∷ parts) part (e, h) here = omega arith
get_elem?-lt (suc id) (n ∷ sizes) (q ∷ parts) part (e, h) here =
    omega (arith, get_elem?-lt id sizes parts part h here)

drop-append_more : (k m : ℕ) (xs ys : List ℕ) → k ≡ length xs + m → drop k (xs ++ ys) ≡ drop m ys
drop-append_more k m [] ys e = ap (λ n. drop n ys) (omega arith)
drop-append_more zero m (x ∷ xs) ys e = absurd (omega arith)
drop-append_more (suc k) m (x ∷ xs) ys e = drop-append_more k m xs ys (omega arith)

-- A segment stands behind all those in front of it.
part-concat :
    (id : ℕ) (sizes : List ℕ) (parts : List (List ℕ)) (behind part : List ℕ)
    → AreSegments sizes parts
    → get_elem? parts id ≡ some part
    → take
        (8 * sum (take (suc id) sizes) - 8 * sum (take id sizes))
        (drop (8 * sum (take id sizes)) (concat parts ++ behind))
      ≡ part
part-concat id [] [] behind part h here = ground arith
part-concat id [] (q ∷ parts) behind part h here = absurd h
part-concat id (n ∷ sizes) [] behind part h here = absurd h
part-concat zero (n ∷ sizes) (q ∷ parts) behind part (e, h) here =
    let size : 8 * (n + 0) - 0 ≡ length q = omega arith in
    rw (append_assoc q (concat parts) behind)
      (rw size (take-append q (concat parts ++ behind) ∙ some-injective q part here))
part-concat (suc id) (n ∷ sizes) (q ∷ parts) behind part (e, h) here =
    let a = sum (take id sizes) in
    let b = sum (take (suc id) sizes) in
    let width : 8 * (n + b) - 8 * (n + a) ≡ 8 * b - 8 * a = omega arith in
    rw (append_assoc q (concat parts) behind) (
      rw (width, drop-append_more (8 * (n + a)) (8 * a) q (concat parts ++ behind) (omega arith))
        (part-concat id sizes parts behind part h here))

module _ {S : Type 0} (try_read : ℕ → ℕ → S → List ℕ × S) (remaining : S → List ℕ)
    (law : IsInputStream try_read remaining) where
  -- All bytes of the message and behind it.
  abbrev pub whole : Reader S → List ℕ
  whole r = r.space ++ remaining r.input

  -- Where a reader reads lazily and the stream has all bytes of the message, a segment is the bytes
  -- between its start and its end, and nothing behind the message is read.
  get_segment-segment :
      (id : ℕ) (r : Reader S)
      → r.is_lazy ≡ true
      → id < length r.sizes
      → all_end r ≤ length (whole r)
      → length r.space ≤ all_end r
      → (r' : Reader S) × (get_segment try_read id r ≡ some (segment try_read id r (whole r), r'))
        × (whole r' ≡ whole r)
        × (length r.space ≤ length r'.space)
        × (length r'.space ≤ all_end r)
        × (r'.sizes ≡ r.sizes)
        × (r'.is_lazy ≡ true)
  unfolding get_segment
  get_segment-segment id r lazy inside enough filled =
      let pos = length r.space in
      let above = sum-take-le id r.sizes in
      let below = sum-take-all (suc id) r.sizes in
      let known = leb-eq-false (length r.sizes) id inside in
      elim (Bool-cases (ltb pos (segment_end try_read id r))) [
        | inr here ↦ (
          r,
          rw (known, behind_pos r.is_lazy (ltb pos (segment_end try_read id r)) here)
              (ap (λ l. some (l, r))
                (sym (
                  take-drop-append (segment_start try_read id r)
                    (segment_end try_read id r - segment_start try_read id r) r.space
                    (remaining r.input) (ground (arith, here, above))))),
          refl,
          omega arith,
          filled,
          refl,
          lazy,
        )
        | inl ahead ↦
            let (bytes, s, found, order, most, least) =
              read-enough try_read remaining law (segment_end try_read id r - pos) (all_end r - pos)
                r.input (omega (arith, below))
                (omega (arith, below, enough, length-append r.space (remaining r.input))) in
            let same : whole r ≡ (r.space ++ bytes) ++ remaining s =
              ap (λ l. r.space ++ l) (sym order) ∙ sym (append_assoc r.space bytes (remaining s)) in
            (
              record r { input = s; space = r.space ++ bytes },
              rw (known, ahead_of_pos r.is_lazy (ltb pos (segment_end try_read id r)) lazy ahead)
                  (rw found (
                    ap (λ l. some (l, record r { input = s; space = r.space ++ bytes }))
                      (sym (
                          take-drop-append (segment_start try_read id r)
                            (segment_end try_read id r - segment_start try_read id r)
                            (r.space ++ bytes) (remaining s)
                            (ground (arith, ahead, above, most, length-append r.space bytes)))
                        ∙ ap (segment try_read id r) (sym same)))),
              sym same,
              omega (arith, length-append r.space bytes),
              omega (arith, length-append r.space bytes, least, most, filled, below),
              refl,
              lazy,
            )
      ]

  -- A lazy reader, over a stream that keeps its contract, of a message that consists of the segments
  -- `parts`, each as long as the table says, with any bytes behind them. Whatever of the message is
  -- read already, any segment that is asked for is given as it is, as much of the message as before
  -- or more is read, nothing behind its end is, and the bytes read and those left together stay the
  -- same.
  pub get_segment-whole :
      (id : ℕ) (r : Reader S) (parts : List (List ℕ)) (behind part : List ℕ)
      → r.is_lazy ≡ true
      → AreSegments r.sizes parts
      → whole r ≡ concat parts ++ behind
      → length r.space ≤ length (concat parts)
      → get_elem? parts id ≡ some part
      → (r' : Reader S) × (get_segment try_read id r ≡ some (part, r'))
        × (whole r' ≡ whole r)
        × (length r.space ≤ length r'.space)
        × (length r'.space ≤ length (concat parts))
        × (r'.sizes ≡ r.sizes)
        × (r'.is_lazy ≡ true)
  get_segment-whole id r parts behind part lazy sized message filled here =
      let ends = length-concat r.sizes parts sized in
      let (r', given, same, more, most, sizes, still) =
        get_segment-segment id r lazy (get_elem?-lt id r.sizes parts part sized here)
          (rw message (omega (arith, ends, length-append (concat parts) behind)))
          (omega (arith, ends, filled)) in
      let is_part : segment try_read id r (whole r) ≡ part =
        ap (segment try_read id r) message ∙ part-concat id r.sizes parts behind part sized here in
      (
        r',
        given ∙ ap (λ l. some (l, r')) is_part,
        same,
        more,
        omega (arith, ends, most),
        sizes,
        still,
      )
