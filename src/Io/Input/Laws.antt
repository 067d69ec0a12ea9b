-- ===== src/Io/Input/Laws.antt =====
-- A buffered stream gives the bytes of the inner stream, in order, whatever the inner one hands out.
use capnp_import.Common.{
  ℕ, zero, suc, ◌-◌, ◌≤◌, ◌<◌, ◌≡◌, min, List, [], ◌∷◌, ◌++◌, length, take, drop, Bool, ltb, leb,
  if◌then◌else◌, some, refl, sym, ◌∙◌, ap, arith, Bool-cases, inl, inr, length-append, length-take,
  append_assoc, append-nil, take-append-drop, leb-eq-true, ltb-eq-true,
}
use capnp_import.Io.Input.{
  IsInputStream, block_size, Buffered, read, read_all_loop, read_all, buffered_try_read,
}

module _ {S : Type 0} (try_read : ℕ → ℕ → S → List ℕ × S) (remaining : S → List ℕ)
    (law : IsInputStream try_read remaining) where
  abbrev pub pending : Buffered S → List ℕ
  pending w = w.available ++ remaining w.inner

  -- A read for which there are enough bytes.
  pub read-enough :
      (min_bytes max_bytes : ℕ) (s : S)
      → min_bytes ≤ max_bytes
      → min_bytes ≤ length (remaining s)
      → (bytes : List ℕ) × (s' : S) × (read try_read min_bytes max_bytes s ≡ some (bytes, s'))
        × (bytes ++ remaining s' ≡ remaining s)
        × (min_bytes ≤ length bytes)
        × (length bytes ≤ max_bytes)
  unfolding read
  read-enough min_bytes max_bytes s h e =
      let bytes = (try_read min_bytes max_bytes s).0 in
      let s' = (try_read min_bytes max_bytes s).1 in
      let order = law.in_order min_bytes max_bytes s in
      let enough : min_bytes ≤ length bytes = elim (law.at_least min_bytes max_bytes s h) [
        | inl n ↦ n
        | inr done ↦
            omega (arith, e, ap length order, length-append bytes (remaining s'), ap length done)
      ] in
      (
        bytes,
        s',
        rw (leb-eq-true min_bytes (length bytes) enough) refl,
        order,
        enough,
        law.at_most min_bytes max_bytes s h,
      )

  -- Where the inner stream keeps its contract, and it and the buffer together still have the least
  -- number of bytes asked for, a read gives the next bytes in order, no fewer than that and no more
  -- than the most asked for, and leaves the rest.
  pub buffered_try_read-enough :
      (min_bytes max_bytes : ℕ) (w : Buffered S)
      → min_bytes ≤ max_bytes
      → min_bytes ≤ length (pending w)
      → (bytes : List ℕ) × (w' : Buffered S) × (buffered_try_read try_read min_bytes max_bytes w
          ≡ some (bytes, w'))
        × (bytes ++ pending w' ≡ pending w)
        × (min_bytes ≤ length bytes)
        × (length bytes ≤ max_bytes)
  unfolding buffered_try_read read
  buffered_try_read-enough min_bytes max_bytes w h e =
      let first = length w.available in
      elim (Bool-cases (leb min_bytes first)) [
        | inl full ↦ (
          take (min first max_bytes) w.available,
          record w { available = drop (min first max_bytes) w.available },
          rw full refl,
          sym (append_assoc (take (min first max_bytes) w.available) _ (remaining w.inner))
              ∙ ap (λ l. l ++ remaining w.inner)
                  (take-append-drop (min first max_bytes) w.available),
          ground (arith, length-take (min first max_bytes) w.available),
          ground (arith, length-take (min first max_bytes) w.available),
        )
        | inr short ↦ elim (Bool-cases (leb (max_bytes - first) w.size)) [
          | inl small ↦
              let (bytes, s', found, order, enough, most) =
                read-enough (min_bytes - first) w.size w.inner (ground (arith, small))
                  (omega (arith, e, length-append w.available (remaining w.inner))) in
              let n = min (length bytes) (max_bytes - first) in
              (
                w.available ++ take n bytes,
                record w { inner = s'; available = drop n bytes },
                rw (short, small) (rw found refl),
                append_assoc w.available (take n bytes) (drop n bytes ++ remaining s')
                    ∙ ap (λ l. w.available ++ l)
                        (sym (append_assoc (take n bytes) (drop n bytes) (remaining s'))
                          ∙ ap (λ l. l ++ remaining s') (take-append-drop n bytes)
                          ∙ order),
                ground (
                  arith,
                  short,
                  enough,
                  length-append w.available (take n bytes),
                  length-take n bytes,
                ),
                ground (
                  arith,
                  short,
                  most,
                  length-append w.available (take n bytes),
                  length-take n bytes,
                ),
              )
          | inr large ↦
              let (bytes, s', found, order, enough, most) =
                read-enough (min_bytes - first) (max_bytes - first) w.inner (omega arith)
                  (omega (arith, e, length-append w.available (remaining w.inner))) in
              (
                w.available ++ bytes,
                record w { inner = s'; available = [] },
                rw (short, large) (rw found refl),
                append_assoc w.available bytes (remaining s') ∙ ap (λ l. w.available ++ l) order,
                omega (arith, enough, length-append w.available bytes),
                ground (arith, short, most, length-append w.available bytes),
              )
        ]
      ]

  -- The rounds of `readAll`, where the limit is larger than the input.
  read_all_loop-enough :
      (fuel limit : ℕ) (end : List ℕ) (s : S)
      → length (remaining s) < limit
      → limit < fuel
      → read_all_loop try_read fuel limit end s ≡ some (remaining s ++ end)
  unfolding read_all_loop
  read_all_loop-enough zero limit end s h f = absurd (omega arith)
  read_all_loop-enough (suc fuel) limit end s h f =
      let size = min block_size limit in
      let part = (try_read size size s).0 in
      let s' = (try_read size size s).1 in
      let order = law.in_order size size s in
      let long = ap length order ∙ refl in
      let sum = length-append part (remaining s') in
      elim (Bool-cases (ltb (length part) size)) [
        | inl last ↦
            let done : remaining s' ≡ [] = elim (law.at_least size size s (omega arith)) [
              | inl n ↦ absurd (ground (arith, last, n))
              | inr d ↦ d
            ] in
            rw (ltb-eq-true 0 limit (omega arith), last)
              (ap (λ l. some (l ++ end))
                (sym (append-nil part) ∙ ap (λ l. part ++ l) (sym done) ∙ order))
        | inr more ↦
            let most = law.at_most size size s (omega arith) in
            let rest =
              read_all_loop-enough fuel (limit - length part) end s' (omega (arith, long, sum))
                (ground (arith, more)) in
            rw (ltb-eq-true 0 limit (omega arith), more)
              (rw rest (
                ap (λ l. some l)
                  (sym (append_assoc part (remaining s') end) ∙ ap (λ l. l ++ end) order)))
      ]

  -- `readAll` of a stream that keeps its contract and has fewer bytes than the limit returns them
  -- all, with a NUL if asked for.
  pub read_all-enough :
      (limit : ℕ) (nul_terminate : Bool) (s : S)
      → length (remaining s) < limit
      → read_all try_read limit nul_terminate s
        ≡ some (remaining s ++ (if nul_terminate then 0 ∷ [] else []))
  unfolding read_all
  read_all-enough limit nul_terminate s h =
      read_all_loop-enough (suc limit) limit (if nul_terminate then 0 ∷ [] else []) s h
        (omega arith)
