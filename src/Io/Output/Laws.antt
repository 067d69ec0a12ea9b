-- ===== src/Io/Output/Laws.antt =====
-- A buffered stream gives the inner stream all bytes, in order.
use capnp_import.Common.{
  ℕ, ◌-◌, ◌≤◌, ◌≡◌, List, [], ◌∷◌, ◌++◌, length, leb, refl, sym, ◌∙◌, ap, arith, Bool-cases, inl,
  inr, length-append, length-drop, append_assoc, append-nil, take-append-drop,
}
use capnp_import.Io.Output.{Buffered, flush, write_copy, write_pieces}

abbrev pub concat : List (List ℕ) → List ℕ
concat [] = []
concat (piece ∷ pieces) = piece ++ concat pieces

abbrev flat : Buffered → List ℕ
flat o = o.written ++ o.buffer

write_copy-flat :
    (src : List ℕ) (o : Buffered)
    → length o.buffer ≤ o.size
    → (flat (write_copy src o) ≡ flat o ++ src)
      × (length (write_copy src o).buffer ≤ (write_copy src o).size)
unfolding write_copy
write_copy-flat src o h = elim (Bool-cases (leb (length src) (o.size - length o.buffer))) [
  | inl e ↦
      rw e (sym (append_assoc o.written o.buffer src), ground (arith, length-append o.buffer src))
  | inr e ↦ elim (Bool-cases (leb (length src) o.size)) [
    | inl f ↦
        rw (e, f)
          (
            append_assoc o.written _ _
                ∙ ap (λ l. o.written ++ l)
                    (append_assoc o.buffer _ _
                      ∙ ap (λ l. o.buffer ++ l) (take-append-drop (o.size - length o.buffer) src))
                ∙ sym (append_assoc o.written o.buffer src),
            ground (arith, length-drop (o.size - length o.buffer) src),
          )
    | inr f ↦ rw (e, f) (append-nil _, ground arith)
  ]
]

flush-flat : (o : Buffered) → ((flush o).written ≡ flat o) × ((flush o).buffer ≡ [])
unfolding flush
flush-flat o = go o.written o.buffer o.size
  where
    go :
        (written buffer : List ℕ) (size : ℕ)
        → ((flush (record { written = written; buffer = buffer; size = size })).written
            ≡ written ++ buffer)
          × ((flush (record { written = written; buffer = buffer; size = size })).buffer ≡ [])
    go written [] size = (sym (append-nil written), refl)
    go written (b ∷ buffer) size = ground arith

write_pieces-flat :
    (pieces : List (List ℕ)) (o : Buffered)
    → length o.buffer ≤ o.size
    → (flat (write_pieces pieces o) ≡ flat o ++ concat pieces)
      × (length (write_pieces pieces o).buffer ≤ (write_pieces pieces o).size)
unfolding write_pieces
write_pieces-flat [] o h = (sym (append-nil _), h)
write_pieces-flat (piece ∷ pieces) o h =
    let (one, fits) = write_copy-flat piece o h in
    let (more, fits') = write_pieces-flat pieces (write_copy piece o) fits in
    (more ∙ ap (λ l. l ++ concat pieces) one ∙ append_assoc (flat o) piece (concat pieces), fits')

-- Writing pieces never fills the buffer beyond its size, and when it is flushed, the inner stream has
-- got all that was written before and then the pieces, in order, and the buffer is empty.
pub flush-write_pieces :
    (pieces : List (List ℕ)) (o : Buffered)
    → length o.buffer ≤ o.size
    → (length (write_pieces pieces o).buffer ≤ (write_pieces pieces o).size)
      × ((flush (write_pieces pieces o)).written ≡ (o.written ++ o.buffer) ++ concat pieces)
      × ((flush (write_pieces pieces o)).buffer ≡ [])
flush-write_pieces pieces o h =
    let (all, fits) = write_pieces-flat pieces o h in
    let (out, empty) = flush-flat (write_pieces pieces o) in (fits, out ∙ all, empty)
