-- ===== src/Io/Input/Array.antt =====
-- `ArrayInputStream` of capnproto/c++/src/kj/io.c++ as an `InputStream`.
use capnp_import.Common.{
  ℕ, ◌≤◌, ◌≡◌, min, List, length, drop, zero, suc, [], ◌∷◌, refl, arith, inl, inr, length-take,
  take-append-drop, Bool-cases, leb,
}
use capnp_import.Io.Input.{IsInputStream, array_try_read}

drop_all : (n : ℕ) (xs : List ℕ) → length xs ≤ n → drop n xs ≡ []
drop_all zero [] h = refl
drop_all zero (x ∷ xs) h = absurd (omega arith)
drop_all (suc n) [] h = refl
drop_all (suc n) (x ∷ xs) h = drop_all n xs (omega arith)

-- An `ArrayInputStream` keeps the contract of `tryRead`: it gives the next bytes of its array, at
-- most as many as are asked for, and fewer than the least number at the end of the array only.
pub array_try_read-IsInputStream : IsInputStream array_try_read (λ array. array)
unfolding array_try_read
array_try_read-IsInputStream = record {
  in_order = λ min_bytes max_bytes s. take-append-drop (min max_bytes (length s)) s;
  at_most = λ min_bytes max_bytes s h. omega (arith, length-take (min max_bytes (length s)) s);
  at_least = λ min_bytes max_bytes s h. elim (Bool-cases (leb max_bytes (length s))) [
    | inl e ↦ inl (ground (arith, e, length-take (min max_bytes (length s)) s))
    | inr e ↦ inr (drop_all (min max_bytes (length s)) s (ground (arith, e)))
  ];
}
