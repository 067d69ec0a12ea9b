-- ===== src/Wire.antt =====
-- The wire format: pointers between the objects of a message, as capnproto/c++/src/capnp/layout.c++
-- and arena.h read them. Here: reads that may fail, with the traversal limit as their state.
pub mod Pointer
pub mod Segment
pub mod Fars
pub mod Size
pub mod Read
pub mod Holds
use capnp_import.Common.{ℕ, ◌-◌, List, Bool, true, false, ltb, if◌then◌else◌}

-- The exceptions of the code.
pub data Error : Type 0 where
  read_limit no_root unknown_segment segment_too_large far_out_of_bounds bad_pad too_deep not_struct
        not_list struct_out_of_bounds list_out_of_bounds bad_tag elements_overrun incompatible
        unexpected_far unknown_pointer text_out_of_bounds not_bytes not_terminated :
      Error

-- `fault` is no result of the code: an access outside of a segment.
pub data Outcome {ℓ} (A : Type ℓ) : Type ℓ where
  value : A → ℕ → Outcome A
  error : Error → Outcome A
  fault : Outcome A

-- A read, from the limit that is left to its result and the limit behind it.
abbrev pub Reads {ℓ} : Type ℓ → Type ℓ
Reads A = ℕ → Outcome A

abbrev pub then_do {ℓ κ} : {A : Type ℓ} {B : Type κ} → Outcome A → (A → Reads B) → Outcome B
then_do (value a limit) f = f a limit
then_do (error e) f = error e
then_do fault f = fault

infixl 5 ◌>>=◌ ◌>>◌
abbrev pub ◌>>=◌ {ℓ κ} : {A : Type ℓ} {B : Type κ} → Reads A → (A → Reads B) → Reads B
◌>>=◌ m f limit = then_do (m limit) f

abbrev pub ◌>>◌ {ℓ} : {B : Type ℓ} → Reads (Unit {0}) → Reads B → Reads B
m >> k = m >>= λ _. k

abbrev pub pure {ℓ} : {A : Type ℓ} → A → Reads A
pure a limit = value a limit

abbrev pub fail {ℓ} : {A : Type ℓ} → Error → Reads A
fail e limit = error e

-- `KJ_REQUIRE`
abbrev pub require : Bool → Error → Reads (Unit {0})
require true e limit = value tt limit
require false e limit = error e
