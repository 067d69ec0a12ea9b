-- ===== src/Wire/Read/Fits.antt =====
-- The elements of a list that is read hold what the caller expects of them.
use capnp_import.Common.{
  ℕ, zero, suc, ◌⊎◌, ◌*◌, ◌≤◌, ◌≡◌, Bool, true, false, if◌then◌else◌, refl, arith, inl, inr,
}
use capnp_import.Serialize.{Word}
use capnp_import.Wire.Pointer.{data_size, ptr_count, data_bits_per_element, pointers_per_element}
use capnp_import.Wire.Read.{composite_fits, element_fits}

data_bits_per_element-le : (size : ℕ) → data_bits_per_element size ≤ 64
data_bits_per_element-le zero = omega arith
data_bits_per_element-le (suc zero) = omega arith
data_bits_per_element-le (suc (suc zero)) = omega arith
data_bits_per_element-le (suc (suc (suc zero))) = omega arith
data_bits_per_element-le (suc (suc (suc (suc zero)))) = omega arith
data_bits_per_element-le (suc (suc (suc (suc (suc zero))))) = omega arith
data_bits_per_element-le (suc (suc (suc (suc (suc (suc zero)))))) = omega arith
data_bits_per_element-le (suc (suc (suc (suc (suc (suc (suc zero))))))) = omega arith
data_bits_per_element-le (suc (suc (suc (suc (suc (suc (suc (suc size)))))))) = omega arith

composite_fits-data :
    (expected : ℕ) (tag : Word)
    → composite_fits expected tag ≡ true
    → (data_bits_per_element expected ≤ 64 * data_size tag)
      × (pointers_per_element expected ≤ ptr_count tag)
composite_fits-data zero tag fits = (omega arith, omega arith)
composite_fits-data (suc zero) tag fits = absurd (ground (arith, fits))
composite_fits-data (suc (suc zero)) tag fits = (ground (arith, fits), omega arith)
composite_fits-data (suc (suc (suc zero))) tag fits = (ground (arith, fits), omega arith)
composite_fits-data (suc (suc (suc (suc zero)))) tag fits = (ground (arith, fits), omega arith)
composite_fits-data (suc (suc (suc (suc (suc zero))))) tag fits =
    (ground (arith, fits), omega arith)
composite_fits-data (suc (suc (suc (suc (suc (suc zero)))))) tag fits =
    (omega arith, ground (arith, fits))
composite_fits-data (suc (suc (suc (suc (suc (suc (suc zero))))))) tag fits =
    (omega arith, omega arith)
composite_fits-data (suc (suc (suc (suc (suc (suc (suc (suc expected)))))))) tag fits =
    (omega arith, grind arith)

-- The elements of a list of the expected size, if it is checked, have its bits and pointers.
abbrev pub Serves : ℕ → Bool → ℕ → ℕ → Type 0
Serves expected check bits pointers =
    (check ≡ false)
    ⊎ ((data_bits_per_element expected ≤ bits) × (pointers_per_element expected ≤ pointers))

pub composite_fits-Serves :
    (expected : ℕ) (check : Bool) (tag : Word)
    → (if check then composite_fits expected tag else true) ≡ true
    → Serves expected check (64 * data_size tag) (ptr_count tag)
composite_fits-Serves expected true tag fits = inr (composite_fits-data expected tag fits)
composite_fits-Serves expected false tag fits = inl refl

pub element_fits-Serves :
    (expected : ℕ) (check : Bool) (size : ℕ)
    → (if check then element_fits expected size else true) ≡ true
    → Serves expected check (data_bits_per_element size) (pointers_per_element size)
element_fits-Serves expected true size fits = inr (ground (arith, fits), ground (arith, fits))
element_fits-Serves expected false size fits = inl refl
