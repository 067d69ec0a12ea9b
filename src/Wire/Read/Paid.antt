-- ===== src/Wire/Read/Paid.antt =====
-- Lists are paid for by the traversal limit, whatever their elements.
use capnp_import.Common.{ℕ, zero, suc, ◌+◌, ◌*◌, ◌≤◌, ◌<◌, ◌≡◌, ◌⊎◌, false, ◌==◌, arith, inl, inr}
use capnp_import.Wire.Pointer.{void_element, inline_composite_element}
use capnp_import.Wire.Size.{round_bits_up_to_words}
use capnp_import.Wire.Read.{step_bits}

times-le : (count step : ℕ) → 1 ≤ step → count ≤ count * step
times-le count step h = grind arith

pub composite_paid :
    (count size elements limit l2 l3 : ℕ)
    → count * size ≤ elements
    → l2 + (elements + 1) ≡ limit
    → (l3 ≤ l2) × (((size == 0) ≡ false) ⊎ (l3 + count ≡ l2))
    → count + 64 * l3 ≤ 64 * limit
composite_paid count size elements limit l2 l3 fit e (le, inr e') = omega arith
composite_paid count size elements limit l2 l3 fit e (le, inl some_words) =
    let positive : 1 ≤ size = ground (arith, some_words) in
    let most = times-le count size positive in omega arith

step_bits-positive :
    (size : ℕ)
    → (size == void_element) ≡ false
    → (size == inline_composite_element) ≡ false
    → size < 8
    → 1 ≤ step_bits size
step_bits-positive zero not_void not_composite h = absurd (ground (arith, not_void))
step_bits-positive (suc zero) not_void not_composite h = omega arith
step_bits-positive (suc (suc zero)) not_void not_composite h = omega arith
step_bits-positive (suc (suc (suc zero))) not_void not_composite h = omega arith
step_bits-positive (suc (suc (suc (suc zero)))) not_void not_composite h = omega arith
step_bits-positive (suc (suc (suc (suc (suc zero))))) not_void not_composite h = omega arith
step_bits-positive (suc (suc (suc (suc (suc (suc zero)))))) not_void not_composite h = omega arith
step_bits-positive (suc (suc (suc (suc (suc (suc (suc size))))))) not_void not_composite h =
    absurd (ground (arith, not_composite))

pub plain_paid :
    (count size limit l1 l2 : ℕ)
    → (size == inline_composite_element) ≡ false
    → size < 8
    → l1 + round_bits_up_to_words (count * step_bits size) ≡ limit
    → (l2 ≤ l1) × (((size == void_element) ≡ false) ⊎ (l2 + count ≡ l1))
    → count + 64 * l2 ≤ 64 * limit
plain_paid count size limit l1 l2 not_composite h e (le, inr e') = omega arith
plain_paid count size limit l1 l2 not_composite h e (le, inl not_void) =
    let positive = step_bits-positive size not_void not_composite h in
    let most = times-le count (step_bits size) positive in omega arith
