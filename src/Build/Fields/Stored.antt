-- ===== src/Build/Fields/Stored.antt =====
-- Numbers that are stored into a message, as they are loaded.
use capnp_import.Common.{
  ℕ, zero, suc, ◌+◌, ◌*◌, ◌/◌, ◌^◌, ◌≤◌, ◌<◌, ◌≡◌, List, [], ◌∷◌, length, get_elem?, All, some,
  refl, sym, ap, ◌∙◌, subst, arith,
}
use capnp_import.Serialize.{Segment}
use capnp_import.Wire.{value}
use capnp_import.Wire.Read.Bytes.{load_value}
use capnp_import.Build.Memory.{segment_length, segment_of}
use capnp_import.Build.Copy.Laws.{get_byte, poke_bytes, get_byte-poke_bytes, load_byte-get_byte}
use capnp_import.Build.Fields.{value_bytes}

abbrev value_of : List ℕ → ℕ
value_of [] = 0
value_of (b ∷ bytes) = b + 2 ^ 8 * value_of bytes

pub length-value_bytes : (size v : ℕ) → length (value_bytes size v) ≡ size
length-value_bytes zero v = refl
length-value_bytes (suc size) v = ap suc (length-value_bytes size (v / 2 ^ 8))

pub value_bytes-All : (size v : ℕ) → All (λ b. b < 2 ^ 8) (value_bytes size v)
value_bytes-All zero v = tt
value_bytes-All (suc size) v = (omega arith, value_bytes-All size (v / 2 ^ 8))

value_of-value_bytes : (size v : ℕ) → v < 256 ^ size → value_of (value_bytes size v) ≡ v
value_of-value_bytes zero v h = let one : 256 ^ 0 ≡ 1 = refl in omega arith
value_of-value_bytes (suc size) v h =
    let more : 256 ^ suc size ≡ 2 ^ 8 * 256 ^ size = grind arith in
    let rest = value_of-value_bytes size (v / 2 ^ 8) (omega arith) in omega arith

load_value-get_byte :
    (message : List Segment) (id address limit : ℕ) (bytes : List ℕ)
    → ((i b : ℕ) → get_elem? bytes i ≡ some b → get_byte message id (address + i) ≡ some b)
    → load_value (segment_of message id) (length bytes) address limit ≡ value (value_of bytes) limit
unfolding load_value
load_value-get_byte message id address limit [] each = refl
load_value-get_byte message id address limit (b ∷ bytes) each =
    let first : address + 0 ≡ address = omega arith in
    let here = ap (get_byte message id) (sym first) ∙ each 0 b refl in
    rw
      (
        load_byte-get_byte message id address limit b here,
        load_value-get_byte message id (address + 1) limit bytes (λ i c h.
            let later : address + 1 + i ≡ address + suc i = omega arith in
            ap (get_byte message id) later ∙ each (suc i) c h),
      )
      refl

-- The number that was stored.
pub load_value-poke_bytes :
    (message : List Segment) (id address size v limit : ℕ)
    → v < 256 ^ size
    → address + size ≤ 8 * segment_length message id
    → load_value
        (segment_of (poke_bytes id address (value_bytes size v) message) id)
        size
        address
        limit
      ≡ value v limit
load_value-poke_bytes message id address size v limit fits inside =
    let len = length-value_bytes size v in
    let after = poke_bytes id address (value_bytes size v) message in
    sym (ap (λ n. load_value (segment_of after id) n address limit) len)
    ∙ load_value-get_byte after id address limit (value_bytes size v) (λ i b h.
      get_byte-poke_bytes message id address (value_bytes size v) i b (value_bytes-All size v)
        (omega arith) h)
    ∙ ap (λ n. value n limit) (value_of-value_bytes size v fits)

-- Equal bytes are loaded as equal numbers, inside of the segment.
pub load_value_same :
    (before after : List Segment) (id size address limit : ℕ)
    → ((i : ℕ)
        → i < size
        → (b : ℕ) × (get_byte before id (address + i) ≡ some b)
          × (get_byte after id (address + i) ≡ some b))
    → load_value (segment_of after id) size address limit
      ≡ load_value (segment_of before id) size address limit
unfolding load_value
load_value_same before after id zero address limit each = refl
load_value_same before after id (suc size) address limit each =
    let first : address + 0 ≡ address = omega arith in
    let (b, old, new) = each 0 (omega arith) in
    let old' = ap (get_byte before id) (sym first) ∙ old in
    let new' = ap (get_byte after id) (sym first) ∙ new in
    let rest = load_value_same before after id size (address + 1) limit (λ i h.
      let later : address + suc i ≡ address + 1 + i = omega arith in
      subst (λ p. (b : ℕ) × (get_byte before id p ≡ some b) × (get_byte after id p ≡ some b)) later
        (each (suc i) (omega arith))) in
    rw
      (
        load_byte-get_byte before id address limit b old',
        load_byte-get_byte after id address limit b new',
        rest,
      )
      refl
