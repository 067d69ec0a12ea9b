-- ===== src/Wire/Read/Reach.antt =====
-- Programs that read a message, as sequences of calls: each starts from readers that earlier calls
-- returned, and from the traversal limit that all of them share.
pub mod Laws
pub mod Safe
use capnp_import.Common.{ℕ, ◌*◌, ◌≤◌, ◌<◌, ◌≡◌, List, [], ◌∷◌, Bool, Option, none, some}
use capnp_import.Serialize.{Segment}
use capnp_import.Wire.{Reads, Outcome, value, error, Error, ◌>>=◌, ◌>>◌, pure}
use capnp_import.Wire.Read.{PointerReader, StructReader, ListReader, get_struct, get_list}
use capnp_import.Wire.Read.Access.{
  get_root_internal, target_size, get_pointer_type, get_pointer_field, get_pointer_element,
  get_struct_element,
}
use capnp_import.Wire.Read.Bytes.{
  get_text, get_data, get_data_field, get_bool_field, get_data_element, get_bool_element, as_text,
  as_data, as_raw_bytes,
}

pub data View : Type 0 where
  of_pointer : PointerReader → View
  of_struct : StructReader → View
  of_list : ListReader → View

pub data Call : Type 0 where
  call_root : Call
  call_struct call_text call_data call_type call_size : PointerReader → Call
  call_list : ℕ → Bool → PointerReader → Call
  call_pointer_field call_bool_field : StructReader → ℕ → Call
  call_data_field : StructReader → ℕ → ℕ → Call
  call_pointer_at call_struct_at call_bool_at : ListReader → ℕ → Call
  call_data_at : ListReader → ℕ → ℕ → Call
  call_as_text call_as_data call_as_raw_bytes : ListReader → Call

abbrev pub as_view {ℓ} : {A : Type ℓ} → (A → View) → Option A → Option View
as_view f none = none
as_view f (some a) = some (f a)

-- A call that returns a number or a blob returns no reader.
abbrev pub only {ℓ} : {A : Type ℓ} → Reads A → Reads (Option View)
only m = m >>= λ a. pure none

unfoldable pub perform : List Segment → ℕ → Call → Reads (Option View)
perform message depth call_root =
    get_root_internal message depth >>= λ r. pure (some (of_pointer r))
perform message depth (call_struct r) = get_struct message r >>= λ o. pure (as_view of_struct o)
perform message depth (call_list expected check r) =
    get_list message expected check r >>= λ o. pure (as_view of_list o)
perform message depth (call_text r) = only (get_text message r)
perform message depth (call_data r) = only (get_data message r)
perform message depth (call_type r) = only (get_pointer_type message r)
perform message depth (call_size r) = only (target_size message r)
perform message depth (call_pointer_field s index) =
    pure (as_view of_pointer (get_pointer_field s index))
perform message depth (call_data_field s size offset) = only (get_data_field s size offset)
perform message depth (call_bool_field s offset) = only (get_bool_field s offset)
perform message depth (call_pointer_at l index) =
    pure (some (of_pointer (get_pointer_element l index)))
perform message depth (call_struct_at l index) =
    get_struct_element l index >>= λ s. pure (some (of_struct s))
perform message depth (call_data_at l size index) = only (get_data_element l size index)
perform message depth (call_bool_at l index) = only (get_bool_element l index)
perform message depth (call_as_text l) = only (as_text l)
perform message depth (call_as_data l) = only (as_data l)
perform message depth (call_as_raw_bytes l) = only (as_raw_bytes l)

pub data Among (v : View) : List View → Type 0 where
  first : {rest : List View} → Among v (v ∷ rest)
  later : {w : View} {rest : List View} → Among v rest → Among v (w ∷ rest)

-- A call has its reader from an earlier one, and asks for elements inside of the list, of what the
-- elements of the list have.
unfoldable pub Allowed : List View → Call → Type 0
Allowed readers call_root = Unit
Allowed readers (call_struct r) = Among (of_pointer r) readers
Allowed readers (call_list expected check r) = Among (of_pointer r) readers
Allowed readers (call_text r) = Among (of_pointer r) readers
Allowed readers (call_data r) = Among (of_pointer r) readers
Allowed readers (call_type r) = Among (of_pointer r) readers
Allowed readers (call_size r) = Among (of_pointer r) readers
Allowed readers (call_pointer_field s index) = Among (of_struct s) readers
Allowed readers (call_data_field s size offset) = Among (of_struct s) readers
Allowed readers (call_bool_field s offset) = Among (of_struct s) readers
Allowed readers (call_pointer_at l index) =
    Among (of_list l) readers × (0 < l.pointer_count) × (index < l.count)
Allowed readers (call_struct_at l index) = Among (of_list l) readers × (index < l.count)
Allowed readers (call_data_at l size index) =
    Among (of_list l) readers × (8 * size ≤ l.data_bits) × (index < l.count)
Allowed readers (call_bool_at l index) =
    Among (of_list l) readers × (1 ≤ l.data_bits) × (index < l.count)
Allowed readers (call_as_text l) = Among (of_list l) readers
Allowed readers (call_as_data l) = Among (of_list l) readers
Allowed readers (call_as_raw_bytes l) = Among (of_list l) readers

-- A program so far: the readers that it has, and what is left of the limit. Where it catches an
-- exception, the call may have taken some of the limit.
pub data Reached (message : List Segment) (depth limit : ℕ) : List View → ℕ → Type 0 where
  start : Reached message depth limit [] limit
  returned :
      {readers : List View} {l1 l2 : ℕ} {v : View} (c : Call)
      → Reached message depth limit readers l1
      → Allowed readers c
      → perform message depth c l1 ≡ value (some v) l2
      → Reached message depth limit (v ∷ readers) l2
  passed :
      {readers : List View} {l1 l2 : ℕ} (c : Call)
      → Reached message depth limit readers l1
      → Allowed readers c
      → perform message depth c l1 ≡ value none l2
      → Reached message depth limit readers l2
  caught :
      {readers : List View} {l1 l2 : ℕ} {e : Error} (c : Call)
      → Reached message depth limit readers l1
      → Allowed readers c
      → perform message depth c l1 ≡ error e
      → l2 ≤ l1
      → Reached message depth limit readers l2
