-- ===== src/Tests/Wire.antt =====
-- Readers of a message.
use capnp_import.Common.{◌+◌, ◌≡◌, ◌≤◌, ◌^◌, List, [], ◌∷◌, true, refl, arith, some}
use capnp_import.Serialize.{Segment}
use capnp_import.Wire.{value}
use capnp_import.Wire.Holds.{Holds}
use capnp_import.Wire.Pointer.{check_offset}
use capnp_import.Wire.Segment.{can_read, check_object, load, get_segment}
use capnp_import.Wire.Fars.{follow_fars}
use capnp_import.Wire.Size.{total_size}
use capnp_import.Wire.Size.Laws.{IsPaid, total_size-IsPaid}
use capnp_import.Wire.Read.{
  PointerReader, StructReader, load_pointer, read_struct_at, get_struct, get_list,
}
use capnp_import.Wire.Read.Access.{get_root, get_root_internal, get_pointer_field}
use capnp_import.Wire.Read.Lists.{IsListBelow, get_list-IsList}
use capnp_import.Wire.Read.Bytes.{get_text}
use capnp_import.Wire.Read.Bytes.Blobs.{IsText, get_text-IsText}
use capnp_import.Wire.Read.Reach.{
  of_pointer, of_struct, call_root, call_struct, call_pointer_field, call_text, perform, first,
  Allowed, Reached, start, returned,
}
use capnp_import.Wire.Read.Reach.Laws.{AllViews, IsSafe}
use capnp_import.Wire.Read.Reach.Safe.{Reached-AllViews, Reached-IsSafe}

-- A root with the number 42 and the text "hi", and a segment that it points to with a far pointer.
abbrev segment : Segment
segment =
    record { low = 0; high = 1 + 2 ^ 16 }
    ∷ record { low = 42; high = 0 }
    ∷ record { low = 1; high = 26 }
    ∷ record { low = 26984; high = 0 }
    ∷ []

abbrev message : List Segment
message = segment ∷ (record { low = 2; high = 0 } ∷ []) ∷ []

abbrev root : PointerReader
root = record { segment = segment; address = 0; nesting_limit = 64 }

abbrev root_struct : StructReader
root_struct = record {
  segment = segment;
  address = 8;
  pointers = 16;
  data_bits = 64;
  pointer_count = 1;
  nesting_limit = 63;
}

abbrev text : PointerReader
text = record { segment = segment; address = 16; nesting_limit = 63 }

perform-root : perform message 64 call_root 100 ≡ value (some (of_pointer root)) 98
unfolding perform get_root get_root_internal can_read check_object get_segment
perform-root = refl

perform-struct : perform message 64 (call_struct root) 98 ≡ value (some (of_struct root_struct)) 96
unfolding perform get_struct load_pointer read_struct_at can_read check_object load follow_fars
    check_offset
perform-struct = refl

perform-field :
    perform message 64 (call_pointer_field root_struct 0) 96 ≡ value (some (of_pointer text)) 96
unfolding perform get_pointer_field
perform-field = refl

session : Reached message 64 100 (of_pointer text ∷ of_struct root_struct ∷ of_pointer root ∷ []) 96
unfolding Allowed
session =
    returned (call_pointer_field root_struct 0)
      (returned (call_struct root) (returned call_root start tt perform-root) first perform-struct)
      first perform-field

allowed : Allowed (of_pointer text ∷ of_struct root_struct ∷ of_pointer root ∷ []) (call_text text)
unfolding Allowed
allowed = first

Reached-IsSafe_example : Holds (IsSafe 64 100) (perform message 64 (call_text text) 96)
Reached-IsSafe_example =
    Reached-IsSafe message 64 100 (of_pointer text ∷ of_struct root_struct ∷ of_pointer root ∷ [])
      96 (call_text text) session allowed

Reached-AllViews_example :
    AllViews 64 (of_pointer text ∷ of_struct root_struct ∷ of_pointer root ∷ []) × (96 ≤ 100)
Reached-AllViews_example =
    Reached-AllViews message 64 100 (of_pointer text ∷ of_struct root_struct ∷ of_pointer root ∷ [])
      96 session

total_size-IsPaid_example : Holds (IsPaid 100 1) (total_size message 64 segment 0 100)
total_size-IsPaid_example = total_size-IsPaid message 64 segment 0 100 (omega arith)

get_list-IsList_example : Holds (IsListBelow 2 true 63 100) (get_list message 2 true text 100)
get_list-IsList_example = get_list-IsList message 2 true text 100 (omega arith, omega arith)

get_text-IsText_example : Holds (IsText 100) (get_text message text 100)
get_text-IsText_example = get_text-IsText message text 100 (omega arith, omega arith)
