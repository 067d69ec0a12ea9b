-- ===== src/Wire/Read/Reach/Laws.antt =====
-- With readers inside of their segments, every call leads to such a reader.
use capnp_import.Common.{ℕ, ◌^◌, ◌≤◌, ◌<◌, ◌≡◌, List, Bool, Option, none, some, All, arith}
use capnp_import.Serialize.{Segment}
use capnp_import.Wire.{Reads}
use capnp_import.Wire.Holds.{Holds, result, Holds-then_do}
use capnp_import.Wire.Size.Laws.{IsPaid}
use capnp_import.Wire.Read.{PointerReader, StructReader, ListReader}
use capnp_import.Wire.Read.Access.{
  get_pointer_field, get_pointer_element, get_pointer_type, target_size,
}
use capnp_import.Wire.Read.Laws.{
  IsPointer, IsStruct, IsDefaultOr, IsStructBelow, get_struct-IsStruct,
}
use capnp_import.Wire.Read.Lists.{IsList, IsListBelow, get_list-IsList}
use capnp_import.Wire.Read.Access.Laws.{
  get_pointer_field-IsPointer, get_pointer_element-IsPointer, get_struct_element-IsStruct,
}
use capnp_import.Wire.Read.Access.Roots.{
  IsRoot, NoMore, get_root_internal-IsRoot, target_size-IsPaid, get_pointer_type-NoMore,
}
use capnp_import.Wire.Read.Bytes.Laws.{
  get_data_field-Holds, get_bool_field-Holds, get_data_element-Holds, get_bool_element-Holds,
}
use capnp_import.Wire.Read.Bytes.{
  get_text, get_data, get_data_field, get_bool_field, get_data_element, get_bool_element, as_text,
  as_data, as_raw_bytes,
}
use capnp_import.Wire.Read.Bytes.Blobs.{get_text-IsText, get_data-IsBlob, IsText, IsBlob}
use capnp_import.Wire.Read.Bytes.Views.{
  IsBytes, as_text-IsBytes, as_data-IsBytes, as_raw_bytes-IsBytes,
}
use capnp_import.Wire.Read.Reach.{
  View, of_pointer, of_struct, of_list, Call, call_root, call_struct, call_list, call_text,
  call_data, call_type, call_size, call_pointer_field, call_data_field, call_bool_field,
  call_pointer_at, call_struct_at, call_data_at, call_bool_at, call_as_text, call_as_data,
  call_as_raw_bytes, as_view, only, perform, Among, first, later, Allowed,
}

-- A reader inside of its segment, within the nesting limit.
pub IsView : ℕ → View → Type 0
IsView depth (of_pointer r) = IsPointer r × (r.nesting_limit ≤ depth)
IsView depth (of_struct s) = IsStruct s × (s.nesting_limit < depth)
IsView depth (of_list l) = IsList l × (l.nesting_limit < depth)

abbrev pub AllViews : ℕ → List View → Type 0
AllViews depth = All (IsView depth)

AllViews-Among :
    {v : View} {views : List View} (depth : ℕ)
    → Among v views
    → AllViews depth views
    → IsView depth v
AllViews-Among depth first (valid, rest) = valid
AllViews-Among depth (later among) (valid, rest) = AllViews-Among depth among rest

-- A call that returns a reader inside of its segment, if any, and no more of the limit.
abbrev pub IsSafe : ℕ → ℕ → Option View → ℕ → Type 0
IsSafe depth limit o left = IsDefaultOr (IsView depth) o × (left ≤ limit)

-- A call that returns no reader.
only-IsSafe {ℓ κ} :
    {A : Type ℓ} (P : A → ℕ → Type κ) (depth limit : ℕ) (m : Reads A)
    → Holds P (m limit)
    → ((a : A) (left : ℕ) → P a left → left ≤ limit)
    → Holds (IsSafe depth limit) (only m limit)
only-IsSafe P depth limit m h le =
    Holds-then_do P (IsSafe depth limit) h (λ a left p. result (tt, le a left p))

struct-IsSafe :
    (depth limit l1 : ℕ) (o : Option StructReader) (left : ℕ)
    → IsStructBelow l1 limit o left
    → l1 ≤ depth
    → IsSafe depth limit (as_view of_struct o) left
unfolding IsView
struct-IsSafe depth limit l1 none left (valid, le) below = (tt, le)
struct-IsSafe depth limit l1 (some s) left ((valid, nesting, paid), le) below =
    ((valid, omega arith), le)

list-IsSafe :
    (expected : ℕ) (check : Bool) (depth limit l1 : ℕ) (o : Option ListReader) (left : ℕ)
    → IsListBelow expected check l1 limit o left
    → l1 ≤ depth
    → IsSafe depth limit (as_view of_list o) left
unfolding IsView
list-IsSafe expected check depth limit l1 none left (valid, le) below = (tt, le)
list-IsSafe expected check depth limit l1 (some l) left (((valid, serves, nesting), paid), le)
      below =
    ((valid, omega arith), le)

field-IsView :
    (depth : ℕ) (s : StructReader) (o : Option PointerReader)
    → IsDefaultOr (λ (r : PointerReader). IsPointer r × (r.nesting_limit ≡ s.nesting_limit)) o
    → s.nesting_limit < depth
    → IsDefaultOr (IsView depth) (as_view of_pointer o)
unfolding IsView
field-IsView depth s none valid below = tt
field-IsView depth s (some r) (valid, nesting) below = (valid, omega arith)

at_element :
    (depth : ℕ) (l : ListReader) (index : ℕ)
    → IsPointer (get_pointer_element l index)
      × ((get_pointer_element l index).nesting_limit ≡ l.nesting_limit)
    → l.nesting_limit < depth
    → IsView depth (of_pointer (get_pointer_element l index))
unfolding IsView
at_element depth l index (valid, nesting) below = (valid, omega arith)

module _ (message : List Segment) (depth limit : ℕ) (readers : List View)
    (valid : AllViews depth readers) where
  Among-IsPointer :
      {r : PointerReader} → Among (of_pointer r) readers → IsPointer r × (r.nesting_limit ≤ depth)
  unfolding IsView
  Among-IsPointer among = AllViews-Among depth among valid

  Among-IsStruct :
      {s : StructReader} → Among (of_struct s) readers → IsStruct s × (s.nesting_limit < depth)
  unfolding IsView
  Among-IsStruct among = AllViews-Among depth among valid

  Among-IsList : {l : ListReader} → Among (of_list l) readers → IsList l × (l.nesting_limit < depth)
  unfolding IsView
  Among-IsList among = AllViews-Among depth among valid

  -- With readers inside of their segments every call makes accesses inside of the segments only, and
  -- a reader that it returns is inside of its segment.
  pub perform-IsSafe :
      (c : Call) → Allowed readers c → Holds (IsSafe depth limit) (perform message depth c limit)
  unfolding perform Allowed IsView
  perform-IsSafe call_root h =
      Holds-then_do (IsRoot depth limit) (IsSafe depth limit)
        (get_root_internal-IsRoot message depth limit)
        λ r left (valid, nesting, le). result ((valid, omega arith), le)
  perform-IsSafe (call_struct r) among =
      let (here, nesting) = Among-IsPointer among in
      Holds-then_do (IsStructBelow r.nesting_limit limit) (IsSafe depth limit)
        (get_struct-IsStruct message r limit here)
        λ o left p. result (struct-IsSafe depth limit r.nesting_limit o left p nesting)
  perform-IsSafe (call_list expected check r) among =
      let (here, nesting) = Among-IsPointer among in
      Holds-then_do (IsListBelow expected check r.nesting_limit limit) (IsSafe depth limit)
        (get_list-IsList message expected check r limit here)
        λ o left p. result (list-IsSafe expected check depth limit r.nesting_limit o left p nesting)
  perform-IsSafe (call_text r) among =
      let (here, nesting) = Among-IsPointer among in
      only-IsSafe (IsText limit) depth limit (get_text message r)
        (get_text-IsText message r limit here) (λ o left (text, le). le)
  perform-IsSafe (call_data r) among =
      let (here, nesting) = Among-IsPointer among in
      only-IsSafe (IsBlob limit) depth limit (get_data message r)
        (get_data-IsBlob message r limit here) (λ o left (blob, le). le)
  perform-IsSafe (call_type r) among =
      let (here, nesting) = Among-IsPointer among in
      only-IsSafe (NoMore limit) depth limit (get_pointer_type message r)
        (get_pointer_type-NoMore message r limit here) (λ o left le. le)
  perform-IsSafe (call_size r) among =
      let (here, nesting) = Among-IsPointer among in
      only-IsSafe (IsPaid limit 1) depth limit (target_size message r)
        (target_size-IsPaid message r limit here) (λ c left p. omega arith)
  perform-IsSafe (call_pointer_field s index) among =
      let (here, nesting) = Among-IsStruct among in
      result (
        field-IsView depth s (get_pointer_field s index) (get_pointer_field-IsPointer s index here)
            nesting,
        omega arith,
      )
  perform-IsSafe (call_data_field s size offset) among =
      let (here, nesting) = Among-IsStruct among in
      only-IsSafe (λ (n : ℕ) left. (n < 256 ^ size) × (left ≡ limit)) depth limit
        (get_data_field s size offset) (get_data_field-Holds s size offset limit here)
        (λ n left p. omega arith)
  perform-IsSafe (call_bool_field s offset) among =
      let (here, nesting) = Among-IsStruct among in
      only-IsSafe (λ (b : Bool) left. left ≡ limit) depth limit (get_bool_field s offset)
        (get_bool_field-Holds s offset limit here) (λ b left p. omega arith)
  perform-IsSafe (call_pointer_at l index) (among, some_pointers, h) =
      let (here, nesting) = Among-IsList among in
      result (
        at_element depth l index (get_pointer_element-IsPointer l index here some_pointers h)
            nesting,
        omega arith,
      )
  perform-IsSafe (call_struct_at l index) (among, h) =
      let (here, nesting) = Among-IsList among in
      Holds-then_do
        (λ (s : StructReader) left.
          IsStruct s × (s.nesting_limit < l.nesting_limit) × (left ≡ limit))
        (IsSafe depth limit) (get_struct_element-IsStruct l index limit here h)
        λ s left (valid, below, e). result ((valid, omega arith), omega arith)
  perform-IsSafe (call_data_at l size index) (among, enough, h) =
      let (here, nesting) = Among-IsList among in
      only-IsSafe (λ (n : ℕ) left. (n < 256 ^ size) × (left ≡ limit)) depth limit
        (get_data_element l size index) (get_data_element-Holds l size index limit here enough h)
        (λ n left p. omega arith)
  perform-IsSafe (call_bool_at l index) (among, enough, h) =
      let (here, nesting) = Among-IsList among in
      only-IsSafe (λ (b : Bool) left. left ≡ limit) depth limit (get_bool_element l index)
        (get_bool_element-Holds l index limit here enough h) (λ b left p. omega arith)
  perform-IsSafe (call_as_text l) among =
      let (here, nesting) = Among-IsList among in
      only-IsSafe (IsBytes limit) depth limit (as_text l) (as_text-IsBytes l limit here)
        (λ b left p. omega arith)
  perform-IsSafe (call_as_data l) among =
      let (here, nesting) = Among-IsList among in
      only-IsSafe (IsBytes limit) depth limit (as_data l) (as_data-IsBytes l limit here)
        (λ b left p. omega arith)
  perform-IsSafe (call_as_raw_bytes l) among =
      let (here, nesting) = Among-IsList among in
      only-IsSafe (IsBytes limit) depth limit (as_raw_bytes l) (as_raw_bytes-IsBytes l limit here)
        (λ b left p. omega arith)
