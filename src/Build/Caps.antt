-- ===== src/Build/Caps.antt =====
-- `BuilderArena::LocalCapTable` of capnproto/c++/src/capnp/arena.c++.
pub mod Laws
use capnp_import.Common.{
  ℕ, ◌∷◌, ◌++◌, [], List, length, get_elem?, Option, none, some, ltb, if◌then◌else◌,
}
use capnp_import.Build.{BuilderArena, and_then, replace_at}

-- `none` also for a capability that was dropped.
pub extract_cap : ℕ → BuilderArena → Option ℕ
extract_cap index a = and_then (get_elem? a.cap_table index) λ cap. cap

unfoldable pub inject_cap : ℕ → BuilderArena → ℕ × BuilderArena
inject_cap cap a = (length a.cap_table, record a { cap_table = a.cap_table ++ (some cap ∷ []) })

unfoldable pub drop_cap : ℕ → BuilderArena → Option BuilderArena
drop_cap index a =
    if ltb index (length a.cap_table)
    then some (record a { cap_table = replace_at index none a.cap_table })
    else none
