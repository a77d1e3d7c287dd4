-- ===== src/Pluglist.antt =====
-- libcommon/pluglist.c: the plugs of a device, and the node that each one powers.
pub mod Map
pub mod Assign
mod Tests
use powerman.Base.{
  ℕ, ◌≡◌, Bool, true, false, List, [], ◌∷◌, Option, none, some, if◌then◌else◌, is_some,
}
use powerman.CStr.{CStr, str_eq}

-- `name` is never NULL: _create_plug asserts it. `node` is none for NULL.
pub record Plug : Type 0 where
  pub name : CStr
  pub node : Option CStr

pub record PlugList : Type 0 where
  pub pluglist : List Plug
  pub hardwired : Bool

-- pl_err_t
pub data PlErr : Type 0 where
  epl_success epl_dupnode epl_dupplug epl_unkplug epl_noplugs epl_nonodes : PlErr

unfoldable pub create_plug : CStr → Plug
create_plug name = record { name = name; node = none }

create_plugs : List CStr → List Plug
create_plugs [] = []
create_plugs (n ∷ ns) = create_plug n ∷ create_plugs ns

-- `plugnames` is none for NULL.
unfoldable pub pluglist_create : Option (List CStr) → PlugList
unfolding create_plugs create_plug
pluglist_create none = record { pluglist = []; hardwired = false }
pluglist_create (some names) = record { pluglist = create_plugs names; hardwired = true }

-- The first plug of that name.
unfoldable pub pluglist_find_any : List Plug → CStr → Option Plug
pluglist_find_any [] name = none
pluglist_find_any (p ∷ ps) name = if str_eq p.name name then some p else pluglist_find_any ps name

-- `plug->node = xstrdup(node)` on the plug that pluglist_find_any returns.
unfoldable pub set_node : List Plug → CStr → CStr → List Plug
set_node [] name node = []
set_node (p ∷ ps) name node =
    if str_eq p.name name then record p { node = some node } ∷ ps else p ∷ set_node ps name node

unfoldable pub pluglist_map_one : PlugList → CStr → CStr → PlugList × PlErr
unfolding create_plug pluglist_find_any set_node
pluglist_map_one pl node name = elim (pluglist_find_any pl.pluglist name) [
  | none ↦ if pl.hardwired then (pl, epl_unkplug) else (
    record pl { pluglist = set_node (create_plug name ∷ pl.pluglist) name node },
    epl_success,
  )
  | some plug ↦
      if is_some plug.node
      then (pl, epl_dupplug)
      else (record pl { pluglist = set_node pl.pluglist name node }, epl_success)
]

-- The loop of _pluglist_map_next; none when no plug is free.
unfoldable pub map_next : List Plug → CStr → Option (List Plug)
map_next [] node = none
map_next (p ∷ ps) node =
    let rest = map_next ps node in
    elim p.node [
      | none ↦ some (record p { node = some node } ∷ ps)
      | some _ ↦ elim rest [ none ↦ none | some qs ↦ some (p ∷ qs) ]
    ]

unfoldable pub pluglist_map_next : PlugList → CStr → PlugList × PlErr
unfolding map_next
pluglist_map_next pl node = elim (map_next pl.pluglist node) [
  | none ↦ (pl, epl_noplugs)
  | some ps ↦ (record pl { pluglist = ps }, epl_success)
]

-- The loop of pluglist_map with `pluglist == NULL`.
unfoldable pub map_nodes : PlugList → List CStr → PlugList × PlErr
unfolding pluglist_map_next pluglist_map_one
map_nodes pl [] = (pl, epl_success)
map_nodes pl (node ∷ nodes) =
    let r = if pl.hardwired then pluglist_map_next pl node else pluglist_map_one pl node node in
    let rest = map_nodes r.0 nodes in elim r.1 [ epl_success ↦ rest | _ ↦ r ]

-- The loop of pluglist_map over both lists, with the test for plugs that are left over.
unfoldable pub map_pairs : PlugList → List CStr → List CStr → PlugList × PlErr
unfolding pluglist_map_one
map_pairs pl [] [] = (pl, epl_success)
map_pairs pl [] (name ∷ names) = (pl, epl_nonodes)
map_pairs pl (node ∷ nodes) [] = (pl, epl_noplugs)
map_pairs pl (node ∷ nodes) (name ∷ names) =
    let r = pluglist_map_one pl node name in
    let rest = map_pairs r.0 nodes names in elim r.1 [ epl_success ↦ rest | _ ↦ r ]

-- The arguments are the hosts of `nodelist` and of `pluglist` (none for NULL).
unfoldable pub pluglist_map : PlugList → List CStr → Option (List CStr) → PlugList × PlErr
unfolding map_nodes map_pairs
pluglist_map pl nodes none = map_nodes pl nodes
pluglist_map pl nodes (some names) = map_pairs pl nodes names

unfoldable pub pluglist_find : PlugList → CStr → Option Plug
unfolding pluglist_find_any
pluglist_find pl name = elim (pluglist_find_any pl.pluglist name) [
  | none ↦ none
  | some plug ↦ if is_some plug.node then some plug else none
]
