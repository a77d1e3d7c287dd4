-- ===== src/Pluglist/Tests.antt =====
-- Runs of pluglist.c at concrete inputs.
use powerman.Base.{◌≡◌, refl, true, false, List, [], ◌∷◌, none, some, length, if◌then◌else◌, leb}
use powerman.CStr.{CStr, codes, str_eq}
use powerman.Pluglist.{
  Plug, PlugList, epl_success, epl_noplugs, pluglist_map, pluglist_map_one, map_pairs,
  pluglist_find_any, set_node, create_plug,
}
use powerman.Pluglist.Map.{MapsAll, pluglist_map_assigns}
use powerman.Pluglist.Assign.{fill, free_plugs, pluglist_map_fills}

abbrev soft : PlugList
soft = record { pluglist = []; hardwired = false }

abbrev names : List CStr
names = codes "a" ∷ codes "b" ∷ []

abbrev nodes : List CStr
nodes = codes "n1" ∷ codes "n2" ∷ []

soft_mapped : (pluglist_map soft nodes (some names)).1 ≡ epl_success
unfolding pluglist_map map_pairs pluglist_map_one pluglist_find_any create_plug set_node str_eq
soft_mapped = refl

pluglist_map_assigns_example :
    (length nodes ≡ length names) × MapsAll (pluglist_map soft nodes (some names)).0 nodes names
pluglist_map_assigns_example = pluglist_map_assigns soft nodes names soft_mapped

abbrev free : List Plug
free = record { name = codes "1"; node = none } ∷ []

pluglist_map_fills_example :
    let pl : PlugList = record { pluglist = free; hardwired = true } in
    ((pluglist_map pl nodes none).0 ≡ record pl { pluglist = fill free nodes })
    × ((pluglist_map pl nodes none).1
        ≡ (if leb (length nodes) (free_plugs free) then epl_success else epl_noplugs))
pluglist_map_fills_example = pluglist_map_fills free nodes
