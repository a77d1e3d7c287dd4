-- ===== src/Pluglist/Map.antt =====
-- Mapping plugs to nodes by name: _pluglist_map_one, and pluglist_map with a plug list.
use mathlib.Core.Path.{subst}
use powerman.Base.{
  suc, ap, ◌≡◌, refl, sym, ◌∙◌, inl, inr, true, false, List, [], ◌∷◌, none, some, arith, is_some,
  length, Bool-cases, Option-cases,
}
use powerman.CStr.{CStr, str_eq, str_eq_of, str_eq_self}
use powerman.Pluglist.{
  Plug, PlugList, PlErr, epl_success, epl_dupnode, epl_dupplug, epl_unkplug, epl_noplugs,
  epl_nonodes, create_plug, pluglist_find_any, set_node, pluglist_map_one, map_pairs, pluglist_map,
  pluglist_find,
}

-- The plug named `name` powers `node`.
abbrev pub Maps : PlugList → CStr → CStr → Type 0
Maps pl name node = pluglist_find pl name ≡ some (record { name = name; node = some node })

find-set_node_self :
    (ps : List Plug) (name node : CStr) (plug : Plug)
    → pluglist_find_any ps name ≡ some plug
    → pluglist_find_any (set_node ps name node) name
      ≡ some (record { name = name; node = some node })
unfolding pluglist_find_any set_node
find-set_node_self [] name node plug h = ground arith
find-set_node_self (p ∷ ps) name node plug h =
    ground (arith, find-set_node_self ps name node plug, str_eq_of p.name name)

str_eq_other : (a b c : CStr) → str_eq a b ≡ true → str_eq b c ≡ false → str_eq a c ≡ false
str_eq_other a b c h k = ground (arith, str_eq_of a b h)

find-set_node_other :
    (ps : List Plug) (name node other : CStr)
    → str_eq name other ≡ false
    → pluglist_find_any (set_node ps name node) other ≡ pluglist_find_any ps other
unfolding pluglist_find_any set_node
find-set_node_other [] name node other h = refl
find-set_node_other (p ∷ ps) name node other h =
    ground (arith, find-set_node_other ps name node other h, str_eq_other p.name name other)

-- What a call of _pluglist_map_one does, by its result.
abbrev pub MapOne : PlugList → CStr → CStr → PlugList × PlErr → Type 0
MapOne pl node name (pl', epl_success) =
    (pluglist_find pl name ≡ none)
    × Maps pl' name node
    × (pl'.hardwired ≡ pl.hardwired)
    × ((other : CStr)
        → str_eq name other ≡ false
        → pluglist_find pl' other ≡ pluglist_find pl other)
MapOne pl node name (pl', epl_dupplug) = (pl' ≡ pl) × (is_some (pluglist_find pl name) ≡ true)
MapOne pl node name (pl', epl_unkplug) =
    (pl' ≡ pl) × (pl.hardwired ≡ true) × (pluglist_find_any pl.pluglist name ≡ none)
MapOne pl node name (pl', epl_dupnode) = ⊥
MapOne pl node name (pl', epl_noplugs) = ⊥
MapOne pl node name (pl', epl_nonodes) = ⊥

fresh_other :
    (ps : List Plug) (name node other : CStr)
    → str_eq name other ≡ false
    → pluglist_find_any (set_node (create_plug name ∷ ps) name node) other
      ≡ pluglist_find_any ps other
unfolding pluglist_find_any create_plug
fresh_other ps name node other h =
    ground (arith, find-set_node_other (create_plug name ∷ ps) name node other h)

fresh_self :
    (ps : List Plug) (name node : CStr)
    → pluglist_find_any (set_node (create_plug name ∷ ps) name node) name
      ≡ some (record { name = name; node = some node })
unfolding pluglist_find_any set_node create_plug
fresh_self ps name node = ground (arith, str_eq_self name)

MapOne-new :
    (pl : PlugList) (node name : CStr)
    → pluglist_find_any pl.pluglist name ≡ none
    → MapOne pl node name (pluglist_map_one pl node name)
unfolding pluglist_map_one pluglist_find
MapOne-new pl node name e = elim (Bool-cases pl.hardwired) [
  | inl h ↦ rw (e, pluglist_map_one, h) (refl, refl, e)
  | inr h ↦
      rw (e, pluglist_map_one, h)
        (
          rw (e, pluglist_find),
          rw (fresh_self pl.pluglist name node, pluglist_find),
          refl,
          λ other k. rw (fresh_other pl.pluglist name node other k, pluglist_find),
        )
]

MapOne-old :
    (pl : PlugList) (node name : CStr) (plug : Plug)
    → pluglist_find_any pl.pluglist name ≡ some plug
    → MapOne pl node name (pluglist_map_one pl node name)
unfolding pluglist_map_one pluglist_find
MapOne-old pl node name plug e = elim (Option-cases plug.node) [
  | inl h ↦
      rw (e, pluglist_map_one, h)
        (
          rw (e, pluglist_find, h),
          rw (find-set_node_self pl.pluglist name node plug e, pluglist_find),
          refl,
          λ other k. rw (find-set_node_other pl.pluglist name node other k, pluglist_find),
        )
  | inr (n, h) ↦ rw (e, pluglist_map_one, h) (refl, rw (e, pluglist_find, h))
]

-- A call of _pluglist_map_one that succeeds maps the plug, which powered no node before, and
-- leaves every other plug as it was; a call that fails changes nothing, and says why.
pub MapOne_lem :
    (pl : PlugList) (node name : CStr) → MapOne pl node name (pluglist_map_one pl node name)
MapOne_lem pl node name = elim (Option-cases (pluglist_find_any pl.pluglist name)) [
  | inl e ↦ MapOne-new pl node name e
  | inr (plug, e) ↦ MapOne-old pl node name plug e
]

MapOne-Maps :
    (pl : PlugList) (node name : CStr) (r : PlugList × PlErr) (other host : CStr)
    → MapOne pl node name r
    → Maps pl other host
    → Maps r.0 other host
MapOne-Maps pl node name (pl', epl_success) other host m h = elim (Bool-cases (str_eq name other)) [
  | inl e ↦ cc (m.0, h, str_eq_of name other e)
  | inr e ↦ m.3 other e ∙ h
]
MapOne-Maps pl node name (pl', epl_dupplug) other host m h = rw (m.0) h
MapOne-Maps pl node name (pl', epl_unkplug) other host m h = rw (m.0) h
MapOne-Maps pl node name (pl', epl_dupnode) other host m h = absurd m
MapOne-Maps pl node name (pl', epl_noplugs) other host m h = absurd m
MapOne-Maps pl node name (pl', epl_nonodes) other host m h = absurd m

-- A plug that powers a node goes on powering it.
map_pairs-Maps :
    (pl : PlugList) (nodes names : List CStr) (other host : CStr)
    → Maps pl other host
    → Maps (map_pairs pl nodes names).0 other host
unfolding map_pairs
map_pairs-Maps pl [] [] other host h = h
map_pairs-Maps pl [] (name ∷ names) other host h = h
map_pairs-Maps pl (node ∷ nodes) [] other host h = h
map_pairs-Maps pl (node ∷ nodes) (name ∷ names) other host h =
    let kept =
      MapOne-Maps pl node name (pluglist_map_one pl node name) other host (MapOne_lem pl node name)
        h in
    ground (arith, kept, map_pairs-Maps (pluglist_map_one pl node name).0 nodes names other host)

-- Each pair of the two lists is mapped.
abbrev pub MapsAll : PlugList → List CStr → List CStr → Type 0
MapsAll pl [] names = Unit
MapsAll pl (node ∷ nodes) [] = Unit
MapsAll pl (node ∷ nodes) (name ∷ names) = Maps pl name node × MapsAll pl nodes names

MapOne-success :
    (pl : PlugList) (node name : CStr) (r : PlugList × PlErr)
    → MapOne pl node name r
    → r.1 ≡ epl_success
    → Maps r.0 name node
MapOne-success pl node name (pl', epl_success) m h = m.1
MapOne-success pl node name (pl', epl_dupplug) m h = cc
MapOne-success pl node name (pl', epl_unkplug) m h = cc
MapOne-success pl node name (pl', epl_dupnode) m h = cc
MapOne-success pl node name (pl', epl_noplugs) m h = cc
MapOne-success pl node name (pl', epl_nonodes) m h = cc

map_pairs-cons :
    (pl : PlugList) (node name : CStr) (nodes names : List CStr)
    → (map_pairs pl (node ∷ nodes) (name ∷ names)).1 ≡ epl_success
    → ((pluglist_map_one pl node name).1 ≡ epl_success)
      × (map_pairs pl (node ∷ nodes) (name ∷ names)
          ≡ map_pairs (pluglist_map_one pl node name).0 nodes names)
unfolding map_pairs
map_pairs-cons pl node name nodes names h = ground arith

map_pairs_assigns :
    (pl : PlugList) (nodes names : List CStr)
    → (map_pairs pl nodes names).1 ≡ epl_success
    → (length nodes ≡ length names) × MapsAll (map_pairs pl nodes names).0 nodes names
unfolding map_pairs
map_pairs_assigns pl [] [] h = (refl, tt)
map_pairs_assigns pl [] (name ∷ names) h = cc
map_pairs_assigns pl (node ∷ nodes) [] h = cc
map_pairs_assigns pl (node ∷ nodes) (name ∷ names) h =
    let (first, rest) = map_pairs-cons pl node name nodes names h in
    let pl' = (pluglist_map_one pl node name).0 in
    let ih = map_pairs_assigns pl' nodes names (rw rest at h) in
    let here = MapOne-success pl node name _ (MapOne_lem pl node name) first in
    (
      ap suc ih.0,
      (
        subst (λ r. Maps r.0 name node) (sym rest) (map_pairs-Maps pl' nodes names name node here),
        subst (λ r. MapsAll r.0 nodes names) (sym rest) ih.1,
      ),
    )

-- When pluglist_map succeeds with a list of plugs, that list is as long as the list of nodes, and
-- every plug of the list powers its node, also where plugs or nodes come more than once.
pub pluglist_map_assigns :
    (pl : PlugList) (nodes names : List CStr)
    → (pluglist_map pl nodes (some names)).1 ≡ epl_success
    → (length nodes ≡ length names) × MapsAll (pluglist_map pl nodes (some names)).0 nodes names
unfolding pluglist_map
pluglist_map_assigns pl nodes names h = map_pairs_assigns pl nodes names h
