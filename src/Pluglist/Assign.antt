-- ===== src/Pluglist/Assign.antt =====
-- Mapping nodes to hardwired plugs in order: pluglist_map without a plug list.
use powerman.Base.{
  ℕ, suc, ◌≡◌, refl, Bool, true, not, List, [], ◌∷◌, none, some, arith, is_some, length, count, leb,
  Option-cases, inl, inr, if◌then◌else◌,
}
use powerman.CStr.{CStr}
use powerman.Pluglist.{
  Plug, PlugList, PlErr, epl_success, epl_noplugs, map_next, pluglist_map_next, map_nodes,
  pluglist_map,
}

-- One walk over the plugs that gives the nodes out to the free ones, in order.
abbrev pub fill : List Plug → List CStr → List Plug
fill [] nodes = []
fill (p ∷ ps) [] = p ∷ ps
fill (p ∷ ps) (n ∷ ns) = elim p.node [
  | none ↦ record p { node = some n } ∷ fill ps ns
  | some _ ↦ p ∷ fill ps (n ∷ ns)
]

abbrev pub is_free : Plug → Bool
is_free p = not (is_some p.node)

abbrev pub free_plugs : List Plug → ℕ
free_plugs ps = count is_free ps

fill-nil : (ps : List Plug) → fill ps [] ≡ ps
fill-nil [] = refl
fill-nil (p ∷ ps) = refl

map_next-none : (ps : List Plug) (node : CStr) → map_next ps node ≡ none → free_plugs ps ≡ 0
unfolding map_next
map_next-none [] node h = refl
map_next-none (p ∷ ps) node h = ground (arith, map_next-none ps node)

map_next_free :
    (ps qs : List Plug) (node : CStr)
    → map_next ps node ≡ some qs
    → free_plugs ps ≡ suc (free_plugs qs)
unfolding map_next
map_next_free [] qs node h = ground arith
map_next_free (p ∷ ps) qs node h = elim (Option-cases (map_next ps node)) [
  | inl e ↦ ground (arith, e, map_next-none ps node)
  | inr (rs, e) ↦ ground (arith, e, map_next_free ps rs node)
]

fill_free :
    (p : Plug) (ps : List Plug) (node : CStr) (nodes : List CStr)
    → p.node ≡ none
    → fill (p ∷ ps) (node ∷ nodes) ≡ record p { node = some node } ∷ fill ps nodes
fill_free p ps node nodes h = ground arith

fill_taken :
    (p : Plug) (ps : List Plug) (nodes : List CStr) (n : CStr)
    → p.node ≡ some n
    → fill (p ∷ ps) nodes ≡ p ∷ fill ps nodes
fill_taken p ps [] n h = rw (fill-nil ps)
fill_taken p ps (node ∷ nodes) n h = ground arith

map_next-fill :
    (ps qs : List Plug) (node : CStr) (nodes : List CStr)
    → map_next ps node ≡ some qs
    → fill ps (node ∷ nodes) ≡ fill qs nodes
unfolding map_next
map_next-fill [] qs node nodes h = ground arith
map_next-fill (p ∷ ps) qs node nodes h = elim (Option-cases p.node) [
  | inl e ↦
      let p' = record p { node = some node } in
      ground (arith, fill_free p ps node nodes e, fill_taken p' ps nodes node refl)
  | inr (n, e) ↦ elim (Option-cases (map_next ps node)) [
    | inl k ↦ absurd (ground arith)
    | inr (rs, k) ↦ ground (
      arith,
      fill_taken p ps (node ∷ nodes) n e,
      fill_taken p rs nodes n e,
      map_next-fill ps rs node nodes k,
    )
  ]
]

fill_full : (ps : List Plug) (nodes : List CStr) → free_plugs ps ≡ 0 → fill ps nodes ≡ ps
fill_full [] nodes h = refl
fill_full (p ∷ ps) nodes h = elim (Option-cases p.node) [
  | inl e ↦ absurd (ground arith)
  | inr (n, e) ↦ ground (arith, fill_taken p ps nodes n e, fill_full ps nodes)
]

abbrev Filled : PlugList → List CStr → PlugList × PlErr → Type 0
Filled pl nodes r =
    (r.0 ≡ record pl { pluglist = fill pl.pluglist nodes })
    × (r.1 ≡ (if leb (length nodes) (free_plugs pl.pluglist) then epl_success else epl_noplugs))

Filled-next :
    (pl : PlugList) (node : CStr) (nodes : List CStr) (qs : List Plug) (r : PlugList × PlErr)
    → map_next pl.pluglist node ≡ some qs
    → Filled (record pl { pluglist = qs }) nodes r
    → Filled pl (node ∷ nodes) r
Filled-next pl node nodes qs r e h =
    ground (arith, map_next-fill pl.pluglist qs node nodes e, map_next_free pl.pluglist qs node e)

map_nodes-cons :
    (ps qs : List Plug) (node : CStr) (nodes : List CStr)
    → map_next ps node ≡ some qs
    → map_nodes (record { pluglist = ps; hardwired = true }) (node ∷ nodes)
      ≡ map_nodes (record { pluglist = qs; hardwired = true }) nodes
unfolding map_nodes pluglist_map_next
map_nodes-cons ps qs node nodes e = ground arith

map_nodes_stuck :
    (ps : List Plug) (node : CStr) (nodes : List CStr)
    → map_next ps node ≡ none
    → map_nodes (record { pluglist = ps; hardwired = true }) (node ∷ nodes)
      ≡ (record { pluglist = ps; hardwired = true }, epl_noplugs)
unfolding map_nodes pluglist_map_next
map_nodes_stuck ps node nodes e = ground arith

map_nodes_hardwired :
    (ps : List Plug) (nodes : List CStr)
    → Filled
        (record { pluglist = ps; hardwired = true })
        nodes
        (map_nodes (record { pluglist = ps; hardwired = true }) nodes)
unfolding map_nodes
map_nodes_hardwired ps [] = (rw (fill-nil ps), ground arith)
map_nodes_hardwired ps (node ∷ nodes) = elim (Option-cases (map_next ps node)) [
  | inl e ↦ rw (map_nodes_stuck ps node nodes e) (
    rw (fill_full ps (node ∷ nodes) (map_next-none ps node e)),
    ground (arith, map_next-none ps node e),
  )
  | inr (qs, e) ↦ rw (map_nodes-cons ps qs node nodes e) (
      Filled-next (record { pluglist = ps; hardwired = true }) node nodes qs _ e
        (map_nodes_hardwired qs nodes))
]

-- pluglist_map without a list of plugs, on a device whose plugs are hardwired, gives the nodes to
-- the free plugs in order, and succeeds exactly when there are as many free plugs as nodes.
pub pluglist_map_fills :
    (ps : List Plug) (nodes : List CStr)
    → let pl : PlugList = record { pluglist = ps; hardwired = true } in
      ((pluglist_map pl nodes none).0 ≡ record pl { pluglist = fill ps nodes })
      × ((pluglist_map pl nodes none).1
          ≡ (if leb (length nodes) (free_plugs ps) then epl_success else epl_noplugs))
unfolding pluglist_map
pluglist_map_fills ps nodes = map_nodes_hardwired ps nodes
