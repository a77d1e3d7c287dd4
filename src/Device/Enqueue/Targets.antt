-- ===== src/Device/Enqueue/Targets.antt =====
-- Which actions a power command gives to a device, and which devices it is refused for.
use mathlib.Core.Path.{subst}
use powerman.Base.{
  ◌≡◌, refl, sym, ap, ◌∙◌, inl, inr, Bool, true, false, ◌&&◌, List, [], ◌∷◌, ◌++◌, none, some,
  arith, if◌then◌else◌, length, is_some, Option-cases, Bool-cases,
}
use mathlib.Core.List.{append-nil, append_assoc}
use powerman.CStr.{CStr}
use powerman.Hostlist.{Hostlist}
use powerman.Pluglist.{Plug}
use powerman.Commands.{Com, get_all_script, get_ranged_script, is_query_action}
use powerman.Client.{World}
use powerman.Device.{Action, Device}
use powerman.Device.Enqueue.{
  Request, Scan, Enqueued, is_target, new_action, create_action, scan_plug, scan_plugs, all_script,
  enqueue_version, append_action, enqueue_scanned, enqueue_targetted_actions, implements,
  dev_check_actions,
}

-- The plugs whose nodes the command names, in the order of the device.
unfoldable pub targets : Hostlist → List CStr → List Plug → List Plug
targets hostlist hl [] = []
targets hostlist hl (p ∷ ps) =
    if is_target hostlist hl p then p ∷ targets hostlist hl ps else targets hostlist hl ps

unfoldable pub all_targets : Hostlist → List CStr → List Plug → Bool
all_targets hostlist hl [] = true
all_targets hostlist hl (p ∷ ps) = is_target hostlist hl p && all_targets hostlist hl ps

-- An action for each plug.
unfoldable pub singles : Device → Com → Request → List Plug → List Action
singles dev pm r [] = []
singles dev pm r (p ∷ ps) = new_action dev pm (some (p ∷ [])) r ∷ singles dev pm r ps

unfoldable pub own_actions : Device → Com → Request → List Plug → List Action
own_actions dev pm r ps = if is_some (dev.scripts pm) then singles dev pm r ps else []

-- One action for the whole device, if the "all" version may serve, or for all targets if there is a
-- "ranged" version, else an action for each target.
unfoldable pub pick : Device → Com → Request → Bool → List Plug → List Action
pick dev pm r all ps = elim (all_script dev pm all) [
  | some ncom ↦ new_action dev ncom none r ∷ []
  | none ↦ elim (get_ranged_script dev.scripts pm) [
    | some ncom ↦ new_action dev ncom (some ps) r ∷ []
    | none ↦ own_actions dev pm r ps
  ]
]

abbrev pub chosen : Hostlist → Device → Com → List CStr → Request → List Action
chosen hostlist dev pm hl r =
    pick dev pm r (all_targets hostlist hl dev.plugs) (targets hostlist hl dev.plugs)

-- Actions that are appended to the queue, and counted.
abbrev pub Appends : Device → List Action → Enqueued → Type 0
Appends dev new e = (e.0 ≡ record dev { acts = dev.acts ++ new }) × (e.1 ≡ length new)

abbrev Scanned : Hostlist → Device → Com → List CStr → Request → List Plug → Scan → Scan → Type 0
Scanned hostlist dev pm hl r plugs s u =
    (u.all ≡ (s.all && all_targets hostlist hl plugs))
    × (u.ranged_plugs ≡ s.ranged_plugs ++ targets hostlist hl plugs)
    × (u.new_acts ≡ s.new_acts ++ own_actions dev pm r (targets hostlist hl plugs))

-- A plug that is no target.
scan_plug-skip :
    (hostlist : Hostlist) (dev : Device) (pm : Com) (hl : List CStr) (r : Request) (s : Scan)
    (p : Plug)
    → is_target hostlist hl p ≡ false
    → scan_plug hostlist dev pm hl r s p ≡ record s { all = false }
unfolding scan_plug
scan_plug-skip hostlist dev pm hl r s p h = ground arith

-- What a target adds.
scan_plug-take :
    (hostlist : Hostlist) (dev : Device) (pm : Com) (hl : List CStr) (r : Request) (s : Scan)
    (p : Plug)
    → is_target hostlist hl p ≡ true
    → ((scan_plug hostlist dev pm hl r s p).all ≡ s.all)
      × ((scan_plug hostlist dev pm hl r s p).ranged_plugs ≡ s.ranged_plugs ++ p ∷ [])
      × ((scan_plug hostlist dev pm hl r s p).new_acts
          ≡ s.new_acts ++ own_actions dev pm r (p ∷ []))
unfolding scan_plug create_action own_actions singles
scan_plug-take hostlist dev pm hl r s p h = (
  ground arith,
  ground arith,
  elim (Bool-cases (is_some (dev.scripts pm))) [
    | inl e ↦ ground arith
    | inr e ↦ ground (arith, append-nil s.new_acts)
  ],
)

targets-skip :
    (hostlist : Hostlist) (hl : List CStr) (p : Plug) (ps : List Plug)
    → is_target hostlist hl p ≡ false
    → targets hostlist hl (p ∷ ps) ≡ targets hostlist hl ps
unfolding targets
targets-skip hostlist hl p ps h = ground arith

targets-take :
    (hostlist : Hostlist) (hl : List CStr) (p : Plug) (ps : List Plug)
    → is_target hostlist hl p ≡ true
    → targets hostlist hl (p ∷ ps) ≡ p ∷ targets hostlist hl ps
unfolding targets
targets-take hostlist hl p ps h = ground arith

own_actions-cons :
    (dev : Device) (pm : Com) (r : Request) (p : Plug) (ps : List Plug)
    → own_actions dev pm r (p ∷ ps) ≡ own_actions dev pm r (p ∷ []) ++ own_actions dev pm r ps
unfolding own_actions singles
own_actions-cons dev pm r p ps = ground arith

own_actions-nil : (dev : Device) (pm : Com) (r : Request) → own_actions dev pm r [] ≡ []
unfolding own_actions singles
own_actions-nil dev pm r = ground arith

scan_plugs-Scanned :
    (hostlist : Hostlist) (dev : Device) (pm : Com) (hl : List CStr) (r : Request)
    (plugs : List Plug) (s : Scan)
    → Scanned hostlist dev pm hl r plugs s (scan_plugs hostlist dev pm hl r plugs s)
unfolding scan_plugs targets all_targets
scan_plugs-Scanned hostlist dev pm hl r [] s = (
  ground arith,
  sym (append-nil s.ranged_plugs),
  sym (append-nil s.new_acts) ∙ ap (λ l. s.new_acts ++ l) (sym (own_actions-nil dev pm r)),
)
scan_plugs-Scanned hostlist dev pm hl r (p ∷ ps) s =
    let (a, b, c) =
      scan_plugs-Scanned hostlist dev pm hl r ps (scan_plug hostlist dev pm hl r s p) in
    let rest = targets hostlist hl ps in
    elim (Bool-cases (is_target hostlist hl p)) [
      | inl t ↦
          let (d, e, f) = scan_plug-take hostlist dev pm hl r s p t in
          (
            ground (arith, a, d, t),
            b
                ∙ ap (λ l. l ++ rest) e
                ∙ append_assoc s.ranged_plugs (p ∷ []) rest
                ∙ ap (λ l. s.ranged_plugs ++ l) (sym (targets-take hostlist hl p ps t)),
            c
                ∙ ap (λ l. l ++ own_actions dev pm r rest) f
                ∙ append_assoc s.new_acts (own_actions dev pm r (p ∷ []))
                    (own_actions dev pm r rest)
                ∙ ap (λ l. s.new_acts ++ l)
                    (sym (own_actions-cons dev pm r p rest)
                      ∙ ap (own_actions dev pm r) (sym (targets-take hostlist hl p ps t))),
          )
      | inr t ↦
          let skip = scan_plug-skip hostlist dev pm hl r s p t in
          let same = sym (targets-skip hostlist hl p ps t) in
          (
            a ∙ ap (λ (u : Scan). u.all && all_targets hostlist hl ps) skip ∙ ground (arith, t),
            b ∙ ap (λ (u : Scan). u.ranged_plugs ++ rest) skip ∙ ap (λ l. s.ranged_plugs ++ l) same,
            c
                ∙ ap (λ (u : Scan). u.new_acts ++ own_actions dev pm r rest) skip
                ∙ ap (λ l. s.new_acts ++ own_actions dev pm r l) same,
          )
    ]

-- The two switches on the versions of the script, at the end of the scan.
scanned_chosen :
    (dev : Device) (pm : Com) (r : Request) (s : Scan) (ps : List Plug)
    → s.ranged_plugs ≡ ps
    → s.new_acts ≡ own_actions dev pm r ps
    → Appends dev (pick dev pm r s.all ps) (enqueue_scanned dev pm r s)
unfolding enqueue_scanned enqueue_version append_action create_action pick
scanned_chosen dev pm r s ps h k = elim (Option-cases (all_script dev pm s.all)) [
  | inr (ncom, e) ↦ rw (e, enqueue_scanned, pick) (refl, refl)
  | inl e ↦ elim (Option-cases (get_ranged_script dev.scripts pm)) [
    | inr (ncom, f) ↦ rw (e, f, enqueue_scanned, pick, h) (refl, refl)
    | inl f ↦ rw (e, f, enqueue_scanned, pick, k) (refl, refl)
  ]
]

-- enqueue_targetted_actions appends the actions that the command calls for to the queue, and counts
-- them: one for the device if its "all" version may serve, or one for all targets if it has a
-- "ranged" version, else one for each target whose command has a script, in the order of the plugs.
pub enqueue_targetted_actions-chosen :
    (hostlist : Hostlist) (dev : Device) (w : World) (pm : Com) (hl : List CStr) (r : Request)
    → Appends dev (chosen hostlist dev pm hl r) (enqueue_targetted_actions hostlist dev w pm hl r)
unfolding enqueue_targetted_actions
enqueue_targetted_actions-chosen hostlist dev w pm hl r =
    let start : Scan = record { all = true; ranged_plugs = []; new_acts = []; world = w } in
    let (a, b, c) = scan_plugs-Scanned hostlist dev pm hl r dev.plugs start in
    let s = scan_plugs hostlist dev pm hl r dev.plugs start in
    subst
      (λ b.
        Appends dev (pick dev pm r b (targets hostlist hl dev.plugs)) (enqueue_scanned dev pm r s))
      a (scanned_chosen dev pm r s (targets hostlist hl dev.plugs) b c)

-- dev_check_actions accepts a command that some device then does nothing for: a device that has
-- only the "all" version of a command other than a query implements it, but if one of its plugs is
-- no target, it gets no action at all, whichever targets it has.
pub all_only_skips :
    (hostlist : Hostlist) (dev : Device) (w : World) (pm ncom : Com) (hl : List CStr) (r : Request)
    → dev.scripts pm ≡ none
    → get_all_script dev.scripts pm ≡ some ncom
    → get_ranged_script dev.scripts pm ≡ none
    → is_query_action pm ≡ false
    → all_targets hostlist hl dev.plugs ≡ false
    → (dev_check_actions hostlist (dev ∷ []) pm hl ≡ true)
      × ((enqueue_targetted_actions hostlist dev w pm hl r).0.acts ≡ dev.acts)
      × ((enqueue_targetted_actions hostlist dev w pm hl r).1 ≡ 0)
unfolding pick own_actions all_script dev_check_actions implements
all_only_skips hostlist dev w pm ncom hl r own all ranged query part =
    let empty : chosen hostlist dev pm hl r ≡ [] = ground arith in
    let q = enqueue_targetted_actions-chosen hostlist dev w pm hl r in
    (
      ground arith,
      ap (λ (d : Device). d.acts) q.0 ∙ ap (λ l. dev.acts ++ l) empty ∙ append-nil dev.acts,
      q.1 ∙ ap length empty,
    )
