-- ===== src/Device/Enqueue/Clients.antt =====
-- Enqueuing actions leaves the clients and the counter of their ids alone.
use powerman.Base.{
  ◌≡◌, refl, ◌∙◌, inl, inr, true, not, ◌&&◌, List, [], ◌∷◌, Option, none, some, arith, is_some,
  Option-cases, if_both,
}
use powerman.CStr.{CStr}
use powerman.Hostlist.{Hostlist}
use powerman.Pluglist.{Plug}
use powerman.Commands.{Com, get_ranged_script}
use powerman.Client.{World, abort}
use powerman.Device.{Action, Device}
use powerman.Device.Enqueue.{
  Request, Scan, Kind, Enqueued, login, plain, targetted, refused, kind_of, link_arglist,
  unlink_arglist, script_world, is_target, create_action, destroy_action, destroy_actions,
  scan_plug, scan_plugs, all_script, enqueue_version, enqueue_scanned, enqueue_targetted_actions,
  enqueue_login_action, enqueue_plain_action, enqueue_kind, enqueue_actions, implements,
  command_needs_device, enqueue_on_device, dev_enqueue_actions,
}

abbrev Same : World → World → Type 0
Same w w' = (w'.clients ≡ w.clients) × (w'.cli_id_seq ≡ w.cli_id_seq)

Same-trans : (w w' w'' : World) → Same w w' → Same w' w'' → Same w w''
Same-trans w w' w'' h k = (k.0 ∙ h.0, k.1 ∙ h.1)

create_action-clients :
    (w : World) (dev : Device) (pm : Com) (plugs : Option (List Plug)) (r : Request)
    → Same w (create_action w dev pm plugs r).1
unfolding create_action link_arglist script_world abort
create_action-clients w dev pm plugs r = (ground arith, ground arith)

destroy_actions-clients : (w : World) (acts : List Action) → Same w (destroy_actions w acts)
unfolding destroy_actions destroy_action unlink_arglist
destroy_actions-clients w [] = (refl, refl)
destroy_actions-clients w (act ∷ acts) =
    Same-trans w (destroy_action w act) (destroy_actions (destroy_action w act) acts)
      (ground arith, ground arith) (destroy_actions-clients (destroy_action w act) acts)

scan_plug-clients :
    (hostlist : Hostlist) (dev : Device) (pm : Com) (hl : List CStr) (r : Request) (s : Scan)
    (plug : Plug)
    → Same s.world (scan_plug hostlist dev pm hl r s plug).world
unfolding scan_plug
scan_plug-clients hostlist dev pm hl r s plug =
    if_both (λ (u : Scan). Same s.world u.world) (not (is_target hostlist hl plug)) _ _ (refl, refl)
      (if_both (λ (u : Scan). Same s.world u.world) (is_some (dev.scripts pm)) _ _
        (create_action-clients s.world dev pm (some (plug ∷ [])) r) (refl, refl))

scan_plugs-clients :
    (hostlist : Hostlist) (dev : Device) (pm : Com) (hl : List CStr) (r : Request)
    (plugs : List Plug) (s : Scan)
    → Same s.world (scan_plugs hostlist dev pm hl r plugs s).world
unfolding scan_plugs
scan_plugs-clients hostlist dev pm hl r [] s = (refl, refl)
scan_plugs-clients hostlist dev pm hl r (p ∷ ps) s =
    let s' = scan_plug hostlist dev pm hl r s p in
    Same-trans s.world s'.world (scan_plugs hostlist dev pm hl r ps s').world
      (scan_plug-clients hostlist dev pm hl r s p) (scan_plugs-clients hostlist dev pm hl r ps s')

version-clients :
    (dev : Device) (w : World) (pm : Com) (plugs : Option (List Plug)) (r : Request)
    (new : List Action)
    → Same w (enqueue_version dev w pm plugs r new).2
unfolding enqueue_version
version-clients dev w pm plugs r new =
    let w' = (create_action w dev pm plugs r).1 in
    Same-trans w w' (destroy_actions w' new) (create_action-clients w dev pm plugs r)
      (destroy_actions-clients w' new)

scanned-clients :
    (dev : Device) (pm : Com) (r : Request) (s : Scan) → Same s.world (enqueue_scanned dev pm r s).2
unfolding enqueue_scanned
scanned-clients dev pm r s = elim (Option-cases (all_script dev pm s.all)) [
  | inr (ncom, e) ↦ rw (e, enqueue_scanned) (version-clients dev s.world ncom none r s.new_acts)
  | inl e ↦ elim (Option-cases (get_ranged_script dev.scripts pm)) [
    | inr (ncom, f) ↦
        rw (e, f, enqueue_scanned)
          (version-clients dev s.world ncom (some s.ranged_plugs) r s.new_acts)
    | inl f ↦ rw (e, f, enqueue_scanned) (refl, refl)
  ]
]

kind-clients :
    (k : Kind) (hostlist : Hostlist) (dev : Device) (w : World) (pm : Com) (hl : List CStr)
    (r : Request)
    → Same w (enqueue_kind k hostlist dev w pm hl r).2
unfolding enqueue_kind enqueue_login_action enqueue_plain_action enqueue_targetted_actions abort
kind-clients login hostlist dev w pm hl r = create_action-clients w dev _ none r
kind-clients plain hostlist dev w pm hl r = create_action-clients w dev pm none r
kind-clients targetted hostlist dev w pm hl r =
    let start : Scan = record { all = true; ranged_plugs = []; new_acts = []; world = w } in
    let s = scan_plugs hostlist dev pm hl r dev.plugs start in
    Same-trans w s.world (enqueue_scanned dev pm r s).2
      (scan_plugs-clients hostlist dev pm hl r dev.plugs start) (scanned-clients dev pm r s)
kind-clients refused hostlist dev w pm hl r = (refl, refl)

on_device-clients :
    (hostlist : Hostlist) (dev : Device) (w : World) (pm : Com) (hl : List CStr) (r : Request)
    → Same w (enqueue_on_device hostlist dev w pm hl r).2
unfolding enqueue_on_device enqueue_actions
on_device-clients hostlist dev w pm hl r =
    if_both (λ (e : Enqueued). Same w e.2)
      (implements dev pm && command_needs_device hostlist hl dev.plugs) _ _
      (kind-clients (kind_of pm) hostlist dev w pm hl r) (refl, refl)

dev_enqueue_actions-Same :
    (hostlist : Hostlist) (devs : List Device) (w : World) (pm : Com) (hl : List CStr) (r : Request)
    → Same w (dev_enqueue_actions hostlist devs w pm hl r).2
unfolding dev_enqueue_actions
dev_enqueue_actions-Same hostlist [] w pm hl r = (refl, refl)
dev_enqueue_actions-Same hostlist (dev ∷ devs) w pm hl r =
    let w' = (enqueue_on_device hostlist dev w pm hl r).2 in
    Same-trans w w' (dev_enqueue_actions hostlist devs w' pm hl r).2
      (on_device-clients hostlist dev w pm hl r) (dev_enqueue_actions-Same hostlist devs w' pm hl r)

pub dev_enqueue_actions-clients :
    (hostlist : Hostlist) (devs : List Device) (w : World) (pm : Com) (hl : List CStr) (r : Request)
    → (dev_enqueue_actions hostlist devs w pm hl r).2.clients ≡ w.clients
dev_enqueue_actions-clients hostlist devs w pm hl r =
    (dev_enqueue_actions-Same hostlist devs w pm hl r).0

pub dev_enqueue_actions-seq :
    (hostlist : Hostlist) (devs : List Device) (w : World) (pm : Com) (hl : List CStr) (r : Request)
    → (dev_enqueue_actions hostlist devs w pm hl r).2.cli_id_seq ≡ w.cli_id_seq
dev_enqueue_actions-seq hostlist devs w pm hl r =
    (dev_enqueue_actions-Same hostlist devs w pm hl r).1
