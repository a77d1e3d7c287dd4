-- ===== src/Device/Enqueue/Counting.antt =====
-- The number of actions that a command puts on the queues, and the callbacks that these owe.
use powerman.Base.{
  ℕ, ◌+◌, ◌≡◌, refl, ap, ◌∙◌, inl, inr, true, not, ◌&&◌, List, [], ◌∷◌, ◌++◌, Option, none, some,
  arith, if◌then◌else◌, ltb, ◌==◌, count-append, length, All, All-append, is_some, Option-cases,
  if_both,
}
use powerman.CStr.{CStr}
use powerman.Hostlist.{Hostlist}
use powerman.Pluglist.{Plug}
use powerman.Commands.{Com, get_ranged_script}
use powerman.Client.{World}
use powerman.Device.{Action, Device}
use powerman.Device.Enqueue.{
  Request, Scan, Kind, Enqueued, login, plain, targetted, refused, kind_of, is_target, new_action,
  create_action, scan_plug, scan_plugs, all_script, enqueue_version, append_action, enqueue_scanned,
  enqueue_targetted_actions, rewind_action, rewind_first, enqueue_login_action,
  enqueue_plain_action, enqueue_actions, enqueue_kind, command_needs_device, implements,
  is_connected, expedite, enqueue_on_device, dev_enqueue_actions,
}
use powerman.Device.Process.Callbacks.{owes, owed}

-- What `n` actions of a request owe the client `i`.
abbrev pub debt : Request → ℕ → ℕ → ℕ
debt r i n = if r.complete_fun && r.client_id == i then n else 0

-- An action that calls back as its request says.
abbrev Serves : Request → Action → Type 0
Serves r act = (act.complete_fun ≡ r.complete_fun) × (act.client_id ≡ r.client_id)

owed-Serves :
    (r : Request) (i : ℕ) (acts : List Action)
    → All (Serves r) acts
    → owed i acts ≡ debt r i (length acts)
owed-Serves r i [] h = ground arith
owed-Serves r i (act ∷ acts) h =
    let rest = owed-Serves r i acts h.1 in ground (arith, rest, h.0.0, h.0.1)

new_action-Serves :
    (dev : Device) (pm : Com) (plugs : Option (List Plug)) (r : Request)
    → Serves r (new_action dev pm plugs r)
unfolding new_action
new_action-Serves dev pm plugs r = (refl, refl)

scan_plug-Serves :
    (hostlist : Hostlist) (dev : Device) (pm : Com) (hl : List CStr) (r : Request) (s : Scan)
    (plug : Plug)
    → All (Serves r) s.new_acts
    → All (Serves r) (scan_plug hostlist dev pm hl r s plug).new_acts
unfolding scan_plug create_action
scan_plug-Serves hostlist dev pm hl r s plug h =
    if_both (λ (u : Scan). All (Serves r) u.new_acts) (not (is_target hostlist hl plug)) _ _ h
      (if_both (λ (u : Scan). All (Serves r) u.new_acts) (is_some (dev.scripts pm)) _ _
        (All-append (Serves r) s.new_acts _ h (new_action-Serves dev pm (some (plug ∷ [])) r, tt))
        h)

scan_plugs-Serves :
    (hostlist : Hostlist) (dev : Device) (pm : Com) (hl : List CStr) (r : Request)
    (plugs : List Plug) (s : Scan)
    → All (Serves r) s.new_acts
    → All (Serves r) (scan_plugs hostlist dev pm hl r plugs s).new_acts
unfolding scan_plugs
scan_plugs-Serves hostlist dev pm hl r [] s h = h
scan_plugs-Serves hostlist dev pm hl r (p ∷ ps) s h =
    scan_plugs-Serves hostlist dev pm hl r ps _ (scan_plug-Serves hostlist dev pm hl r s p h)

-- The queue owes for the actions that the count says, on top of what it owed.
abbrev Counted : Request → ℕ → Device → Enqueued → Type 0
Counted r i dev e = owed i e.0.acts ≡ owed i dev.acts + debt r i e.1

append_acts-Counted :
    (r : Request) (i : ℕ) (acts new : List Action)
    → All (Serves r) new
    → owed i (acts ++ new) ≡ owed i acts + debt r i (length new)
append_acts-Counted r i acts new h =
    count-append (owes i) acts new ∙ ap (λ n. owed i acts + n) (owed-Serves r i new h)

version-Counted :
    (dev : Device) (w : World) (pm : Com) (plugs : Option (List Plug)) (r : Request)
    (new : List Action) (i : ℕ)
    → Counted r i dev (enqueue_version dev w pm plugs r new)
unfolding enqueue_version create_action append_action
version-Counted dev w pm plugs r new i =
    append_acts-Counted r i dev.acts (new_action dev pm plugs r ∷ [])
      (new_action-Serves dev pm plugs r, tt)

scanned-Counted :
    (dev : Device) (pm : Com) (r : Request) (s : Scan) (i : ℕ)
    → All (Serves r) s.new_acts
    → Counted r i dev (enqueue_scanned dev pm r s)
unfolding enqueue_scanned
scanned-Counted dev pm r s i h = elim (Option-cases (all_script dev pm s.all)) [
  | inr (ncom, e) ↦ rw (e, enqueue_scanned) (version-Counted dev s.world ncom none r s.new_acts i)
  | inl e ↦ elim (Option-cases (get_ranged_script dev.scripts pm)) [
    | inr (ncom, f) ↦
        rw (e, f, enqueue_scanned)
          (version-Counted dev s.world ncom (some s.ranged_plugs) r s.new_acts i)
    | inl f ↦ rw (e, f, enqueue_scanned) (append_acts-Counted r i dev.acts s.new_acts h)
  ]
]

pub rewind_first-owed : (i : ℕ) (acts : List Action) → owed i (rewind_first acts) ≡ owed i acts
unfolding rewind_first rewind_action
rewind_first-owed i [] = refl
rewind_first-owed i (act ∷ acts) = refl

login-Counted :
    (dev : Device) (w : World) (r : Request) (i : ℕ)
    → Counted r i dev (enqueue_login_action dev w r)
unfolding enqueue_login_action create_action new_action
login-Counted dev w r i = let same = rewind_first-owed i dev.acts in ground (arith, same)

kind-Counted :
    (k : Kind) (hostlist : Hostlist) (dev : Device) (w : World) (pm : Com) (hl : List CStr)
    (r : Request) (i : ℕ)
    → Counted r i dev (enqueue_kind k hostlist dev w pm hl r)
unfolding enqueue_kind enqueue_plain_action enqueue_targetted_actions create_action append_action
kind-Counted login hostlist dev w pm hl r i = login-Counted dev w r i
kind-Counted plain hostlist dev w pm hl r i =
    append_acts-Counted r i dev.acts (new_action dev pm none r ∷ [])
      (new_action-Serves dev pm none r, tt)
kind-Counted targetted hostlist dev w pm hl r i = scanned-Counted dev pm r _ i (
    scan_plugs-Serves hostlist dev pm hl r dev.plugs
      (record { all = true; ranged_plugs = []; new_acts = []; world = w }) tt)
kind-Counted refused hostlist dev w pm hl r i = ground arith

on_device-Counted :
    (hostlist : Hostlist) (dev : Device) (w : World) (pm : Com) (hl : List CStr) (r : Request)
    (i : ℕ)
    → Counted r i dev (enqueue_on_device hostlist dev w pm hl r)
unfolding enqueue_on_device enqueue_actions expedite
on_device-Counted hostlist dev w pm hl r i =
    let k = kind-Counted (kind_of pm) hostlist dev w pm hl r i in
    let (dev', n, w') = enqueue_kind (kind_of pm) hostlist dev w pm hl r in
    if_both (Counted r i dev) (implements dev pm && command_needs_device hostlist hl dev.plugs) _ _
      (if_both (λ (d : Device). Counted r i dev (d, n, w'))
        (ltb 0 n && not (is_connected dev'.connect_state)) _ _ k k)
      (ground arith)

-- The callbacks that the queues of all devices owe a client.
abbrev pub owed_by : ℕ → List Device → ℕ
owed_by i [] = 0
owed_by i (dev ∷ devs) = owed i dev.acts + owed_by i devs

debt_add : (r : Request) (i n m : ℕ) → debt r i (n + m) ≡ debt r i n + debt r i m
debt_add r i n m = ground arith

-- dev_enqueue_actions returns the number of actions that will call back: over all devices, for each
-- client, the callbacks that the queues owe grow by that number for the client that asked, if the
-- request has a callback, and otherwise not at all.
pub dev_enqueue_actions_counts :
    (hostlist : Hostlist) (devs : List Device) (w : World) (pm : Com) (hl : List CStr) (r : Request)
    (i : ℕ)
    → owed_by i (dev_enqueue_actions hostlist devs w pm hl r).0
      ≡ owed_by i devs + debt r i (dev_enqueue_actions hostlist devs w pm hl r).1
unfolding dev_enqueue_actions
dev_enqueue_actions_counts hostlist [] w pm hl r i = ground arith
dev_enqueue_actions_counts hostlist (dev ∷ devs) w pm hl r i =
    let one = on_device-Counted hostlist dev w pm hl r i in
    let (dev', n, w') = enqueue_on_device hostlist dev w pm hl r in
    let rest = dev_enqueue_actions_counts hostlist devs w' pm hl r i in
    omega (arith, one, rest, debt_add r i n (dev_enqueue_actions hostlist devs w' pm hl r).1)
