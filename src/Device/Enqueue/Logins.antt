-- ===== src/Device/Enqueue/Logins.antt =====
-- A power command or a query puts no login on a queue.
use powerman.Base.{
  ◌≡◌, refl, map, if◌then◌else◌, ◌∙◌, ap, inl, inr, Bool, true, false, not, ◌&&◌, List, [], ◌∷◌,
  ◌++◌, Option, none, some, arith, ltb, All, All-append, is_some, Option-cases, if_both, if_cases,
  ◌||◌,
}
use powerman.CStr.{CStr}
use powerman.Hostlist.{Hostlist}
use powerman.Pluglist.{Plug}
use powerman.Commands
use powerman.Commands.{
  Com, all_version, ranged_version, if_script, get_all_script, get_ranged_script, is_query_action,
}
use powerman.Client.{World}
use powerman.Client.Finish.Pending.{is_request}
use powerman.Device.{Action, Device}
use powerman.Device.Connect.{is_log_in}
use powerman.Device.Enqueue.{
  Request, Scan, Kind, Enqueued, login, plain, targetted, refused, kind_of, is_connected, is_target,
  new_action, create_action, scan_plug, scan_plugs, all_script, enqueue_version, append_action,
  enqueue_scanned, enqueue_targetted_actions, enqueue_kind, enqueue_actions, command_needs_device,
  implements, expedite, enqueue_on_device, dev_enqueue_actions,
}

all_version-login : (pm n : Com) → all_version pm ≡ some n → is_log_in n ≡ false
unfolding all_version
all_version-login Commands.pm_log_in n h = ground arith
all_version-login Commands.pm_log_out n h = ground arith
all_version-login Commands.pm_status_plugs n h = ground arith
all_version-login Commands.pm_status_plugs_all n h = ground arith
all_version-login Commands.pm_ping n h = ground arith
all_version-login Commands.pm_power_on n h = ground arith
all_version-login Commands.pm_power_on_ranged n h = ground arith
all_version-login Commands.pm_power_on_all n h = ground arith
all_version-login Commands.pm_power_off n h = ground arith
all_version-login Commands.pm_power_off_ranged n h = ground arith
all_version-login Commands.pm_power_off_all n h = ground arith
all_version-login Commands.pm_power_cycle n h = ground arith
all_version-login Commands.pm_power_cycle_ranged n h = ground arith
all_version-login Commands.pm_power_cycle_all n h = ground arith
all_version-login Commands.pm_reset n h = ground arith
all_version-login Commands.pm_reset_ranged n h = ground arith
all_version-login Commands.pm_reset_all n h = ground arith
all_version-login Commands.pm_status_temp n h = ground arith
all_version-login Commands.pm_status_temp_all n h = ground arith
all_version-login Commands.pm_status_beacon n h = ground arith
all_version-login Commands.pm_status_beacon_all n h = ground arith
all_version-login Commands.pm_beacon_on n h = ground arith
all_version-login Commands.pm_beacon_on_ranged n h = ground arith
all_version-login Commands.pm_beacon_off n h = ground arith
all_version-login Commands.pm_beacon_off_ranged n h = ground arith
all_version-login Commands.pm_resolve n h = ground arith

ranged_version-login : (pm n : Com) → ranged_version pm ≡ some n → is_log_in n ≡ false
unfolding ranged_version
ranged_version-login Commands.pm_log_in n h = ground arith
ranged_version-login Commands.pm_log_out n h = ground arith
ranged_version-login Commands.pm_status_plugs n h = ground arith
ranged_version-login Commands.pm_status_plugs_all n h = ground arith
ranged_version-login Commands.pm_ping n h = ground arith
ranged_version-login Commands.pm_power_on n h = ground arith
ranged_version-login Commands.pm_power_on_ranged n h = ground arith
ranged_version-login Commands.pm_power_on_all n h = ground arith
ranged_version-login Commands.pm_power_off n h = ground arith
ranged_version-login Commands.pm_power_off_ranged n h = ground arith
ranged_version-login Commands.pm_power_off_all n h = ground arith
ranged_version-login Commands.pm_power_cycle n h = ground arith
ranged_version-login Commands.pm_power_cycle_ranged n h = ground arith
ranged_version-login Commands.pm_power_cycle_all n h = ground arith
ranged_version-login Commands.pm_reset n h = ground arith
ranged_version-login Commands.pm_reset_ranged n h = ground arith
ranged_version-login Commands.pm_reset_all n h = ground arith
ranged_version-login Commands.pm_status_temp n h = ground arith
ranged_version-login Commands.pm_status_temp_all n h = ground arith
ranged_version-login Commands.pm_status_beacon n h = ground arith
ranged_version-login Commands.pm_status_beacon_all n h = ground arith
ranged_version-login Commands.pm_beacon_on n h = ground arith
ranged_version-login Commands.pm_beacon_on_ranged n h = ground arith
ranged_version-login Commands.pm_beacon_off n h = ground arith
ranged_version-login Commands.pm_beacon_off_ranged n h = ground arith
ranged_version-login Commands.pm_resolve n h = ground arith

if_script-some {ℓ} :
    {S : Type ℓ} (scripts : Com → Option S) (v : Option Com) (n : Com)
    → if_script scripts v ≡ some n
    → v ≡ some n
unfolding if_script
if_script-some scripts none n h = h
if_script-some scripts (some v) n h = ground (arith, h)

-- Actions of a command that is no login.
abbrev NoLogins : List Action → Type 0
NoLogins acts = All (λ (act : Action). is_log_in act.pm ≡ false) acts

scan_plugs-NoLogins :
    (hostlist : Hostlist) (dev : Device) (pm : Com) (hl : List CStr) (r : Request)
    (plugs : List Plug) (s : Scan)
    → is_log_in pm ≡ false
    → NoLogins s.new_acts
    → NoLogins (scan_plugs hostlist dev pm hl r plugs s).new_acts
unfolding scan_plugs scan_plug create_action new_action
scan_plugs-NoLogins hostlist dev pm hl r [] s h q = q
scan_plugs-NoLogins hostlist dev pm hl r (p ∷ ps) s h q =
    scan_plugs-NoLogins hostlist dev pm hl r ps (scan_plug hostlist dev pm hl r s p) h (
      if_both (λ (u : Scan). NoLogins u.new_acts) (not (is_target hostlist hl p)) _ _ q
        (if_both (λ (u : Scan). NoLogins u.new_acts) (is_some (dev.scripts pm)) _ _
          (All-append (λ (act : Action). is_log_in act.pm ≡ false) s.new_acts
            (new_action dev pm (some (p ∷ [])) r ∷ []) q (h, tt))
          q))

-- The logins on a queue.
abbrev pub logins : List Action → List Action
logins [] = []
logins (act ∷ acts) = let rest = logins acts in if is_log_in act.pm then act ∷ rest else rest

logins-append : (acts new : List Action) → NoLogins new → logins (acts ++ new) ≡ logins acts
logins-append [] [] q = refl
logins-append [] (act ∷ new) q = rw (q.0) (logins-append [] new q.1)
logins-append (act ∷ acts) new q = ground (arith, logins-append acts new q)

version-logins :
    (dev : Device) (w : World) (pm : Com) (plugs : Option (List Plug)) (r : Request)
    (new : List Action)
    → is_log_in pm ≡ false
    → logins (enqueue_version dev w pm plugs r new).0.acts ≡ logins dev.acts
unfolding enqueue_version create_action append_action new_action
version-logins dev w pm plugs r new h =
    logins-append dev.acts (new_action dev pm plugs r ∷ []) (h, tt)

all_script-login :
    (dev : Device) (pm : Com) (all : Bool) (n : Com)
    → all_script dev pm all ≡ some n
    → is_log_in n ≡ false
unfolding all_script get_all_script
all_script-login dev pm all n h =
    if_cases (λ (o : Option Com). o ≡ some n → is_log_in n ≡ false) (all || is_query_action pm)
      (get_all_script dev.scripts pm) none
      (λ _ e. all_version-login pm n (if_script-some dev.scripts (all_version pm) n e))
      (λ _ e. absurd (cc e)) h

scanned-logins :
    (dev : Device) (pm : Com) (r : Request) (s : Scan)
    → NoLogins s.new_acts
    → logins (enqueue_scanned dev pm r s).0.acts ≡ logins dev.acts
unfolding enqueue_scanned get_ranged_script
scanned-logins dev pm r s q = elim (Option-cases (all_script dev pm s.all)) [
  | inr (ncom, e) ↦
      rw (e, enqueue_scanned)
        (version-logins dev s.world ncom none r s.new_acts (all_script-login dev pm s.all ncom e))
  | inl e ↦ elim (Option-cases (get_ranged_script dev.scripts pm)) [
    | inr (ncom, f) ↦
        rw (e, f, enqueue_scanned)
          (version-logins dev s.world ncom (some s.ranged_plugs) r s.new_acts
            (ranged_version-login pm ncom (if_script-some dev.scripts (ranged_version pm) ncom f)))
    | inl f ↦ rw (e, f, enqueue_scanned) (logins-append dev.acts s.new_acts q)
  ]
]

-- A command that a client may ask for.
request-targetted :
    (pm : Com) → is_request pm ≡ true → (kind_of pm ≡ targetted) × (is_log_in pm ≡ false)
unfolding kind_of
request-targetted Commands.pm_log_in h = (ground arith, ground arith)
request-targetted Commands.pm_log_out h = (ground arith, ground arith)
request-targetted Commands.pm_status_plugs h = (ground arith, ground arith)
request-targetted Commands.pm_status_plugs_all h = (ground arith, ground arith)
request-targetted Commands.pm_ping h = (ground arith, ground arith)
request-targetted Commands.pm_power_on h = (ground arith, ground arith)
request-targetted Commands.pm_power_on_ranged h = (ground arith, ground arith)
request-targetted Commands.pm_power_on_all h = (ground arith, ground arith)
request-targetted Commands.pm_power_off h = (ground arith, ground arith)
request-targetted Commands.pm_power_off_ranged h = (ground arith, ground arith)
request-targetted Commands.pm_power_off_all h = (ground arith, ground arith)
request-targetted Commands.pm_power_cycle h = (ground arith, ground arith)
request-targetted Commands.pm_power_cycle_ranged h = (ground arith, ground arith)
request-targetted Commands.pm_power_cycle_all h = (ground arith, ground arith)
request-targetted Commands.pm_reset h = (ground arith, ground arith)
request-targetted Commands.pm_reset_ranged h = (ground arith, ground arith)
request-targetted Commands.pm_reset_all h = (ground arith, ground arith)
request-targetted Commands.pm_status_temp h = (ground arith, ground arith)
request-targetted Commands.pm_status_temp_all h = (ground arith, ground arith)
request-targetted Commands.pm_status_beacon h = (ground arith, ground arith)
request-targetted Commands.pm_status_beacon_all h = (ground arith, ground arith)
request-targetted Commands.pm_beacon_on h = (ground arith, ground arith)
request-targetted Commands.pm_beacon_on_ranged h = (ground arith, ground arith)
request-targetted Commands.pm_beacon_off h = (ground arith, ground arith)
request-targetted Commands.pm_beacon_off_ranged h = (ground arith, ground arith)
request-targetted Commands.pm_resolve h = (ground arith, ground arith)

kind-logins :
    (k : Kind) (hostlist : Hostlist) (dev : Device) (w : World) (pm : Com) (hl : List CStr)
    (r : Request)
    → k ≡ targetted
    → is_log_in pm ≡ false
    → logins (enqueue_kind k hostlist dev w pm hl r).0.acts ≡ logins dev.acts
unfolding enqueue_kind enqueue_targetted_actions
kind-logins login hostlist dev w pm hl r k h = absurd (cc k)
kind-logins plain hostlist dev w pm hl r k h = absurd (cc k)
kind-logins refused hostlist dev w pm hl r k h = refl
kind-logins targetted hostlist dev w pm hl r k h = scanned-logins dev pm r _ (
    scan_plugs-NoLogins hostlist dev pm hl r dev.plugs
      (record { all = true; ranged_plugs = []; new_acts = []; world = w }) h tt)

on_device-logins :
    (hostlist : Hostlist) (dev : Device) (w : World) (pm : Com) (hl : List CStr) (r : Request)
    → is_request pm ≡ true
    → logins (enqueue_on_device hostlist dev w pm hl r).0.acts ≡ logins dev.acts
unfolding enqueue_on_device enqueue_actions expedite
on_device-logins hostlist dev w pm hl r ok =
    let (k, h) = request-targetted pm ok in
    let q = kind-logins (kind_of pm) hostlist dev w pm hl r k h in
    let (dev', n, w') = enqueue_kind (kind_of pm) hostlist dev w pm hl r in
    if_both (λ (e : Enqueued). logins e.0.acts ≡ logins dev.acts)
      (implements dev pm && command_needs_device hostlist hl dev.plugs) _ _
      (if_both (λ (d : Device). logins d.acts ≡ logins dev.acts)
        (ltb 0 n && not (is_connected dev'.connect_state)) _ _ q q)
      refl

-- The logins on the queues of all devices.
abbrev pub all_logins : List Device → List (List Action)
all_logins devs = map (λ (dev : Device). logins dev.acts) devs

pub dev_enqueue_actions-logins :
    (hostlist : Hostlist) (devs : List Device) (w : World) (pm : Com) (hl : List CStr) (r : Request)
    → is_request pm ≡ true
    → all_logins (dev_enqueue_actions hostlist devs w pm hl r).0 ≡ all_logins devs
unfolding dev_enqueue_actions
dev_enqueue_actions-logins hostlist [] w pm hl r ok = refl
dev_enqueue_actions-logins hostlist (dev ∷ devs) w pm hl r ok =
    let w' = (enqueue_on_device hostlist dev w pm hl r).2 in
    ap (λ q. q ∷ all_logins (dev_enqueue_actions hostlist devs w' pm hl r).0)
      (on_device-logins hostlist dev w pm hl r ok)
    ∙ ap (λ l. logins dev.acts ∷ l) (dev_enqueue_actions-logins hostlist devs w' pm hl r ok)
