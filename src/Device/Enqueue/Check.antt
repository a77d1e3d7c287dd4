-- ===== src/Device/Enqueue/Check.antt =====
-- dev_check_actions against what enqueuing does with the command.
use powerman.Base.{
  ◌↔◌, ◌≡◌, refl, inl, inr, Bool, true, false, not, ◌&&◌, List, [], ◌∷◌, some, arith, length, All,
  is_empty, ◌⊎◌, ◌<◌, is_some, Option-cases, Bool-cases,
}
use powerman.CStr.{CStr}
use powerman.Hostlist.{Hostlist}
use powerman.Pluglist.{Plug}
use powerman.Commands.{Com, get_all_script, get_ranged_script}
use powerman.Client.{World}
use powerman.Device.{Device}
use powerman.Device.Enqueue.{
  Request, all_script, enqueue_targetted_actions, command_needs_device, implements,
  dev_check_actions,
}
use powerman.Device.Enqueue.Targets.{
  targets, all_targets, own_actions, singles, pick, enqueue_targetted_actions-chosen,
}

command_needs_device-targets :
    (hostlist : Hostlist) (hl : List CStr) (ps : List Plug)
    → command_needs_device hostlist hl ps ≡ not (is_empty (targets hostlist hl ps))
unfolding command_needs_device targets
command_needs_device-targets hostlist hl [] = refl
command_needs_device-targets hostlist hl (p ∷ ps) =
    ground (arith, command_needs_device-targets hostlist hl ps)

own_actions-pos :
    (dev : Device) (pm : Com) (r : Request) (ps : List Plug)
    → is_empty ps ≡ false
    → (0 < length (own_actions dev pm r ps)) ↔ (is_some (dev.scripts pm) ≡ true)
unfolding own_actions singles
own_actions-pos dev pm r [] h = cc
own_actions-pos dev pm r (p ∷ ps) h = ground arith

all_script-has :
    (dev : Device) (pm ncom : Com) (all : Bool)
    → all_script dev pm all ≡ some ncom
    → is_some (get_all_script dev.scripts pm) ≡ true
unfolding all_script
all_script-has dev pm ncom all h = ground (arith, h)

-- A device with a script, or with its "all" or "ranged" version, is one that gets an action for
-- targets, or one that has the "all" version.
pick-implements :
    (dev : Device) (pm : Com) (r : Request) (all : Bool) (ps : List Plug)
    → is_empty ps ≡ false
    → (implements dev pm ≡ true)
      ↔ ((0 < length (pick dev pm r all ps)) ⊎ (is_some (get_all_script dev.scripts pm) ≡ true))
unfolding implements pick
pick-implements dev pm r all ps h = elim (Option-cases (all_script dev pm all)) [
  | inr (ncom, e) ↦ let has = all_script-has dev pm ncom all e in ground (arith, has, e)
  | inl e ↦ elim (Option-cases (get_ranged_script dev.scripts pm)) [
    | inr (ncom, f) ↦ ground (arith, e, f)
    | inl f ↦ ground (arith, e, f, own_actions-pos dev pm r ps h)
  ]
]

-- What a device does for a command: it powers no target, or gets an action for it, or has an "all"
-- version of it.
abbrev pub Serves : Hostlist → World → Com → List CStr → Request → Device → Type 0
Serves hostlist w pm hl r dev =
    (is_empty (targets hostlist hl dev.plugs) ≡ true)
    ⊎ ((0 < (enqueue_targetted_actions hostlist dev w pm hl r).1)
        ⊎ (is_some (get_all_script dev.scripts pm) ≡ true))

refuses_not : Hostlist → Com → List CStr → Device → Bool
unfolding command_needs_device implements
refuses_not hostlist pm hl dev =
    not (command_needs_device hostlist hl dev.plugs && not (implements dev pm))

refuses_not-Serves :
    (hostlist : Hostlist) (w : World) (pm : Com) (hl : List CStr) (r : Request) (dev : Device)
    → (refuses_not hostlist pm hl dev ≡ true) ↔ Serves hostlist w pm hl r dev
unfolding refuses_not
refuses_not-Serves hostlist w pm hl r dev =
    let ts = targets hostlist hl dev.plugs in
    let needs = command_needs_device-targets hostlist hl dev.plugs in
    let count = (enqueue_targetted_actions-chosen hostlist dev w pm hl r).1 in
    elim (Bool-cases (is_empty ts)) [
      | inl e ↦ ((λ h. inl e), (λ h. ground (arith, needs, e)))
      | inr e ↦
          let (go, back) = pick-implements dev pm r (all_targets hostlist hl dev.plugs) ts e in
          (
            (λ h. elim (go (ground (arith, needs, e, h))) [
              | inl n ↦ inr (inl (omega (arith, n, count)))
              | inr a ↦ inr (inr a)
            ]),
            (λ h. elim h [
              | inl n ↦ absurd (cc (n, e))
              | inr (inl n) ↦ let i = back (inl (omega (arith, n, count))) in ground (arith, i)
              | inr (inr a) ↦ let i = back (inr a) in ground (arith, i)
            ]),
          )
    ]

-- dev_check_actions accepts a command exactly if each device powers no target, or gets at least one
-- action when the command is enqueued, or has an "all" version of the command.
pub dev_check_actions_iff :
    (hostlist : Hostlist) (devs : List Device) (w : World) (pm : Com) (hl : List CStr) (r : Request)
    → dev_check_actions hostlist devs pm hl ≡ true ↔ All (Serves hostlist w pm hl r) devs
unfolding dev_check_actions refuses_not
dev_check_actions_iff hostlist [] w pm hl r = ((λ h. tt), (λ h. refl))
dev_check_actions_iff hostlist (dev ∷ devs) w pm hl r =
    let (go, back) = dev_check_actions_iff hostlist devs w pm hl r in
    let (to, from) = refuses_not-Serves hostlist w pm hl r dev in
    (
      (λ h. (to (ground (arith, h)), go (ground (arith, h)))),
      (λ h. let one = from h.0 in let rest = back h.1 in ground (arith, one, rest)),
    )
