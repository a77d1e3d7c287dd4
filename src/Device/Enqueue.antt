-- ===== src/Device/Enqueue.antt =====
-- device.c: creating actions and putting them on the queues of the devices.
pub mod Rewind
pub mod Targets
pub mod Check
pub mod Counting
pub mod Clients
pub mod Logins
use powerman.Base.{
  ℕ, zero, suc, ◌+◌, ◌≡◌, Bool, true, false, ◌&&◌, ◌||◌, not, List, [], ◌∷◌, ◌++◌, Option, none,
  some, if◌then◌else◌, ◌==◌, ltb, is_some, is_empty, length,
}
use powerman.CStr.{CStr}
use powerman.Hostlist.{Hostlist}
use powerman.Pluglist.{Plug}
use powerman.Arglist.{arglist_link, arglist_unlink}
use powerman.Commands
use powerman.Commands.{
  Com, pm_log_in, pm_log_out, pm_ping, get_all_script, get_ranged_script, is_query_action,
}
use powerman.Client.{World, abort}
use powerman.Client.Finish.{act_esuccess}
use powerman.Device.{
  Stmt, Stmts, nil, cons, ExecCtx, Action, Device, Env, ConnectState, dev_connected,
}

-- list_next on an iterator.
unfoldable pub next_stmt : Stmts → Option Stmt × Stmts
next_stmt nil = (none, nil)
next_stmt (cons s ss) = (some s, ss)

unfoldable pub create_exec_ctx : Stmts → Option (List Plug) → ExecCtx
unfolding next_stmt
create_exec_ctx block plugs = record {
  block = block;
  cur = (next_stmt block).0;
  stmtitr = (next_stmt block).1;
  plugs = plugs;
  plugitr = none;
  processing = false;
}

-- The stack of _rewind_action: the outer context alone, its iterator reset.
unfoldable pub rewind_exec : List ExecCtx → List ExecCtx
unfolding next_stmt
rewind_exec [] = []
rewind_exec (e ∷ []) =
    record e { cur = (next_stmt e.block).0; stmtitr = (next_stmt e.block).1 } ∷ []
rewind_exec (e ∷ outer ∷ rest) = rewind_exec (outer ∷ rest)

unfoldable pub rewind_action : Action → Action
unfolding rewind_exec
rewind_action act = record act { exec = rewind_exec act.exec }

-- What a request hands to each of its actions.
pub record Request : Type 0 where
  pub complete_fun : Bool
  pub vpf_fun : Bool
  pub client_id : ℕ
  pub arglist : Option ℕ

unfoldable pub link_arglist : World → Option ℕ → World
link_arglist w none = w
link_arglist w (some p) = record w { args = arglist_link w.args p }

unfoldable pub unlink_arglist : World → Option ℕ → World
unlink_arglist w none = w
unlink_arglist w (some p) = record w { args = arglist_unlink w.args p }

-- A NULL script fails the assertion of list_iterator_create.
unfoldable pub script_block : Device → Com → Stmts
script_block dev pm = elim (dev.scripts pm) [ none ↦ nil | some block ↦ block ]

unfoldable pub script_world : Device → Com → World → World
script_world dev pm w = if is_some (dev.scripts pm) then w else abort w

unfoldable pub new_action : Device → Com → Option (List Plug) → Request → Action
unfolding create_exec_ctx script_block
new_action dev pm plugs r = record {
  pm = pm;
  exec = create_exec_ctx (script_block dev pm) plugs ∷ [];
  complete_fun = r.complete_fun;
  vpf_fun = r.vpf_fun;
  client_id = r.client_id;
  errnum = act_esuccess;
  time_stamp = 0;
  delay_start = 0;
  arglist = r.arglist;
}

unfoldable pub create_action : World → Device → Com → Option (List Plug) → Request → Action × World
unfolding new_action link_arglist script_world
create_action w dev pm plugs r =
    (new_action dev pm plugs r, link_arglist (script_world dev pm w) r.arglist)

unfoldable pub destroy_action : World → Action → World
unfolding unlink_arglist
destroy_action w act = unlink_arglist w act.arglist

-- list_destroy on a list of actions.
unfoldable pub destroy_actions : World → List Action → World
unfolding destroy_action
destroy_actions w [] = w
destroy_actions w (a ∷ acts) = destroy_actions (destroy_action w a) acts

-- Whether `plug->node` is set and stands in the hostlist.
unfoldable pub is_target : Hostlist → List CStr → Plug → Bool
is_target hostlist hl plug = elim plug.node [
  | none ↦ false
  | some node ↦ is_some (hostlist.find hl node)
]

unfoldable pub command_needs_device : Hostlist → List CStr → List Plug → Bool
unfolding is_target
command_needs_device hostlist hl [] = false
command_needs_device hostlist hl (p ∷ ps) =
    is_target hostlist hl p || command_needs_device hostlist hl ps

-- A device implements a command by a script, or by its "all" or "ranged" version.
unfoldable pub implements : Device → Com → Bool
implements dev pm =
    is_some (dev.scripts pm)
    || (is_some (get_all_script dev.scripts pm) || is_some (get_ranged_script dev.scripts pm))

unfoldable pub dev_check_actions : Hostlist → List Device → Com → List CStr → Bool
unfolding command_needs_device implements
dev_check_actions hostlist [] pm hl = true
dev_check_actions hostlist (dev ∷ devs) pm hl =
    if command_needs_device hostlist hl dev.plugs && not (implements dev pm)
    then false
    else dev_check_actions hostlist devs pm hl

-- The variables of the loop over the plugs in _enqueue_targetted_actions.
pub record Scan : Type 0 where
  pub all : Bool
  pub ranged_plugs : List Plug
  pub new_acts : List Action
  pub world : World

-- One round: the plug is no target, or it joins the ranged plugs and gets an action of its own.
unfoldable pub scan_plug : Hostlist → Device → Com → List CStr → Request → Scan → Plug → Scan
unfolding is_target create_action
scan_plug hostlist dev pm hl r s plug =
    let (act, w) = create_action s.world dev pm (some (plug ∷ [])) r in
    if not (is_target hostlist hl plug)
    then record s { all = false }
    else if is_some (dev.scripts pm)
    then record s {
      ranged_plugs = s.ranged_plugs ++ plug ∷ [];
      new_acts = s.new_acts ++ act ∷ [];
      world = w;
    }
    else record s { ranged_plugs = s.ranged_plugs ++ plug ∷ [] }

unfoldable pub scan_plugs : Hostlist → Device → Com → List CStr → Request → List Plug → Scan → Scan
unfolding scan_plug
scan_plugs hostlist dev pm hl r [] s = s
scan_plugs hostlist dev pm hl r (p ∷ ps) s =
    scan_plugs hostlist dev pm hl r ps (scan_plug hostlist dev pm hl r s p)

-- The device, the number of actions, and the world.
abbrev pub Enqueued : Type 0
Enqueued = Device × ℕ × World

-- list_append(dev->acts, act)
unfoldable pub append_action : Device → Action → Device
append_action dev act = record dev { acts = dev.acts ++ act ∷ [] }

-- The one action for a version of the script; the actions made for each plug are destroyed.
unfoldable pub enqueue_version :
    Device → World → Com → Option (List Plug) → Request → List Action → Enqueued
unfolding create_action append_action destroy_actions
enqueue_version dev w pm plugs r new_acts =
    let (act, w') = create_action w dev pm plugs r in
    (append_action dev act, 1, destroy_actions w' new_acts)

-- The "all" version of the script, if it serves, is none for -1.
unfoldable pub all_script : Device → Com → Bool → Option Com
all_script dev pm all = if all || is_query_action pm then get_all_script dev.scripts pm else none

unfoldable pub enqueue_scanned : Device → Com → Request → Scan → Enqueued
unfolding all_script enqueue_version
enqueue_scanned dev pm r s = elim (all_script dev pm s.all) [
  | some ncom ↦ enqueue_version dev s.world ncom none r s.new_acts
  | none ↦ elim (get_ranged_script dev.scripts pm) [
    | some ncom ↦ enqueue_version dev s.world ncom (some s.ranged_plugs) r s.new_acts
    | none ↦ (record dev { acts = dev.acts ++ s.new_acts }, length s.new_acts, s.world)
  ]
]

unfoldable pub enqueue_targetted_actions :
    Hostlist → Device → World → Com → List CStr → Request → Enqueued
unfolding scan_plugs enqueue_scanned
enqueue_targetted_actions hostlist dev w pm hl r = enqueue_scanned dev pm r (
    scan_plugs hostlist dev pm hl r dev.plugs
      (record { all = true; ranged_plugs = []; new_acts = []; world = w }))

-- The action that a login preempts starts over.
unfoldable pub rewind_first : List Action → List Action
unfolding rewind_action
rewind_first [] = []
rewind_first (act ∷ acts) = rewind_action act ∷ acts

unfoldable pub enqueue_login_action : Device → World → Request → Enqueued
unfolding rewind_first create_action
enqueue_login_action dev w r =
    let (act, w') = create_action w dev pm_log_in none r in
    (record dev { acts = act ∷ rewind_first dev.acts }, 1, w')

unfoldable pub enqueue_plain_action : Device → World → Com → Request → Enqueued
unfolding create_action append_action
enqueue_plain_action dev w pm r =
    let (act, w') = create_action w dev pm none r in (append_action dev act, 1, w')

-- The switch of _enqueue_actions: how a command is put on the queue.
pub data Kind : Type 0 where
  login plain targetted refused : Kind

unfoldable pub kind_of : Com → Kind
kind_of pm_log_in = login
kind_of pm_log_out = plain
kind_of pm_ping = plain
kind_of Commands.pm_power_on = targetted
kind_of Commands.pm_power_off = targetted
kind_of Commands.pm_beacon_on = targetted
kind_of Commands.pm_beacon_off = targetted
kind_of Commands.pm_power_cycle = targetted
kind_of Commands.pm_reset = targetted
kind_of Commands.pm_status_plugs = targetted
kind_of Commands.pm_status_temp = targetted
kind_of Commands.pm_status_beacon = targetted
kind_of _ = refused

-- The branches of the switch.
unfoldable pub enqueue_kind :
    Kind → Hostlist → Device → World → Com → List CStr → Request → Enqueued
unfolding enqueue_login_action enqueue_plain_action enqueue_targetted_actions
enqueue_kind login hostlist dev w pm hl r = enqueue_login_action dev w r
enqueue_kind plain hostlist dev w pm hl r = enqueue_plain_action dev w pm r
enqueue_kind targetted hostlist dev w pm hl r = enqueue_targetted_actions hostlist dev w pm hl r
enqueue_kind refused hostlist dev w pm hl r = (dev, 0, abort w)

unfoldable pub enqueue_actions : Hostlist → Device → World → Com → List CStr → Request → Enqueued
unfolding kind_of enqueue_kind
enqueue_actions hostlist dev w pm hl r = enqueue_kind (kind_of pm) hostlist dev w pm hl r

-- _enqueue_login, of a device that is connected.
unfoldable pub enqueue_login : Device → World → Device × World
unfolding enqueue_login_action
enqueue_login dev w =
    let r : Request = record {
      complete_fun = false;
      vpf_fun = false;
      client_id = 0;
      arglist = none;
    } in
    let (dev', n, w') = enqueue_login_action dev w r in (dev', w')

abbrev pub is_connected : ConnectState → Bool
is_connected dev_connected = true
is_connected _ = false

-- "expedite retries on this device since the user is beating on us"
unfoldable pub expedite : Device → ℕ → Device
expedite dev n =
    if ltb 0 n && not (is_connected dev.connect_state) then record dev { retry_count = 0 } else dev

-- One round of the loop over the devices.
unfoldable pub enqueue_on_device : Hostlist → Device → World → Com → List CStr → Request → Enqueued
unfolding implements command_needs_device enqueue_actions expedite
enqueue_on_device hostlist dev w pm hl r =
    let (dev', n, w') = enqueue_actions hostlist dev w pm hl r in
    if implements dev pm && command_needs_device hostlist hl dev.plugs
    then (expedite dev' n, n, w')
    else (dev, 0, w)

unfoldable pub dev_enqueue_actions :
    Hostlist → List Device → World → Com → List CStr → Request → List Device × ℕ × World
unfolding enqueue_on_device
dev_enqueue_actions hostlist [] w pm hl r = ([], 0, w)
dev_enqueue_actions hostlist (dev ∷ devs) w pm hl r =
    let (dev', n, w') = enqueue_on_device hostlist dev w pm hl r in
    let (devs', m, w'') = dev_enqueue_actions hostlist devs w' pm hl r in (dev' ∷ devs', n + m, w'')
