-- ===== src/Device/Statement.antt =====
-- device.c: the interpreter of one script statement, _process_stmt and what it calls.
pub mod Clients
pub mod Send
pub mod PlugState
mod Tests
use powerman.Base.{
  ℕ, zero, suc, ◌+◌, ◌-◌, ◌≡◌, Bool, true, false, ◌&&◌, ◌||◌, not, List, [], ◌∷◌, ◌++◌, map, Option,
  none, some, if◌then◌else◌, ◌==◌, ltb, is_some, is_empty, length, drop,
}
use powerman.CStr.{CStr, codes}
use powerman.Hostlist.{Hostlist}
use powerman.Pluglist.{Plug, PlugList, pluglist_find}
use powerman.Arglist.{
  InterpState, st_unknown, st_off, st_on, Arg, ArgStore, arglist_find, set_arg_at,
}
use powerman.Xregex.{
  Regexec, XregexMatch, xregex_exec, xregex_match_recycle, xregex_match_strlen, xregex_match_strdup,
  xregex_match_sub_strdup, text,
}
use powerman.Client.{World, abort}
use powerman.Client.Finish.{act_eexpfail, telemetry_printf}
use powerman.Device.{
  Interp, Stmt, Stmts, send, expect, setplugstate, delay, foreachplug, foreachnode, ifoff, ifon,
  ExecCtx, Action, Device, Env,
}
use powerman.Device.Timer.{gettimeofday, timeout_passed, update_timeout}
use powerman.Device.Enqueue.{create_exec_ctx}

-- What a statement reads and changes: the device, the action, the context `e` on top of its stack,
-- the world and the timeout; the context that it pushes; and whether it is finished. The queue
-- and the stack stay with the caller.
pub record Exec : Type 0 where
  pub dev : Device
  pub act : Action
  pub e : ExecCtx
  pub w : World
  pub timeout : ℕ
  pub push : Option ExecCtx
  pub finished : Bool

-- act->vpf_fun(act->client_id, …), if the action has it.
unfoldable pub vpf : World → Action → CStr → World
vpf w act str = if act.vpf_fun then telemetry_printf w act.client_id str else w

-- A context for one plug: list_create and list_append of the plug.
abbrev pub one_plug : Plug → Option (List Plug)
one_plug plug = some (plug ∷ [])

-- The plug of the next round, and the iterator after it.
unfoldable pub next_plug : List Plug → Option Plug × List Plug
next_plug [] = (none, [])
next_plug (p ∷ ps) = (some p, ps)

-- do { plug = pluglist_next } while (plug && plug->node == NULL)
unfoldable pub next_node : List Plug → Option Plug × List Plug
next_node [] = (none, [])
next_node (p ∷ ps) = if is_some p.node then (some p, ps) else next_node ps

abbrev pub iterator : Exec → List Plug
iterator x = elim (x.e.plugitr) [ none ↦ x.dev.plugs | some ps ↦ ps ]

unfoldable pub process_foreach : Exec → Stmts → Option Plug × List Plug → Exec
process_foreach x stmts r = elim r.0 [
  | none ↦ record x { e = record (x.e) { plugitr = none }; finished = true }
  | some plug ↦ record x {
    e = record (x.e) { plugitr = some r.1 };
    push = some (create_exec_ctx stmts (one_plug plug));
    finished = true;
  }
]

-- The ArgList of the action, if it is there.
unfoldable pub find_arg : ArgStore → Option ℕ → Option CStr → Option Arg
find_arg s none host = none
find_arg s (some p) host = elim (s.cell p) [ none ↦ none | some al ↦ arglist_find al host ]

-- arglist_find reads its ArgList unless the node is NULL: on a NULL pointer, or on an ArgList that
-- was freed, the program goes wrong.
unfoldable pub is_readable : ArgStore → Option ℕ → Option CStr → Bool
is_readable s p none = true
is_readable s none (some host) = false
is_readable s (some p) (some host) = is_some (s.cell p)

abbrev pub check_arglist : World → Option ℕ → Option CStr → World
check_arglist w p host = if is_readable w.args p host then w else abort w

abbrev pub first_node : Option (List Plug) → Option CStr
first_node (some (plug ∷ _)) = plug.node
first_node _ = none

-- The state of the first plug of the context.
unfoldable pub plug_state : ArgStore → Action → Option (List Plug) → InterpState
unfolding find_arg
plug_state s act none = st_unknown
plug_state s act (some []) = st_unknown
plug_state s act (some (plug ∷ _)) = elim (find_arg s act.arglist plug.node) [
  | none ↦ st_unknown
  | some arg ↦ arg.state
]

-- What an ifon (`on` is true) or ifoff does in a state: enter the block, pass it by, or fail.
pub data Branch : Type 0 where
  enter skip fail : Branch

unfoldable pub if_branch : Bool → InterpState → Branch
if_branch true st_on = enter
if_branch true st_off = skip
if_branch false st_on = skip
if_branch false st_off = enter
if_branch _ st_unknown = fail

unfoldable pub if_first : Exec → Stmts → Branch → Exec
if_first x stmts enter = record x {
  e = record (x.e) { processing = true };
  push = some (create_exec_ctx stmts x.e.plugs);
  finished = true;
}
if_first x stmts skip = record x { finished = true }
if_first x stmts fail = record x { act = record (x.act) { errnum = act_eexpfail }; finished = true }

unfoldable pub process_ifonoff : Exec → Bool → Stmts → Exec
unfolding plug_state if_branch if_first is_readable
process_ifonoff x on stmts =
    if x.e.processing
    then record x { e = record (x.e) { processing = false }; finished = true }
    else if_first (record x { w = check_arglist x.w x.act.arglist (first_node x.e.plugs) }) stmts
        (if_branch on (plug_state x.w.args x.act x.e.plugs))

-- The state of the first interpretation that matches.
unfoldable pub interp_state : Regexec → List Interp → CStr → InterpState
interp_state regexec [] str = st_unknown
interp_state regexec (i ∷ is) str =
    if is_some (regexec i.re str) then i.state else interp_state regexec is str

abbrev pub first_name : Option (List Plug) → Option CStr
first_name (some (plug ∷ _)) = some plug.name
first_name _ = none

-- The plug name: literal, by its match position, or that of the context's first plug; and whether
-- an assertion fails.
unfoldable pub target_name :
    XregexMatch → Option (List Plug) → Option CStr → Option ℕ → Option CStr × Bool
target_name xm plugs (some literal) plug_mp = (some literal, false)
target_name xm plugs none plug_mp =
    let (sub, failed) = xregex_match_sub_strdup xm plug_mp in
    (elim sub [ none ↦ first_name plugs | some name ↦ some name ], failed)

-- `arg->state` and `arg->val` of the plug's node, if the ArgList has it.
unfoldable pub write_state : World → Option ℕ → Option CStr → InterpState → CStr → World
unfolding is_readable
write_state w none host state str = check_arglist w none host
write_state w (some p) none state str = w
write_state w (some p) (some host) state str =
    let w' = check_arglist w (some p) (some host) in
    record w' { args = set_arg_at w.args p host state str }

-- pluglist_find on the device's plugs.
unfoldable pub find_plug : Device → CStr → Option Plug
find_plug dev name = pluglist_find (record { pluglist = dev.plugs; hardwired = false }) name

unfoldable pub set_plug_state :
    Env → Device → World → Option ℕ → CStr → Option CStr → List Interp → World
unfolding find_plug write_state interp_state
set_plug_state env dev w p name none interps = w
set_plug_state env dev w p name (some str) interps = elim (find_plug dev name) [
  | none ↦ w
  | some plug ↦ write_state w p plug.node (interp_state env.regexec interps str) str
]

-- The write, if there is a plug name (the first argument), and the assertions that were made.
unfoldable pub name_world :
    Option CStr → Env → Exec → Bool → Option CStr × Bool → List Interp → World
unfolding set_plug_state
name_world none env x failed (str, failed') interps = if failed then abort x.w else x.w
name_world (some name) env x failed (str, failed') interps =
    let w = set_plug_state env x.dev x.w x.act.arglist name str interps in
    if failed || failed' then abort w else w

unfoldable pub process_setplugstate :
    Env → Exec → Option CStr → Option ℕ → Option ℕ → List Interp → Exec
unfolding target_name name_world
process_setplugstate env x plug_name plug_mp stat_mp interps =
    let (name, failed) = target_name x.dev.xmatch x.e.plugs plug_name plug_mp in
    record x {
      w = name_world name env x failed (xregex_match_sub_strdup x.dev.xmatch stat_mp) interps;
      finished = true;
    }

-- An embedded \0 is read as \377.
unfoldable pub memtrans : List ℕ → CStr
memtrans = map (λ c. if c == 0 then 255 else c)

-- _getregex_buf: none if there is no match; the buffer is consumed up to the end of the match.
unfoldable pub getregex_buf : Regexec → List ℕ → CStr → XregexMatch → List ℕ × XregexMatch × Bool
unfolding memtrans
getregex_buf regexec from re xm =
    let (xm', matched) = xregex_exec regexec re (memtrans from) xm in
    if is_empty from
    then (from, xm, false)
    else if matched
    then (drop (xregex_match_strlen xm') from, xm', true)
    else (from, xm', false)

unfoldable pub process_expect : Env → Exec → CStr → Exec
unfolding getregex_buf
process_expect env x re =
    let (from', xm, matched) =
      getregex_buf env.regexec x.dev.from re (xregex_match_recycle x.dev.xmatch) in
    let line =
      codes "recv("
      ++ (x.dev.name
          ++ (codes "): '" ++ (env.memstr (text (xregex_match_strdup xm)) ++ codes "'"))) in
    record x {
      dev = record (x.dev) { from = from'; xmatch = xm };
      w = if matched then vpf x.w x.act line else x.w;
      finished = matched;
    }

unfoldable pub push_names : Hostlist → List CStr → List Plug → List CStr
push_names hostlist acc [] = acc
push_names hostlist acc (p ∷ ps) = push_names hostlist (hostlist.push acc p.name) ps

-- The argument of the "%s" of a send: none for NULL.
unfoldable pub send_arg : Hostlist → Option (List Plug) → Option CStr
unfolding push_names
send_arg hostlist none = none
send_arg hostlist (some []) = none
send_arg hostlist (some (p ∷ [])) = some p.name
send_arg hostlist (some (p ∷ q ∷ ps)) =
    some (hostlist.ranged_string (hostlist.sort (push_names hostlist [] (p ∷ q ∷ ps))))

-- The buffer after cbuf_write, and the world after the telemetry of a write that dropped nothing.
unfoldable pub note_sent : Env → Exec → CStr → Option (List ℕ × ℕ) → Exec
note_sent env x str none = x
note_sent env x str (some (to', dropped)) =
    let line = codes "send(" ++ (x.dev.name ++ (codes "): '" ++ (env.memstr str ++ codes "'"))) in
    record x {
      dev = record (x.dev) { to = to' };
      w = if ltb 0 dropped then x.w else vpf x.w x.act line;
    }

unfoldable pub write_send : Env → Exec → CStr → Exec
unfolding note_sent
write_send env x str = note_sent env x str (env.cbuf_write x.dev.to str)

-- "first time through?"
unfoldable pub start_send : Env → Exec → CStr → Exec
unfolding send_arg write_send
start_send env x fmt =
    if x.e.processing
    then x
    else let x' = write_send env x (env.hsprintf fmt (send_arg env.hostlist x.e.plugs)) in
      record x' { e = record (x'.e) { processing = true } }

unfoldable pub process_send : Env → Exec → CStr → Exec
unfolding start_send
process_send env x fmt =
    let x' = start_send env x fmt in
    if is_empty x'.dev.to
    then record x' { e = record (x'.e) { processing = false }; finished = true }
    else record x' { finished = false }

-- "first time"; the telemetry line holds the delay, as the parameter prints it.
unfoldable pub start_delay : Env → Exec → ℕ → Exec
start_delay env x tv =
    if x.e.processing
    then x
    else let w' =
        vpf x.w x.act (codes "delay(" ++ (x.dev.name ++ (codes "): " ++ env.timestr tv))) in
      let (now, w'') = gettimeofday env w' in
      record x {
        act = record (x.act) { delay_start = now };
        e = record (x.e) { processing = true };
        w = w'';
      }

unfoldable pub process_delay : Env → Exec → ℕ → Exec
unfolding start_delay
process_delay env x tv =
    let x' = start_delay env x tv in
    let (passed, timeleft, w') = timeout_passed env x'.w x'.act.delay_start tv in
    if env.short_circuit_delay
    then record x' { e = record (x'.e) { processing = false }; finished = true }
    else if passed
    then record x' { e = record (x'.e) { processing = false }; w = w'; finished = true }
    else record x' { w = w'; timeout = update_timeout x'.timeout timeleft; finished = false }

unfoldable pub process_stmt : Env → Exec → Stmt → Exec
unfolding process_expect process_send process_setplugstate process_delay process_foreach
    process_ifonoff
process_stmt env x (expect re) = process_expect env x re
process_stmt env x (send fmt) = process_send env x fmt
process_stmt env x (setplugstate plug_name plug_mp stat_mp interps) =
    process_setplugstate env x plug_name plug_mp stat_mp interps
process_stmt env x (delay tv) = process_delay env x tv
process_stmt env x (foreachplug stmts) = process_foreach x stmts (next_plug (iterator x))
process_stmt env x (foreachnode stmts) = process_foreach x stmts (next_node (iterator x))
process_stmt env x (ifon stmts) = process_ifonoff x true stmts
process_stmt env x (ifoff stmts) = process_ifonoff x false stmts
