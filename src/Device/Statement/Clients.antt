-- ===== src/Device/Statement/Clients.antt =====
-- What a statement does to the clients: at most a line of telemetry.
use mathlib.Core.Path.{subst}
use powerman.Base.{
  ℕ, ◌≡◌, refl, sym, inl, inr, Bool, true, false, ◌||◌, List, Option, none, some, arith,
  if◌then◌else◌, Option-cases, if_both,
}
use powerman.CStr.{CStr}
use powerman.Pluglist.{Plug}
use powerman.Arglist.{InterpState}
use powerman.Xregex.{xregex_match_sub_strdup}
use powerman.Client.{World, abort, find_client}
use powerman.Client.Finish.Pending.{Pending, ClientPending, telemetry_printf-Pending}
use powerman.Device.{
  Interp, Stmt, Stmts, send, expect, setplugstate, delay, foreachplug, foreachnode, ifoff, ifon,
  Action, Device, Env,
}
use powerman.Device.Timer.{timeout_passed, gettimeofday}
use powerman.Device.Statement.{
  Exec, vpf, process_stmt, process_foreach, process_ifonoff, if_first, Branch, enter, skip, fail,
  process_expect, process_send, process_setplugstate, process_delay, start_send, start_delay,
  write_send, note_sent, name_world, write_state, set_plug_state, check_arglist, target_name,
  next_plug, next_node, iterator, find_plug, interp_state, first_node, if_branch, plug_state,
}

-- Every client that waits for a number of actions goes on waiting for that number.
abbrev pub KeepsPending : World → World → Type 0
KeepsPending w w' = (i k : ℕ) → Pending w i k → Pending w' i k

pub same_clients : (w w' : World) → w'.clients ≡ w.clients → KeepsPending w w'
same_clients w w' e i k p = subst (λ cs. ClientPending (find_client cs i) k) (sym e) p

pub vpf-KeepsPending : (w : World) (act : Action) (str : CStr) → KeepsPending w (vpf w act str)
unfolding vpf
vpf-KeepsPending w act str =
    if_both (KeepsPending w) act.vpf_fun _ _
      (λ i k p. telemetry_printf-Pending w act.client_id str i k p) (λ i k p. p)

-- A statement keeps what its action owes, and what the clients wait for.
abbrev pub KeepsCallbacks : Exec → Exec → Type 0
KeepsCallbacks x y =
    KeepsPending x.w y.w
    × (y.act.complete_fun ≡ x.act.complete_fun)
    × (y.act.client_id ≡ x.act.client_id)
    × (y.act.pm ≡ x.act.pm)

write_state-clients :
    (w : World) (p : Option ℕ) (host : Option CStr) (state : InterpState) (str : CStr)
    → (write_state w p host state str).clients ≡ w.clients
unfolding write_state abort
write_state-clients w none host state str = ground arith
write_state-clients w (some p) none state str = refl
write_state-clients w (some p) (some host) state str = ground arith

set_plug_state-clients :
    (env : Env) (dev : Device) (w : World) (p : Option ℕ) (name : CStr) (str : Option CStr)
    (interps : List Interp)
    → (set_plug_state env dev w p name str interps).clients ≡ w.clients
unfolding set_plug_state
set_plug_state-clients env dev w p name none interps = refl
set_plug_state-clients env dev w p name (some str) interps =
    elim (Option-cases (find_plug dev name)) [
      | inl e ↦ ground arith
      | inr (plug, e) ↦
          ground
            (arith, write_state-clients w p plug.node (interp_state env.regexec interps str) str)
    ]

abort_if :
    (b : Bool) (w w' : World)
    → w'.clients ≡ w.clients
    → (if b then abort w' else w').clients ≡ w.clients
unfolding abort
abort_if true w w' h = h
abort_if false w w' h = h

name_world-clients :
    (name : Option CStr) (env : Env) (x : Exec) (failed : Bool) (r : Option CStr × Bool)
    (interps : List Interp)
    → (name_world name env x failed r interps).clients ≡ x.w.clients
unfolding name_world
name_world-clients none env x failed (str, failed') interps = abort_if failed x.w x.w refl
name_world-clients (some name) env x failed (str, failed') interps =
    abort_if (failed || failed') x.w _
      (set_plug_state-clients env x.dev x.w x.act.arglist name str interps)

setplugstate-KeepsCallbacks :
    (env : Env) (x : Exec) (a : Option CStr) (b c : Option ℕ) (d : List Interp)
    → KeepsCallbacks x (process_setplugstate env x a b c d)
unfolding process_setplugstate
setplugstate-KeepsCallbacks env x a b c d = (
  same_clients x.w (process_setplugstate env x a b c d).w (
      name_world-clients _ env x (target_name x.dev.xmatch x.e.plugs a b).1
        (xregex_match_sub_strdup x.dev.xmatch c) d),
  refl,
  refl,
  refl,
)

foreach-KeepsCallbacks :
    (x : Exec) (stmts : Stmts) (r : Option Plug × List Plug)
    → KeepsCallbacks x (process_foreach x stmts r)
unfolding process_foreach
foreach-KeepsCallbacks x stmts (none, ps) = ((λ i k p. p), refl, refl, refl)
foreach-KeepsCallbacks x stmts (some plug, ps) = ((λ i k p. p), refl, refl, refl)

if_first-KeepsCallbacks :
    (x : Exec) (stmts : Stmts) (b : Branch) → KeepsCallbacks x (if_first x stmts b)
unfolding if_first
if_first-KeepsCallbacks x stmts enter = ((λ i k p. p), refl, refl, refl)
if_first-KeepsCallbacks x stmts skip = ((λ i k p. p), refl, refl, refl)
if_first-KeepsCallbacks x stmts fail = ((λ i k p. p), refl, refl, refl)

check_arglist-clients :
    (w : World) (p : Option ℕ) (host : Option CStr) → (check_arglist w p host).clients ≡ w.clients
unfolding abort
check_arglist-clients w p host = ground arith

ifonoff-KeepsCallbacks :
    (x : Exec) (on : Bool) (stmts : Stmts) → KeepsCallbacks x (process_ifonoff x on stmts)
unfolding process_ifonoff
ifonoff-KeepsCallbacks x on stmts =
    let w' = check_arglist x.w x.act.arglist (first_node x.e.plugs) in
    let x' = record x { w = w' } in
    let b = if_branch on (plug_state x.w.args x.act x.e.plugs) in
    let q = if_first-KeepsCallbacks x' stmts b in
    let same =
      same_clients x.w w' (check_arglist-clients x.w x.act.arglist (first_node x.e.plugs)) in
    if_both (KeepsCallbacks x) x.e.processing _ (if_first x' stmts b)
      ((λ i k p. p), refl, refl, refl) ((λ i k p. q.0 i k (same i k p)), q.1, q.2, q.3)

expect-KeepsCallbacks :
    (env : Env) (x : Exec) (re : CStr) → KeepsCallbacks x (process_expect env x re)
unfolding process_expect
expect-KeepsCallbacks env x re =
    (if_both (KeepsPending x.w) _ _ _ (vpf-KeepsPending x.w x.act _) (λ i k p. p), refl, refl, refl)

note_sent-KeepsCallbacks :
    (env : Env) (x : Exec) (str : CStr) (r : Option (List ℕ × ℕ))
    → KeepsCallbacks x (note_sent env x str r)
unfolding note_sent
note_sent-KeepsCallbacks env x str none = ((λ i k p. p), refl, refl, refl)
note_sent-KeepsCallbacks env x str (some (to', dropped)) =
    (if_both (KeepsPending x.w) _ _ _ (λ i k p. p) (vpf-KeepsPending x.w x.act _), refl, refl, refl)

write_send-KeepsCallbacks :
    (env : Env) (x : Exec) (str : CStr) → KeepsCallbacks x (write_send env x str)
unfolding write_send
write_send-KeepsCallbacks env x str = note_sent-KeepsCallbacks env x str _

start_send-KeepsCallbacks :
    (env : Env) (x : Exec) (fmt : CStr) → KeepsCallbacks x (start_send env x fmt)
unfolding start_send
start_send-KeepsCallbacks env x fmt =
    if_both (KeepsCallbacks x) x.e.processing _ _ ((λ i k p. p), refl, refl, refl)
      (write_send-KeepsCallbacks env x _)

send-KeepsCallbacks :
    (env : Env) (x : Exec) (fmt : CStr) → KeepsCallbacks x (process_send env x fmt)
unfolding process_send
send-KeepsCallbacks env x fmt =
    let q = start_send-KeepsCallbacks env x fmt in if_both (KeepsCallbacks x) _ _ _ q q

start_delay-KeepsCallbacks :
    (env : Env) (x : Exec) (tv : ℕ) → KeepsCallbacks x (start_delay env x tv)
unfolding start_delay gettimeofday
start_delay-KeepsCallbacks env x tv =
    if_both (KeepsCallbacks x) x.e.processing _ _ ((λ i k p. p), refl, refl, refl)
      (vpf-KeepsPending x.w x.act _, refl, refl, refl)

pub timeout_passed-clients :
    (env : Env) (w : World) (a b : ℕ) → (timeout_passed env w a b).2.clients ≡ w.clients
unfolding timeout_passed
timeout_passed-clients env w a b = ground arith

delay-KeepsCallbacks : (env : Env) (x : Exec) (tv : ℕ) → KeepsCallbacks x (process_delay env x tv)
unfolding process_delay
delay-KeepsCallbacks env x tv =
    let x' = start_delay env x tv in
    let q = start_delay-KeepsCallbacks env x tv in
    let same =
      same_clients x'.w (timeout_passed env x'.w x'.act.delay_start tv).2
        (timeout_passed-clients env x'.w x'.act.delay_start tv) in
    let q' : KeepsCallbacks x
        (record x' { w = (timeout_passed env x'.w x'.act.delay_start tv).2 }) =
      ((λ i k p. same i k (q.0 i k p)), q.1, q.2, q.3) in
    if_both (KeepsCallbacks x) env.short_circuit_delay _ _ q
      (if_both (KeepsCallbacks x) _ _ _ q' q')

pub process_stmt-KeepsCallbacks :
    (env : Env) (x : Exec) (s : Stmt) → KeepsCallbacks x (process_stmt env x s)
unfolding process_stmt
process_stmt-KeepsCallbacks env x (send fmt) = send-KeepsCallbacks env x fmt
process_stmt-KeepsCallbacks env x (expect re) = expect-KeepsCallbacks env x re
process_stmt-KeepsCallbacks env x (setplugstate a b c d) = setplugstate-KeepsCallbacks env x a b c d
process_stmt-KeepsCallbacks env x (delay tv) = delay-KeepsCallbacks env x tv
process_stmt-KeepsCallbacks env x (foreachplug stmts) =
    foreach-KeepsCallbacks x stmts (next_plug (iterator x))
process_stmt-KeepsCallbacks env x (foreachnode stmts) =
    foreach-KeepsCallbacks x stmts (next_node (iterator x))
process_stmt-KeepsCallbacks env x (ifon stmts) = ifonoff-KeepsCallbacks x true stmts
process_stmt-KeepsCallbacks env x (ifoff stmts) = ifonoff-KeepsCallbacks x false stmts
