-- ===== src/Device/Process.antt =====
-- device.c: _process_action, which works on the queue of a device until it stalls.
pub mod Weight
pub mod Steps
pub mod Bounded
pub mod Runs
pub mod Work
pub mod Ends
pub mod Callbacks
pub mod Balance
pub mod Expiry
use powerman.Base.{
  ℕ, zero, suc, ◌+◌, ◌≡◌, Bool, true, false, not, List, [], ◌∷◌, ◌++◌, Option, none, some,
  if◌then◌else◌, ◌==◌,
}
use powerman.CStr.{CStr, codes}
use powerman.Commands.{Com}
use powerman.Client.{World, abort}
use powerman.Client.Finish.{
  ActError, act_esuccess, act_eexpfail, act_eabort, act_econnecttimeout, act_elogintimeout,
  act_finish, is_success,
}
use powerman.Device.{Stmt, Stmts, ExecCtx, Action, Device, Env}
use powerman.Device.Timer.{gettimeofday, timeout_passed, update_timeout}
use powerman.Device.Enqueue.{next_stmt, destroy_action, is_connected}
use powerman.Device.Connect.{is_log_in, reconnect}
use powerman.Device.Statement.{Exec, process_stmt, vpf}

-- The text of _act_completion, after the device's name.
unfoldable pub completion_text : ActError → CStr
completion_text act_econnecttimeout = codes ": connect timeout"
completion_text act_elogintimeout = codes ": login timeout"
completion_text act_eexpfail = codes ": action timed out waiting for expected response"
completion_text act_eabort = codes ": action aborted due to previous action timeout"
completion_text act_esuccess = []

-- _act_completion, if the action has a callback, and then _destroy_action.
unfoldable pub complete_action : Env → CStr → Action → World → World
unfolding completion_text destroy_action
complete_action env name act w =
    let w' =
      act_finish env.hostlist w act.client_id act.errnum (name ++ completion_text act.errnum) in
    destroy_action (if act.complete_fun then w' else w) act

-- The rest of the queue is aborted.
unfoldable pub abort_actions : Env → CStr → ActError → List Action → World → World
unfolding complete_action
abort_actions env name err [] w = w
abort_actions env name err (act ∷ acts) w =
    abort_actions env name err acts (complete_action env name (record act { errnum = err }) w)

abbrev pub abort_error : ActError → ActError
abort_error act_eexpfail = act_eabort
abort_error err = err

-- The device, the world and the timeout after one round of the loop, and whether it goes on.
pub record Round : Type 0 where
  pub dev : Device
  pub w : World
  pub timeout : ℕ
  pub go_on : Bool

-- "most recently attempted stmt completed with error"
unfoldable pub fail_action : Env → Device → Action → List Action → World → ℕ → Round
unfolding abort_actions complete_action
fail_action env dev act rest w timeout =
    let w' = complete_action env dev.name act w in
    let w'' = abort_actions env dev.name (abort_error act.errnum) rest w' in
    let dev' = record dev { acts = [] } in
    let (dev'', w''', timeout') = reconnect env dev' w'' timeout in
    if is_connected dev.connect_state
    then record { dev = dev''; w = w'''; timeout = timeout'; go_on = false }
    else record { dev = dev'; w = w''; timeout = timeout; go_on = true }

-- "completed action successfully!"
unfoldable pub succeed_action : Env → Device → Action → List Action → World → ℕ → Round
unfolding complete_action
succeed_action env dev act rest w timeout =
    let dev' = record dev {
      logged_in = if is_log_in act.pm then true else dev.logged_in;
      acts = rest;
      stat_successful_actions = dev.stat_successful_actions + 1;
    } in
    record { dev = dev'; w = complete_action env dev.name act w; timeout = timeout; go_on = true }

-- The stack after a statement of its top context is done: the next statement, or the outer context.
unfoldable pub advance : ExecCtx → List ExecCtx → List ExecCtx
unfolding next_stmt
advance e outer = elim e.stmtitr [
  | Stmts.nil ↦ outer
  | Stmts.cons s ss ↦ record e { cur = some s; stmtitr = ss } ∷ outer
]

unfoldable pub next_round : Env → Device → Action → List Action → List ExecCtx → World → ℕ → Round
unfolding succeed_action
next_round env dev act rest [] w timeout =
    succeed_action env dev (record act { exec = [] }) rest w timeout
next_round env dev act rest (e ∷ outer) w timeout = record {
  dev = record dev { acts = record act { exec = e ∷ outer } ∷ rest };
  w = w;
  timeout = timeout;
  go_on = true;
}

-- The do-while loop: a statement that pushes a context is followed by the first one of that. The
-- result has the stack below the top. A NULL current statement is read through.
unfoldable pub run_stmts : ℕ → Env → Exec → List ExecCtx → Option (Exec × List ExecCtx)
run_stmts zero env x outer = none
run_stmts (suc fuel) env x outer = elim x.e.cur [
  | none ↦ some (record x { w = abort x.w; finished = false }, outer)
  | some s ↦
      let x' = process_stmt env (record x { push = none }) s in
      elim x'.push [
        | none ↦ some (x', outer)
        | some e ↦ run_stmts fuel env (record x' { e = e }) (x'.e ∷ outer)
      ]
]

-- The device keeps what the statements changed in it, and its queue.
unfoldable pub stalled_round : Device → Action → List Action → World → ℕ → ℕ → Round
stalled_round dev act rest w timeout timeleft = record {
  dev = record dev { acts = act ∷ rest };
  w = w;
  timeout = update_timeout timeout timeleft;
  go_on = false;
}

unfoldable pub after_stmts : Env → List Action → ℕ → Exec → List ExecCtx → Round
unfolding stalled_round advance next_round fail_action
after_stmts env rest timeleft x outer =
    if not x.finished
    then stalled_round x.dev (record (x.act) { exec = x.e ∷ outer }) rest x.w x.timeout timeleft
    else if is_success x.act.errnum
    then next_round env x.dev x.act rest (advance x.e outer) x.w x.timeout
    else fail_action env x.dev (record (x.act) { exec = x.e ∷ outer }) rest x.w x.timeout

-- "timeout exceeded?"
unfoldable pub timeout_error : Device → ActError
timeout_error dev =
    if not (is_connected dev.connect_state)
    then act_econnecttimeout
    else if dev.logged_in
    then act_eexpfail
    else act_elogintimeout

unfoldable pub timeout_line : Env → Device → CStr
timeout_line env dev =
    if not (is_connected dev.connect_state)
    then codes "connect(" ++ (dev.name ++ codes "): timeout")
    else codes "recv(" ++ (dev.name ++ (codes "): '" ++ (env.memstr dev.from ++ codes "'")))

-- "initialize timeout (action is brand new)"
unfoldable pub stamp : Env → Action → World → Action × World
unfolding gettimeofday
stamp env act w =
    let (now, w') = gettimeofday env w in
    if act.time_stamp == 0 then (record act { time_stamp = now }, w') else (act, w)

-- The action at the front has run out of time.
unfoldable pub expire : Env → Device → Action → List Action → World → ℕ → Round
unfolding timeout_error timeout_line fail_action
expire env dev act rest w timeout =
    fail_action env dev (record act { errnum = timeout_error dev }) rest
      (vpf w act (timeout_line env dev)) timeout

-- "connected - process statements". `depth` bounds the inner loop.
unfoldable pub run_round : ℕ → Env → List Action → ℕ → Exec → List ExecCtx → Option Round
unfolding run_stmts after_stmts
run_round depth env rest timeleft x outer = elim (run_stmts depth env x outer) [
  | none ↦ none
  | some (y, below) ↦ some (after_stmts env rest timeleft y below)
]

abbrev pub start : Device → Action → ExecCtx → World → ℕ → Exec
start dev act e w timeout = record {
  dev = dev;
  act = act;
  e = e;
  w = w;
  timeout = timeout;
  push = none;
  finished = false;
}

-- One round of the loop, on the action at the front and its stack.
unfoldable pub round :
    ℕ → Env → Device → Action → List Action → List ExecCtx → World → ℕ → Option Round
unfolding expire run_round stalled_round
round depth env dev act rest [] w timeout = some (record {
  dev = record dev { acts = act ∷ rest };
  w = abort w;
  timeout = timeout;
  go_on = false;
})
round depth env dev act rest (e ∷ outer) w timeout =
    let (passed, timeleft, w') = timeout_passed env w act.time_stamp dev.timeout in
    if passed
    then some (expire env dev act rest w' timeout)
    else if not (is_connected dev.connect_state)
    then some (stalled_round dev act rest w' timeout timeleft)
    else run_round depth env rest timeleft (start dev act e w' timeout) outer

-- The loop; none when the fuel runs out, of the loop or of an inner loop.
unfoldable pub process_action : ℕ → ℕ → Env → Device → World → ℕ → Option (Device × World × ℕ)
unfolding stamp round
process_action zero depth env dev w timeout = none
process_action (suc fuel) depth env dev w timeout = elim dev.acts [
  | [] ↦ some (dev, w, timeout)
  | act ∷ rest ↦
      let (act', w') = stamp env act w in
      elim (round depth env dev act' rest act'.exec w' timeout)
        as (λ _. Option (Device × World × ℕ)) [
          | none ↦ none
          | some r ↦ elim r.go_on [
            | true ↦ process_action fuel depth env r.dev r.w r.timeout
            | false ↦ some (r.dev, r.w, r.timeout)
          ]
        ]
]
