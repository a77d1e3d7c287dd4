-- ===== src/Device/Poll/Silent.antt =====
-- A login in a queue has no callback, through the rounds of _process_action.
use mathlib.Core.Path.{subst}
use powerman.Base.{
  ℕ, zero, suc, ◌≡◌, refl, sym, ap, ◌∙◌, inl, inr, Bool, true, false, not, ◌&&◌, List, [], ◌∷◌,
  Option, none, some, arith, ◌==◌, Option-cases, List-cases, if_both,
}
use powerman.Client.{World}
use powerman.Client.Finish.{is_success}
use powerman.Device.{ExecCtx, Action, Device, Env}
use powerman.Device.Timer.{gettimeofday, timeout_passed}
use powerman.Device.Enqueue.{is_connected}
use powerman.Device.Connect.{is_log_in}
use powerman.Device.Statement.{Exec, vpf}
use powerman.Device.Statement.Clients.{KeepsCallbacks}
use powerman.Device.Process.{
  Round, complete_action, abort_actions, abort_error, fail_action, succeed_action, advance,
  next_round, run_stmts, stalled_round, after_stmts, expire, run_round, start, stamp, round,
  process_action, timeout_error, timeout_line,
}
use powerman.Device.Process.Runs.{
  process_action-none, process_action-round, after_round, run_round-none, run_round-some,
  process_action-zero, process_action-out,
}
use powerman.Device.Process.Balance.{KeptRun, run_stmts-KeptRun}
use powerman.Device.Poll.Calm.{Silent, reconnect-Calm}

abbrev SilentRound : Round → Type 0
SilentRound r = Silent r.dev.acts

fail_action-Silent :
    (env : Env) (dev : Device) (act : Action) (rest : List Action) (w : World) (t : ℕ)
    → SilentRound (fail_action env dev act rest w t)
unfolding fail_action
fail_action-Silent env dev act rest w t =
    let w' = complete_action env dev.name act w in
    let w'' = abort_actions env dev.name (abort_error act.errnum) rest w' in
    let dev' = record dev { acts = [] } in
    if_both SilentRound (is_connected dev.connect_state) _ _
      (reconnect-Calm env dev' w'' t tt).silent tt

next_round-Silent :
    (env : Env) (dev : Device) (act : Action) (rest : List Action) (es : List ExecCtx) (w : World)
    (t : ℕ)
    → Silent (act ∷ rest)
    → SilentRound (next_round env dev act rest es w t)
unfolding next_round succeed_action
next_round-Silent env dev act rest [] w t s = s.1
next_round-Silent env dev act rest (e ∷ outer) w t s = s

after_stmts-Silent :
    (env : Env) (rest : List Action) (timeleft : ℕ) (x : Exec) (outer : List ExecCtx)
    → Silent (x.act ∷ rest)
    → SilentRound (after_stmts env rest timeleft x outer)
unfolding after_stmts stalled_round
after_stmts-Silent env rest timeleft x outer s = if_both SilentRound (not x.finished) _ _ s (
    if_both SilentRound (is_success x.act.errnum) _ _
      (next_round-Silent env x.dev x.act rest (advance x.e outer) x.w x.timeout s)
      (fail_action-Silent env x.dev (record (x.act) { exec = x.e ∷ outer }) rest x.w x.timeout))

SilentIf : Option Round → Type 0
SilentIf none = Unit
SilentIf (some r) = SilentRound r

-- Only the command and the callback of an action matter.
same_silence :
    (act act' : Action) (rest : List Action)
    → act'.complete_fun ≡ act.complete_fun
    → act'.pm ≡ act.pm
    → Silent (act ∷ rest)
    → Silent (act' ∷ rest)
same_silence act act' rest f p s =
    (ap (λ c. is_log_in act'.pm && c) f ∙ ap (λ pm. is_log_in pm && act.complete_fun) p ∙ s.0, s.1)

run_round-Silent :
    (depth : ℕ) (env : Env) (rest : List Action) (timeleft : ℕ) (x : Exec) (outer : List ExecCtx)
    → Silent (x.act ∷ rest)
    → SilentIf (run_round depth env rest timeleft x outer)
unfolding SilentIf KeptRun
run_round-Silent depth env rest timeleft x outer s =
    let kept = run_stmts-KeptRun depth env x outer in
    elim (Option-cases (run_stmts depth env x outer)) [
      | inl e ↦ subst SilentIf (sym (run_round-none depth env rest timeleft x outer e)) tt
      | inr (r, e) ↦
          let k : KeepsCallbacks x r.0 = subst (KeptRun x) e kept in
          subst SilentIf (sym (run_round-some depth env rest timeleft x outer r e)) (
            after_stmts-Silent env rest timeleft r.0 r.1
              (same_silence x.act r.0.act rest k.1 k.3 s))
    ]

round-Silent :
    (depth : ℕ) (env : Env) (dev : Device) (act : Action) (rest : List Action) (es : List ExecCtx)
    (w : World) (t : ℕ)
    → Silent (act ∷ rest)
    → SilentIf (round depth env dev act rest es w t)
unfolding round SilentIf stalled_round expire
round-Silent depth env dev act rest [] w t s = s
round-Silent depth env dev act rest (e ∷ outer) w t s =
    let (passed, left, w') = timeout_passed env w act.time_stamp dev.timeout in
    if_both SilentIf passed _ _
      (fail_action-Silent env dev (record act { errnum = timeout_error dev }) rest
        (vpf w' act (timeout_line env dev)) t)
      (if_both SilentIf (not (is_connected dev.connect_state)) _ _ s
        (run_round-Silent depth env rest left (start dev act e w' t) outer s))

stamp-Silent :
    (env : Env) (act : Action) (rest : List Action) (w : World)
    → Silent (act ∷ rest)
    → Silent ((stamp env act w).0 ∷ rest)
unfolding stamp gettimeofday
stamp-Silent env act rest w s =
    if_both (λ (r : Action × World). Silent (r.0 ∷ rest)) (act.time_stamp == 0) _ _ s s

SilentEnd : Option (Device × World × ℕ) → Type 0
SilentEnd none = Unit
SilentEnd (some r) = Silent r.0.acts

after_round-SilentEnd :
    (fuel depth : ℕ) (env : Env) (r : Round) (go : Bool)
    → r.go_on ≡ go
    → Silent r.dev.acts
    → SilentEnd (process_action fuel depth env r.dev r.w r.timeout)
    → SilentEnd (after_round fuel depth env r)
unfolding SilentEnd
after_round-SilentEnd fuel depth env r true h s more = subst SilentEnd (ground arith) more
after_round-SilentEnd fuel depth env r false h s more =
    let ends : some (r.dev, r.w, r.timeout) ≡ after_round fuel depth env r = ground arith in
    subst SilentEnd ends s

process_action-SilentEnd :
    (fuel depth : ℕ) (env : Env) (dev : Device) (w : World) (t : ℕ)
    → Silent dev.acts
    → SilentEnd (process_action fuel depth env dev w t)
unfolding SilentEnd SilentIf
process_action-SilentEnd zero depth env dev w t s =
    subst SilentEnd (sym (process_action-zero depth env dev w t)) tt
process_action-SilentEnd (suc fuel) depth env dev w t s = elim (List-cases dev.acts) [
  | inl e ↦ subst SilentEnd (sym (process_action-none fuel depth env dev w t e)) s
  | inr (act, rest, e) ↦
      let act' = (stamp env act w).0 in
      let w' = (stamp env act w).1 in
      let s' = stamp-Silent env act rest w (subst Silent e s) in
      let one = round-Silent depth env dev act' rest act'.exec w' t s' in
      elim (Option-cases (round depth env dev act' rest act'.exec w' t)) [
        | inl o ↦ subst SilentEnd (sym (process_action-out fuel depth env dev w t act rest e o)) tt
        | inr (r, o) ↦
            let c : SilentRound r = subst SilentIf o one in
            subst SilentEnd (sym (process_action-round fuel depth env dev w t act rest r e o)) (
              after_round-SilentEnd fuel depth env r r.go_on refl c
                (process_action-SilentEnd fuel depth env r.dev r.w r.timeout c))
      ]
]

pub process_action-Silent :
    (fuel depth : ℕ) (env : Env) (dev : Device) (w : World) (t : ℕ) (r : Device × World × ℕ)
    → process_action fuel depth env dev w t ≡ some r
    → Silent dev.acts
    → Silent r.0.acts
unfolding SilentEnd
process_action-Silent fuel depth env dev w t r h s =
    subst SilentEnd h (process_action-SilentEnd fuel depth env dev w t s)
