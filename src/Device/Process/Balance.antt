-- ===== src/Device/Process/Balance.antt =====
-- The callbacks that the queue of a device owes, through the rounds of _process_action.
use mathlib.Core.Path.{subst}
use powerman.Base.{
  ℕ, zero, suc, ◌+◌, ◌≡◌, refl, sym, ◌∙◌, inl, inr, Bool, true, false, not, List, [], ◌∷◌, Option,
  none, some, arith, ◌==◌, Option-cases, List-cases, if_both,
}
use powerman.Client.{World, abort}
use powerman.Client.Finish.{is_success}
use powerman.Client.Finish.Pending.{Pending}
use powerman.Device.{ExecCtx, Action, Device, Env}
use powerman.Device.Timer.{gettimeofday, timeout_passed, time_to_reconnect}
use powerman.Device.Enqueue.{
  is_connected, enqueue_login, enqueue_login_action, rewind_first, create_action, link_arglist,
  script_world, new_action,
}
use powerman.Device.Connect.{
  drop_login, disconnect, disconnect_if, connect, call_connect, reconnect, is_not_connected,
}
use powerman.Device.Statement.{Exec, vpf}
use powerman.Device.Statement.Clients.{
  KeepsPending, KeepsCallbacks, process_stmt-KeepsCallbacks, vpf-KeepsPending,
  timeout_passed-clients,
}
use powerman.Device.Process.{
  Round, complete_action, abort_actions, abort_error, fail_action, succeed_action, advance,
  next_round, run_stmts, stalled_round, after_stmts, expire, run_round, start, stamp, round,
  process_action, timeout_error, timeout_line,
}
use powerman.Device.Process.Runs.{
  ran_stmt, run_stmts-stuck, run_stmts-stop, run_stmts-push, process_action-none,
  process_action-round, after_round, run_stmts-zero, run_round-none, run_round-some,
  process_action-zero, process_action-out,
}
use powerman.Device.Process.Callbacks.{
  owed, Balanced, Balanced-clients, complete_action-Balanced, abort_actions-Balanced,
}

-- The clients are as in the first world, and the queue owes no callback.
abbrev pub Idle : World → Device × World → Type 0
Idle w r = (r.1.clients ≡ w.clients) × ((i : ℕ) → owed i r.0.acts ≡ 0)

enqueue_login-Idle : (dev : Device) (w : World) → dev.acts ≡ [] → Idle w (enqueue_login dev w)
unfolding enqueue_login enqueue_login_action create_action link_arglist script_world new_action
    abort rewind_first
enqueue_login-Idle dev w h = (ground arith, λ i. rw (h) refl)

connect-Idle : (env : Env) (dev : Device) (w : World) → dev.acts ≡ [] → Idle w (connect env dev w)
unfolding connect call_connect gettimeofday
connect-Idle env dev w h =
    let (now, w') = gettimeofday env w in
    let dev' = record dev { last_retry = now; retry_count = dev.retry_count + 1 } in
    let (dev'', w'', connected) = call_connect env dev' w' in
    if_both (Idle w) connected _ _ (enqueue_login-Idle dev'' w'' h) (refl, λ i. rw (h) refl)

disconnect_if-Idle :
    (env : Env) (dev : Device) (w : World)
    → dev.acts ≡ []
    → ((disconnect_if env dev w).0.acts ≡ []) × ((disconnect_if env dev w).1.clients ≡ w.clients)
unfolding disconnect_if disconnect drop_login
disconnect_if-Idle env dev w h =
    if_both (λ (r : Device × World). (r.0.acts ≡ []) × (r.1.clients ≡ w.clients))
      (is_not_connected dev.connect_state) _ _ (h, refl) (rw (h) refl, rw (h) refl)

pub time_to_reconnect-clients :
    (env : Env) (w : World) (dev : Device) (t : ℕ)
    → (time_to_reconnect env w dev t).2.clients ≡ w.clients
unfolding time_to_reconnect timeout_passed gettimeofday
time_to_reconnect-clients env w dev t = ground arith

pub reconnect-Idle :
    (env : Env) (dev : Device) (w : World) (t : ℕ)
    → dev.acts ≡ []
    → Idle w ((reconnect env dev w t).0, (reconnect env dev w t).1)
unfolding reconnect
reconnect-Idle env dev w t h =
    let d = disconnect_if-Idle env dev w h in
    let (dev', w') = disconnect_if env dev w in
    let same = time_to_reconnect-clients env w' dev' t in
    let (go, t', w'') = time_to_reconnect env w' dev' t in
    let c = connect-Idle env dev' w'' d.0 in
    if_both (λ (r : Device × World × ℕ). Idle w (r.0, r.1)) go _ _ (c.0 ∙ same ∙ d.1, c.1)
      (same ∙ d.1, λ i. rw (d.0) refl)

-- A round leaves the clients waiting for what the queue owes.
abbrev pub Settled : (ℕ → ℕ) → Round → Type 0
Settled m r = Balanced m r.dev.acts r.w

fail_action-Settled :
    (env : Env) (m : ℕ → ℕ) (dev : Device) (act : Action) (rest : List Action) (w : World) (t : ℕ)
    → Balanced m (act ∷ rest) w
    → Settled m (fail_action env dev act rest w t)
unfolding fail_action
fail_action-Settled env m dev act rest w t b =
    let w' = complete_action env dev.name act w in
    let w'' = abort_actions env dev.name (abort_error act.errnum) rest w' in
    let dev' = record dev { acts = [] } in
    let b' =
      abort_actions-Balanced env dev.name (abort_error act.errnum) m rest w'
        (complete_action-Balanced env dev.name m act rest w b) in
    let idle = reconnect-Idle env dev' w'' t refl in
    let r = reconnect env dev' w'' t in
    if_both (Settled m) (is_connected dev.connect_state) _ _
      (Balanced-clients m r.0.acts w'' r.1 idle.0
        (λ i. subst (λ n. Pending w'' i (n + m i)) (sym (idle.1 i)) (b' i)))
      b'

succeed_action-Settled :
    (env : Env) (m : ℕ → ℕ) (dev : Device) (act : Action) (rest : List Action) (w : World) (t : ℕ)
    → Balanced m (act ∷ rest) w
    → Settled m (succeed_action env dev act rest w t)
unfolding succeed_action
succeed_action-Settled env m dev act rest w t b =
    complete_action-Balanced env dev.name m act rest w b

-- Only the callback and its client matter for what an action owes.
same_debts :
    (m : ℕ → ℕ) (act act' : Action) (rest : List Action) (w w' : World)
    → KeepsPending w w'
    → act'.complete_fun ≡ act.complete_fun
    → act'.client_id ≡ act.client_id
    → Balanced m (act ∷ rest) w
    → Balanced m (act' ∷ rest) w'
same_debts m act act' rest w w' keeps f c b i =
    let same : owed i (act' ∷ rest) ≡ owed i (act ∷ rest) = ground (arith, f, c) in
    subst (λ n. Pending w' i (n + m i)) (sym same) (keeps i _ (b i))

next_round-Settled :
    (env : Env) (m : ℕ → ℕ) (dev : Device) (act : Action) (rest : List Action) (es : List ExecCtx)
    (w : World) (t : ℕ)
    → Balanced m (act ∷ rest) w
    → Settled m (next_round env dev act rest es w t)
unfolding next_round
next_round-Settled env m dev act rest [] w t b =
    succeed_action-Settled env m dev (record act { exec = [] }) rest w t b
next_round-Settled env m dev act rest (e ∷ outer) w t b = b

after_stmts-Settled :
    (env : Env) (m : ℕ → ℕ) (rest : List Action) (timeleft : ℕ) (x : Exec) (outer : List ExecCtx)
    → Balanced m (x.act ∷ rest) x.w
    → Settled m (after_stmts env rest timeleft x outer)
unfolding after_stmts stalled_round
after_stmts-Settled env m rest timeleft x outer b = if_both (Settled m) (not x.finished) _ _ b (
    if_both (Settled m) (is_success x.act.errnum) _ _
      (next_round-Settled env m x.dev x.act rest (advance x.e outer) x.w x.timeout b)
      (fail_action-Settled env m x.dev (record (x.act) { exec = x.e ∷ outer }) rest x.w x.timeout
        b))

-- What the inner loop did, if it returned.
unfoldable pub KeptRun : Exec → Option (Exec × List ExecCtx) → Type 0
KeptRun x none = Unit
KeptRun x (some r) = KeepsCallbacks x r.0

KeptRun-after :
    (x y : Exec) (o : Option (Exec × List ExecCtx)) → KeepsCallbacks x y → KeptRun y o → KeptRun x o
unfolding KeptRun
KeptRun-after x y none p q = tt
KeptRun-after x y (some r) p q = ((λ i k h. q.0 i k (p.0 i k h)), q.1 ∙ p.1, q.2 ∙ p.2, q.3 ∙ p.3)

pub run_stmts-KeptRun :
    (fuel : ℕ) (env : Env) (x : Exec) (outer : List ExecCtx)
    → KeptRun x (run_stmts fuel env x outer)
unfolding KeptRun abort
run_stmts-KeptRun zero env x outer = subst (KeptRun x) (sym (run_stmts-zero env x outer)) tt
run_stmts-KeptRun (suc fuel) env x outer = elim (Option-cases x.e.cur) [
  | inl c ↦
      subst (KeptRun x) (sym (run_stmts-stuck fuel env x outer c)) ((λ i k p. p), refl, refl, refl)
  | inr (s, c) ↦
      let y = ran_stmt env x s in
      let kept = process_stmt-KeepsCallbacks env (record x { push = none }) s in
      elim (Option-cases y.push) [
        | inl p ↦ subst (KeptRun x) (sym (run_stmts-stop fuel env x outer s c p)) kept
        | inr (new, p) ↦ subst (KeptRun x) (sym (run_stmts-push fuel env x outer s new c p)) (
            KeptRun-after x (record y { e = new }) _ kept
              (run_stmts-KeptRun fuel env (record y { e = new }) (y.e ∷ outer)))
      ]
]

-- A round that returned, if it did.
unfoldable pub SettledIf : (ℕ → ℕ) → Option Round → Type 0
SettledIf m none = Unit
SettledIf m (some r) = Settled m r

run_round-Settled :
    (depth : ℕ) (env : Env) (m : ℕ → ℕ) (rest : List Action) (timeleft : ℕ) (x : Exec)
    (outer : List ExecCtx)
    → Balanced m (x.act ∷ rest) x.w
    → SettledIf m (run_round depth env rest timeleft x outer)
unfolding run_round SettledIf KeptRun
run_round-Settled depth env m rest timeleft x outer b =
    let kept = run_stmts-KeptRun depth env x outer in
    elim (Option-cases (run_stmts depth env x outer)) [
      | inl e ↦ subst (SettledIf m) (sym (run_round-none depth env rest timeleft x outer e)) tt
      | inr (r, e) ↦
          let k : KeepsCallbacks x r.0 = subst (KeptRun x) e kept in
          subst (SettledIf m) (sym (run_round-some depth env rest timeleft x outer r e)) (
            after_stmts-Settled env m rest timeleft r.0 r.1
              (same_debts m x.act r.0.act rest x.w r.0.w k.0 k.1 k.2 b))
    ]

pub round-Settled :
    (depth : ℕ) (env : Env) (m : ℕ → ℕ) (dev : Device) (act : Action) (rest : List Action)
    (es : List ExecCtx) (w : World) (t : ℕ)
    → Balanced m (act ∷ rest) w
    → SettledIf m (round depth env dev act rest es w t)
unfolding round SettledIf abort stalled_round expire
round-Settled depth env m dev act rest [] w t b = b
round-Settled depth env m dev act rest (e ∷ outer) w t b =
    let (passed, left, w') = timeout_passed env w act.time_stamp dev.timeout in
    let same = timeout_passed-clients env w act.time_stamp dev.timeout in
    let b' = Balanced-clients m (act ∷ rest) w w' same b in
    let line = vpf-KeepsPending w' act (timeout_line env dev) in
    if_both (SettledIf m) passed _ _
      (fail_action-Settled env m dev (record act { errnum = timeout_error dev }) rest
        (vpf w' act (timeout_line env dev)) t
        (same_debts m act (record act { errnum = timeout_error dev }) rest w'
          (vpf w' act (timeout_line env dev)) line refl refl b'))
      (if_both (SettledIf m) (not (is_connected dev.connect_state)) _ _ b'
        (run_round-Settled depth env m rest left (start dev act e w' t) outer b'))

stamp-Balanced :
    (env : Env) (m : ℕ → ℕ) (act : Action) (rest : List Action) (w : World)
    → Balanced m (act ∷ rest) w
    → Balanced m ((stamp env act w).0 ∷ rest) (stamp env act w).1
unfolding stamp gettimeofday
stamp-Balanced env m act rest w b =
    if_both (λ (r : Action × World). Balanced m (r.0 ∷ rest) r.1) (act.time_stamp == 0) _ _ b b

SettledEnd : (ℕ → ℕ) → Option (Device × World × ℕ) → Type 0
SettledEnd m none = Unit
SettledEnd m (some r) = Balanced m r.0.acts r.1

after_round-SettledEnd :
    (fuel depth : ℕ) (env : Env) (m : ℕ → ℕ) (r : Round) (go : Bool)
    → r.go_on ≡ go
    → Balanced m r.dev.acts r.w
    → SettledEnd m (process_action fuel depth env r.dev r.w r.timeout)
    → SettledEnd m (after_round fuel depth env r)
unfolding SettledEnd
after_round-SettledEnd fuel depth env m r true h b more = subst (SettledEnd m) (ground arith) more
after_round-SettledEnd fuel depth env m r false h b more =
    let ends : some (r.dev, r.w, r.timeout) ≡ after_round fuel depth env r = ground arith in
    subst (SettledEnd m) ends b

process_action-SettledEnd :
    (fuel depth : ℕ) (env : Env) (m : ℕ → ℕ) (dev : Device) (w : World) (t : ℕ)
    → Balanced m dev.acts w
    → SettledEnd m (process_action fuel depth env dev w t)
unfolding SettledEnd SettledIf
process_action-SettledEnd zero depth env m dev w t b =
    subst (SettledEnd m) (sym (process_action-zero depth env dev w t)) tt
process_action-SettledEnd (suc fuel) depth env m dev w t b = elim (List-cases dev.acts) [
  | inl e ↦ subst (SettledEnd m) (sym (process_action-none fuel depth env dev w t e)) b
  | inr (act, rest, e) ↦
      let act' = (stamp env act w).0 in
      let w' = (stamp env act w).1 in
      let b' = stamp-Balanced env m act rest w (subst (λ q. Balanced m q w) e b) in
      let one = round-Settled depth env m dev act' rest act'.exec w' t b' in
      elim (Option-cases (round depth env dev act' rest act'.exec w' t)) [
        | inl o ↦
            subst (SettledEnd m) (sym (process_action-out fuel depth env dev w t act rest e o)) tt
        | inr (r, o) ↦
            let c : Settled m r = subst (SettledIf m) o one in
            subst (SettledEnd m) (sym (process_action-round fuel depth env dev w t act rest r e o))
              (after_round-SettledEnd fuel depth env m r r.go_on refl c
                (process_action-SettledEnd fuel depth env m r.dev r.w r.timeout c))
      ]
]

-- _process_action keeps the balance of callbacks: if each client waits for as many actions as the
-- queue of the device has callbacks for it, and those that other queues (`m`) have, then it does so
-- for the queue that _process_action leaves, however many rounds it made, and whether actions
-- completed, failed, timed out, or were aborted by a reconnect.
pub process_action-Balanced :
    (fuel depth : ℕ) (env : Env) (m : ℕ → ℕ) (dev : Device) (w : World) (t : ℕ)
    (r : Device × World × ℕ)
    → process_action fuel depth env dev w t ≡ some r
    → Balanced m dev.acts w
    → Balanced m r.0.acts r.1
unfolding SettledEnd
process_action-Balanced fuel depth env m dev w t r h b =
    subst (SettledEnd m) h (process_action-SettledEnd fuel depth env m dev w t b)
