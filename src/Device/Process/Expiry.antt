-- ===== src/Device/Process/Expiry.antt =====
-- What _process_action does once the time of the action at the front has passed.
use mathlib.Core.Path.{subst}
use powerman.Base.{
  ℕ, suc, ◌+◌, ◌≤◌, ◌≡◌, refl, ap, ◌∙◌, inl, inr, ◌⊎◌, ◌==◌, true, false, List, [], ◌∷◌, some,
  arith, if_both, Bool-cases,
}
use powerman.Client.{World}
use powerman.Client.Finish.Pending.{Pending}
use powerman.Device.{ExecCtx, Action, Device, Env}
use powerman.Device.Timer.{timeout_passed}
use powerman.Device.Enqueue.{is_connected}
use powerman.Device.Statement.{vpf}
use powerman.Device.Process.{
  Round, complete_action, abort_actions, abort_error, fail_action, expire, timeout_error,
  timeout_line, stamp, round, process_action,
}
use powerman.Device.Process.Runs.{process_action-none, process_action-round, after_round}
use powerman.Device.Process.Callbacks.{owed, Balanced}
use powerman.Device.Process.Balance.{reconnect-Idle, Settled, SettledIf, round-Settled}

-- A round that leaves no callback, and is the last one or leaves no action.
abbrev Empties : Round → Type 0
Empties r = ((i : ℕ) → owed i r.dev.acts ≡ 0) × ((r.go_on ≡ false) ⊎ (r.dev.acts ≡ []))

fail_action-Empties :
    (env : Env) (dev : Device) (act : Action) (rest : List Action) (w : World) (t : ℕ)
    → Empties (fail_action env dev act rest w t)
unfolding fail_action
fail_action-Empties env dev act rest w t =
    let w' = complete_action env dev.name act w in
    let w'' = abort_actions env dev.name (abort_error act.errnum) rest w' in
    let idle = reconnect-Idle env (record dev { acts = [] }) w'' t refl in
    if_both Empties (is_connected dev.connect_state) _ _ (idle.1, inl refl) ((λ i. refl), inr refl)

timeout_passed-late :
    (env : Env) (w : World) (stamp' timeout : ℕ)
    → stamp' + timeout ≤ env.clock w.reads
    → (timeout_passed env w stamp' timeout).0 ≡ true
unfolding timeout_passed
timeout_passed-late env w stamp' timeout late = ground arith

-- The round of an action whose time has passed.
round_expired :
    (depth : ℕ) (env : Env) (dev : Device) (act : Action) (rest : List Action) (e : ExecCtx)
    (outer : List ExecCtx) (w : World) (t : ℕ)
    → act.time_stamp + dev.timeout ≤ env.clock w.reads
    → round depth env dev act rest (e ∷ outer) w t
      ≡ some (expire env dev act rest (timeout_passed env w act.time_stamp dev.timeout).2 t)
unfolding round
round_expired depth env dev act rest e outer w t late =
    rw (timeout_passed-late env w act.time_stamp dev.timeout late) refl

after_round-Empties :
    (fuel depth : ℕ) (env : Env) (r : Round)
    → Empties r
    → after_round (suc fuel) depth env r ≡ some (r.dev, r.w, r.timeout)
after_round-Empties fuel depth env r h = elim (Bool-cases r.go_on) [
  | inl go ↦ elim h.1 [
    | inl stop ↦ cc
    | inr empty ↦ ground (arith, process_action-none fuel depth env r.dev r.w r.timeout empty)
  ]
  | inr stop ↦ ground arith
]

stamp-stamped :
    (env : Env) (act : Action) (w : World)
    → (act.time_stamp == 0) ≡ false
    → stamp env act w ≡ (act, w)
unfolding stamp
stamp-stamped env act w h = rw h refl

-- The expired round, and what the clients wait for after it.
expired :
    (depth : ℕ) (env : Env) (m : ℕ → ℕ) (dev : Device) (act : Action) (rest : List Action)
    (e : ExecCtx) (outer : List ExecCtx) (w : World) (t : ℕ)
    → act.exec ≡ e ∷ outer
    → act.time_stamp + dev.timeout ≤ env.clock w.reads
    → Balanced m (act ∷ rest) w
    → (r : Round) × (round depth env dev act rest act.exec w t ≡ some r) × Empties r × Settled m r
unfolding SettledIf expire
expired depth env m dev act rest e outer w t top late b =
    let w' = (timeout_passed env w act.time_stamp dev.timeout).2 in
    let r = expire env dev act rest w' t in
    let one : round depth env dev act rest act.exec w t ≡ some r =
      ap (λ es. round depth env dev act rest es w t) top
      ∙ round_expired depth env dev act rest e outer w t late in
    (
      r,
      one,
      fail_action-Empties env dev (record act { errnum = timeout_error dev }) rest
          (vpf w' act (timeout_line env dev)) t,
      subst (SettledIf m) one (round-Settled depth env m dev act rest act.exec w t b),
    )

-- When the time of the action at the front has passed, _process_action returns after at most two
-- rounds, whatever the scripts of the queue are. The queue it leaves owes no callback: each client
-- that waited for actions of the device, the expired one or a later one, waits for none of them any
-- more, but only for those that other queues (`m`) have for it.
pub process_action_expires :
    (fuel depth : ℕ) (env : Env) (m : ℕ → ℕ) (dev : Device) (act : Action) (rest : List Action)
    (e : ExecCtx) (outer : List ExecCtx) (w : World) (t : ℕ)
    → dev.acts ≡ act ∷ rest
    → act.exec ≡ e ∷ outer
    → (act.time_stamp == 0) ≡ false
    → act.time_stamp + dev.timeout ≤ env.clock w.reads
    → Balanced m dev.acts w
    → (r : Device × World × ℕ) × (process_action (suc (suc fuel)) depth env dev w t ≡ some r)
      × ((i : ℕ) → (owed i r.0.acts ≡ 0) × Pending r.1 i (m i))
process_action_expires fuel depth env m dev act rest e outer w t queue top stamped late b =
    let b' = subst (λ q. Balanced m q w) queue b in
    let (r, one, empties, settled) = expired depth env m dev act rest e outer w t top late b' in
    let fresh = stamp-stamped env act w stamped in
    let same = ap (λ x. round depth env dev x.0 rest x.0.exec x.1 t) fresh ∙ one in
    (
      (r.dev, r.w, r.timeout),
      process_action-round (suc fuel) depth env dev w t act rest r queue same
          ∙ after_round-Empties fuel depth env r empties,
      λ i. (empties.0 i, subst (Pending r.w i) (omega (arith, empties.0 i)) (settled i)),
    )
