-- ===== src/Device/Process/Bounded.antt =====
-- The iterators in a queue stay within the plugs of the device when it connects and disconnects.
use powerman.Base.{ℕ, if_both, ◌+◌, ◌≡◌, refl, ◌∙◌, List, [], ◌∷◌, none, All}
use powerman.Commands.{pm_log_in}
use powerman.Client.{World}
use powerman.Device.{ExecCtx, Action, Device, Env}
use powerman.Device.Enqueue.{
  enqueue_login, rewind_first, rewind_exec, create_action, new_action, script_block,
}
use powerman.Device.Timer.{gettimeofday, time_to_reconnect}
use powerman.Device.Connect.{
  drop_login, disconnect, disconnect_if, call_connect, connect, reconnect, is_log_in,
  is_not_connected,
}
use powerman.Device.Process.Weight.{Within}
use powerman.Device.Process.Steps.{create-Within}

abbrev pub Bounded : ℕ → List Action → Type 0
Bounded n acts = All (λ (a : Action). All (Within n) a.exec) acts

rewind_exec-Within :
    (n : ℕ) (es : List ExecCtx) → All (Within n) es → All (Within n) (rewind_exec es)
unfolding rewind_exec
rewind_exec-Within n [] b = tt
rewind_exec-Within n (e ∷ []) b = (b.0, tt)
rewind_exec-Within n (e ∷ outer ∷ rest) b = rewind_exec-Within n (outer ∷ rest) b.1

rewind_first-Bounded : (n : ℕ) (acts : List Action) → Bounded n acts → Bounded n (rewind_first acts)
unfolding rewind_first
rewind_first-Bounded n [] b = tt
rewind_first-Bounded n (a ∷ acts) b = (rewind_exec-Within n a.exec b.0, b.1)

drop_login-Bounded :
    (n : ℕ) (acts : List Action) (w : World) → Bounded n acts → Bounded n (drop_login acts w).0
unfolding drop_login
drop_login-Bounded n [] w b = tt
drop_login-Bounded n (a ∷ acts) w b =
    if_both (λ (r : List Action × World). Bounded n r.0) (is_log_in a.pm) _ _ b.1 b

-- Connecting keeps the plugs, and the bound on the iterators.
abbrev pub KeepsBound : Device → Device → Type 0
KeepsBound dev dev' =
    (dev'.plugs ≡ dev.plugs) × ((n : ℕ) → Bounded n dev.acts → Bounded n dev'.acts)

enqueue_login-KeepsBound : (dev : Device) (w : World) → KeepsBound dev (enqueue_login dev w).0
unfolding enqueue_login create_action new_action
enqueue_login-KeepsBound dev w = (
  refl,
  λ n b.
      ((create-Within n (script_block dev pm_log_in) none, tt), rewind_first-Bounded n dev.acts b),
)

connect-KeepsBound : (env : Env) (dev : Device) (w : World) → KeepsBound dev (connect env dev w).0
unfolding connect call_connect
connect-KeepsBound env dev w =
    let (now, w') = gettimeofday env w in
    let dev' = record dev { last_retry = now; retry_count = dev.retry_count + 1 } in
    let (dev'', w'', connected) = call_connect env dev' w' in
    if_both (λ (r : Device × World). KeepsBound dev r.0) connected _ _
      (enqueue_login-KeepsBound dev'' w'') (refl, λ n b. b)

disconnect_if-KeepsBound :
    (env : Env) (dev : Device) (w : World) → KeepsBound dev (disconnect_if env dev w).0
unfolding disconnect_if disconnect
disconnect_if-KeepsBound env dev w =
    if_both (λ (r : Device × World). KeepsBound dev r.0) (is_not_connected dev.connect_state) _ _
      (refl, λ n b. b) (refl, λ n b. drop_login-Bounded n dev.acts w b)

pub reconnect-KeepsBound :
    (env : Env) (dev : Device) (w : World) (timeout : ℕ)
    → KeepsBound dev (reconnect env dev w timeout).0
unfolding reconnect
reconnect-KeepsBound env dev w timeout =
    let (dev', w') = disconnect_if env dev w in
    let (go, timeout', w'') = time_to_reconnect env w' dev' timeout in
    let first = disconnect_if-KeepsBound env dev w in
    let second = connect-KeepsBound env dev' w'' in
    if_both (λ (r : Device × World × ℕ). KeepsBound dev r.0) go _ _
      (second.0 ∙ first.0, λ n b. second.1 n (first.1 n b)) first
