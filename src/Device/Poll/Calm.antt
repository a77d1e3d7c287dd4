-- ===== src/Device/Poll/Calm.antt =====
-- Handling a device, reconnecting it and pinging it: no client is touched, no callback gained or lost.
use mathlib.Core.Path.{subst}
use powerman.Base.{
  ℕ, ◌+◌, ◌≡◌, refl, sym, ap, ◌∙◌, inl, inr, Bool, false, not, ◌&&◌, ◌||◌, List, [], ◌∷◌, none,
  arith, if◌then◌else◌, ◌==◌, count-append, All, All-append, is_some, Option-cases, if_both,
  if_cases,
}
use powerman.Commands.{pm_ping}
use powerman.Client.{World, abort}
use powerman.Client.Finish.Pending.{Pending}
use powerman.Device.{Action, Device, Env}
use powerman.Device.Timer.{gettimeofday, timeout_passed, time_to_reconnect}
use powerman.Device.Enqueue.{
  Request, is_connected, enqueue_login, enqueue_login_action, enqueue_plain_action, append_action,
  create_action, new_action, link_arglist, script_world, rewind_action, rewind_first,
}
use powerman.Device.Enqueue.Counting.{rewind_first-owed}
use powerman.Device.Connect.{
  is_log_in, is_not_connected, drop_login, disconnect, disconnect_if, set_link, call_connect,
  connect, reconnect,
}
use powerman.Device.Statement.Clients.{timeout_passed-clients}
use powerman.Device.Process.Callbacks.{
  owes, owed, Balanced, Balanced-clients, destroy_action-clients,
}
use powerman.Device.Process.Balance.{time_to_reconnect-clients}
use powerman.Device.Poll.{
  Ready, Io, Handled, is_connecting, check_ready, handle_read, handle_write, handle_connecting,
  handle_input, handle_output, handle_ready_device, handle_device, enqueue_ping, read_again,
}

-- A login has no callback.
abbrev pub Silent : List Action → Type 0
Silent acts = All (λ (act : Action). (is_log_in act.pm && act.complete_fun) ≡ false) acts

-- No queue has a login with a callback.
abbrev pub AllSilent : List Device → Type 0
AllSilent devs = All (λ (dev : Device). Silent dev.acts) devs

-- No client is touched, and the queue owes what it owed.
pub record Calm (dev : Device) (w : World) (dev' : Device) (w' : World) : Type 0 where
  pub clients : w'.clients ≡ w.clients
  pub owed_same : (i : ℕ) → owed i dev'.acts ≡ owed i dev.acts
  pub silent : Silent dev'.acts

pub Calm-Balanced :
    (m : ℕ → ℕ) (dev dev' : Device) (w w' : World)
    → Calm dev w dev' w'
    → Balanced m dev.acts w
    → Balanced m dev'.acts w'
Calm-Balanced m dev dev' w w' c b =
    Balanced-clients m dev'.acts w w' c.clients
      (λ i. subst (λ n. Pending w i (n + m i)) (sym (c.owed_same i)) (b i))

pub same_queue :
    (dev dev' : Device) (w w' : World)
    → Silent dev.acts
    → w'.clients ≡ w.clients
    → dev'.acts ≡ dev.acts
    → Calm dev w dev' w'
same_queue dev dev' w w' s c q = record {
  clients = c;
  owed_same = λ i. ap (owed i) q;
  silent = subst Silent (sym q) s;
}

rewind_first-Silent : (acts : List Action) → Silent acts → Silent (rewind_first acts)
unfolding rewind_first rewind_action
rewind_first-Silent [] s = tt
rewind_first-Silent (act ∷ acts) s = s

enqueue_login-Calm :
    (dev : Device) (w : World)
    → Silent dev.acts
    → Calm dev w (enqueue_login dev w).0 (enqueue_login dev w).1
unfolding enqueue_login enqueue_login_action create_action link_arglist script_world new_action
    abort
enqueue_login-Calm dev w s = record {
  clients = ground arith;
  owed_same = λ i. rewind_first-owed i dev.acts;
  silent = (refl, rewind_first-Silent dev.acts s);
}

drop_login-Calm :
    (acts : List Action) (w : World)
    → Silent acts
    → ((drop_login acts w).1.clients ≡ w.clients)
      × ((i : ℕ) → owed i (drop_login acts w).0 ≡ owed i acts)
      × Silent (drop_login acts w).0
unfolding drop_login
drop_login-Calm [] w s = (refl, (λ i. refl), tt)
drop_login-Calm (act ∷ acts) w s =
    if_cases
      (λ (r : List Action × World).
        (r.1.clients ≡ w.clients) × ((i : ℕ) → owed i r.0 ≡ owed i (act ∷ acts)) × Silent r.0)
      (is_log_in act.pm) _ _
      (λ h. (destroy_action-clients w act, (λ i. ground (arith, h, s.0)), s.1))
      (λ h. (refl, (λ i. refl), s))

disconnect_if-Calm :
    (env : Env) (dev : Device) (w : World)
    → Silent dev.acts
    → Calm dev w (disconnect_if env dev w).0 (disconnect_if env dev w).1
unfolding disconnect_if disconnect
disconnect_if-Calm env dev w s =
    let (c, o, s') = drop_login-Calm dev.acts w s in
    if_both (λ (r : Device × World). Calm dev w r.0 r.1) (is_not_connected dev.connect_state) _ _
      (same_queue dev dev w w s refl refl) (record { clients = c; owed_same = o; silent = s' })

pub Calm-then :
    (dev d d' : Device) (w v v' : World) → Calm dev w d v → Calm d v d' v' → Calm dev w d' v'
Calm-then dev d d' w v v' p q = record {
  clients = q.clients ∙ p.clients;
  owed_same = λ i. q.owed_same i ∙ p.owed_same i;
  silent = q.silent;
}

connect-Calm :
    (env : Env) (dev : Device) (w : World)
    → Silent dev.acts
    → Calm dev w (connect env dev w).0 (connect env dev w).1
unfolding connect call_connect gettimeofday set_link
connect-Calm env dev w s =
    let (now, w') = gettimeofday env w in
    let dev' = record dev { last_retry = now; retry_count = dev.retry_count + 1 } in
    let (dev'', w'', connected) = call_connect env dev' w' in
    let start = same_queue dev dev'' w w'' s refl refl in
    if_both (λ (r : Device × World). Calm dev w r.0 r.1) connected _ _
      (Calm-then dev dev'' _ w w'' _ start (enqueue_login-Calm dev'' w'' s)) start

pub reconnect-Calm :
    (env : Env) (dev : Device) (w : World) (t : ℕ)
    → Silent dev.acts
    → Calm dev w (reconnect env dev w t).0 (reconnect env dev w t).1
unfolding reconnect
reconnect-Calm env dev w t s =
    let d = disconnect_if-Calm env dev w s in
    let (dev', w') = disconnect_if env dev w in
    let same = time_to_reconnect-clients env w' dev' t in
    let (go, t', w'') = time_to_reconnect env w' dev' t in
    let waited =
      Calm-then dev dev' dev' w w' w'' d (same_queue dev' dev' w' w'' d.silent same refl) in
    if_both (λ (r : Device × World × ℕ). Calm dev w r.0 r.1) go _ _
      (Calm-then dev dev' (connect env dev' w'').0 w w'' (connect env dev' w'').1 waited
        (connect-Calm env dev' w'' d.silent))
      waited

-- The request of a login or a ping, which has no callback.
abbrev no_callback : Request
no_callback = record { complete_fun = false; vpf_fun = false; client_id = 0; arglist = none }

ping_action-Calm :
    (dev : Device) (w : World)
    → Silent dev.acts
    → Calm dev w
        (enqueue_plain_action dev w pm_ping no_callback).0
        (enqueue_plain_action dev w pm_ping no_callback).2
unfolding enqueue_plain_action append_action create_action link_arglist script_world new_action
    abort
ping_action-Calm dev w s =
    let act = new_action dev pm_ping none no_callback in
    record {
      clients = ground arith;
      owed_same = λ i. count-append (owes i) dev.acts (act ∷ []) ∙ omega arith;
      silent =
          All-append (λ (a : Action). (is_log_in a.pm && a.complete_fun) ≡ false) dev.acts
            (act ∷ []) s (refl, tt);
    }

pub enqueue_ping-Calm :
    (env : Env) (dev : Device) (w : World) (t : ℕ)
    → Silent dev.acts
    → Calm dev w (enqueue_ping env dev w t).0 (enqueue_ping env dev w t).1
unfolding enqueue_ping gettimeofday
enqueue_ping-Calm env dev w t s =
    let same = timeout_passed-clients env w dev.last_ping dev.ping_period in
    let (passed, timeleft, w') = timeout_passed env w dev.last_ping dev.ping_period in
    let read = same_queue dev dev w w' s same refl in
    let pinged = ping_action-Calm dev w' s in
    let (dev', n, w'') = enqueue_plain_action dev w' pm_ping no_callback in
    let (now, w''') = gettimeofday env w'' in
    let stamped = record dev' { last_ping = now } in
    let all = Calm-then dev dev dev' w w' w'' read pinged in
    if_both (λ (r : Device × World × ℕ). Calm dev w r.0 r.1)
      (is_some (dev.scripts pm_ping) && not (dev.ping_period == 0)) _ _
      (if_both (λ (r : Device × World × ℕ). Calm dev w r.0 r.1) passed _ _
        (Calm-then dev dev' stamped w w'' w''' all
          (same_queue dev' stamped w'' w''' pinged.silent refl refl))
        read)
      (same_queue dev dev w w s refl refl)

-- What handling a device leaves.
abbrev Handles : Device → World → Handled → Type 0
Handles dev w r = Calm dev w r.0 r.1

handle_input-Calm :
    (env : Env) (io : Io) (input' : Bool) (dev : Device) (w : World)
    → Silent dev.acts
    → Handles dev w (handle_input env io input' dev w)
unfolding handle_input handle_read
handle_input-Calm env io input' dev w s =
    if_both (Handles dev w) input' _ _
      (elim (Option-cases (io.read w.reads dev)) [
        | inl e ↦ rw (e, handle_read) (same_queue dev dev w (read_again w) s refl refl)
        | inr (from', e) ↦ rw (e, handle_read) (same_queue dev _ w (read_again w) s refl refl)
      ])
      (same_queue dev dev w w s refl refl)

handle_write-Calm :
    (io : Io) (dev : Device) (w : World) → Silent dev.acts → Handles dev w (handle_write io dev w)
unfolding handle_write
handle_write-Calm io dev w s = elim (Option-cases (io.write w.reads dev)) [
  | inl e ↦ rw (e, handle_write) (same_queue dev dev w (read_again w) s refl refl)
  | inr (to', e) ↦ rw (e, handle_write) (same_queue dev _ w (read_again w) s refl refl)
]

handle_output-Calm :
    (env : Env) (io : Io) (input' : Bool) (dev : Device) (w : World)
    → Silent dev.acts
    → Handles dev w (handle_output env io input' dev w)
unfolding handle_output
handle_output-Calm env io input' dev w s =
    let wrote = handle_write-Calm io dev w s in
    let (dev', w', failed) = handle_write io dev w in
    if_both (Handles dev w) failed _ _ wrote
      (Calm-then dev dev' _ w w' _ wrote (handle_input-Calm env io input' dev' w' wrote.silent))

handle_connecting-Calm :
    (env : Env) (dev : Device) (w : World)
    → Silent dev.acts
    → Handles dev w (handle_connecting env dev w)
unfolding handle_connecting set_link
handle_connecting-Calm env dev w s =
    let (l, ok) = env.finish_connect w.reads dev in
    let dev' = set_link dev l in
    let linked = same_queue dev dev' w (read_again w) s refl refl in
    if_both (Handles dev w) (not ok) _ _ linked (
      if_both (Handles dev w) (is_connected dev'.connect_state) _ _
        (Calm-then dev dev' _ w (read_again w) _ linked (enqueue_login-Calm dev' (read_again w) s))
        linked)

check_ready-clients : (dev : Device) (w : World) → (check_ready dev w).clients ≡ w.clients
unfolding check_ready abort
check_ready-clients dev w = ground arith

handle_ready_device-Calm :
    (env : Env) (io : Io) (flags : Ready) (dev : Device) (w : World)
    → Silent dev.acts
    → Handles dev w (handle_ready_device env io flags dev w)
unfolding handle_ready_device
handle_ready_device-Calm env io flags dev w s =
    let w' = check_ready dev w in
    let checked = same_queue dev dev w w' s (check_ready-clients dev w) refl in
    if_both (Handles dev w) (flags.hup || flags.err || flags.nval) _ _ checked (
      if_both (Handles dev w) flags.out _ _
        (if_both (Handles dev w) (is_connecting dev.connect_state) _ _
          (Calm-then dev dev _ w w' _ checked (handle_connecting-Calm env dev w' s))
          (Calm-then dev dev _ w w' _ checked (handle_output-Calm env io flags.input dev w' s)))
        (Calm-then dev dev _ w w' _ checked (handle_input-Calm env io flags.input dev w' s)))

pub handle_device-Calm :
    (env : Env) (io : Io) (dev : Device) (w : World)
    → Silent dev.acts
    → Handles dev w (handle_device env io dev w)
unfolding handle_device
handle_device-Calm env io dev w s =
    elim (Option-cases (if is_some dev.fd then io.revents w.reads dev else none)) [
      | inl e ↦ rw (e, handle_device) (same_queue dev dev w w s refl refl)
      | inr (flags, e) ↦ rw (e, handle_device) (handle_ready_device-Calm env io flags dev w s)
    ]
