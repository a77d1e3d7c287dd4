-- ===== src/Device/Connect.antt =====
-- device.c: connecting and disconnecting a device.
use powerman.Base.{ℕ, ◌+◌, Bool, true, false, List, [], ◌∷◌, if◌then◌else◌}
use powerman.Commands.{Com, pm_log_in}
use powerman.Client.{World}
use powerman.Device.{Action, Device, Env, Link, ConnectState, dev_not_connected}
use powerman.Device.Timer.{gettimeofday, time_to_reconnect}
use powerman.Device.Enqueue.{destroy_action, enqueue_login}

abbrev pub is_log_in : Com → Bool
is_log_in pm_log_in = true
is_log_in _ = false

abbrev pub is_not_connected : ConnectState → Bool
is_not_connected dev_not_connected = true
is_not_connected _ = false

-- The queue without a login action at its front, and the world after destroying that.
unfoldable pub drop_login : List Action → World → List Action × World
unfolding destroy_action
drop_login [] w = ([], w)
drop_login (act ∷ acts) w =
    if is_log_in act.pm then (acts, destroy_action w act) else (act ∷ acts, w)

unfoldable pub disconnect : Env → Device → World → Device × World
unfolding drop_login
disconnect env dev w =
    let (acts', w') = drop_login dev.acts w in
    (
      record dev {
        fd = env.disconnect dev;
        from = [];
        to = [];
        connect_state = dev_not_connected;
        logged_in = false;
        acts = acts';
      },
      w',
    )

unfoldable pub set_link : Device → Link → Device
set_link dev l = record dev {
  connect_state = l.connect_state;
  fd = l.fd;
  stat_successful_connects = l.stat_successful_connects;
  to = l.to;
}

-- dev->connect(dev), which reads the environment once more.
unfoldable pub call_connect : Env → Device → World → Device × World × Bool
unfolding set_link
call_connect env dev w =
    let (l, ok) = env.connect w.reads dev in (set_link dev l, record w { reads = w.reads + 1 }, ok)

unfoldable pub connect : Env → Device → World → Device × World
unfolding gettimeofday call_connect enqueue_login
connect env dev w =
    let (now, w') = gettimeofday env w in
    let dev' = record dev { last_retry = now; retry_count = dev.retry_count + 1 } in
    let (dev'', w'', connected) = call_connect env dev' w' in
    if connected then enqueue_login dev'' w'' else (dev'', w'')

unfoldable pub disconnect_if : Env → Device → World → Device × World
unfolding disconnect
disconnect_if env dev w =
    if is_not_connected dev.connect_state then (dev, w) else disconnect env dev w

-- The device, the world and the timeout after _reconnect.
unfoldable pub reconnect : Env → Device → World → ℕ → Device × World × ℕ
unfolding disconnect_if connect
reconnect env dev w timeout =
    let (dev', w') = disconnect_if env dev w in
    let (go, timeout', w'') = time_to_reconnect env w' dev' timeout in
    let (dev'', w''') = connect env dev' w'' in
    if go then (dev'', w''', timeout') else (dev', w'', timeout')
