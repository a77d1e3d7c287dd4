-- ===== src/Device/Poll.antt =====
-- device.c: what the main loop calls before and after poll, for each device.
pub mod Calm
pub mod Silent
pub mod Balance
use powerman.Base.{
  ℕ, ◌+◌, Bool, true, false, ◌&&◌, ◌||◌, not, List, [], ◌∷◌, Option, none, some, if◌then◌else◌,
  ◌==◌, is_some, is_empty,
}
use powerman.Commands.{pm_ping}
use powerman.Client.{World, abort}
use powerman.Device.{Device, Env, ConnectState, dev_not_connected, dev_connecting, dev_connected}
use powerman.Device.Timer.{gettimeofday, timeout_passed, update_timeout}
use powerman.Device.Enqueue.{Request, is_connected, enqueue_login, enqueue_plain_action}
use powerman.Device.Connect.{is_not_connected, set_link, connect, reconnect}
use powerman.Device.Process.{process_action}

-- The poll bits of a file descriptor.
pub record Ready : Type 0 where
  pub hup : Bool
  pub err : Bool
  pub nval : Bool
  pub out : Bool
  pub input : Bool

-- The device's I/O, by the number of earlier readings of the environment: the unread bytes that
-- cbuf_write_from_fd and cbuf_read_to_fd leave, none for a result that is not positive; and the bits
-- that poll set, none for 0.
pub record Io : Type 0 where
  pub read : ℕ → Device → Option (List ℕ)
  pub write : ℕ → Device → Option (List ℕ)
  pub revents : ℕ → Device → Option Ready

abbrev pub is_connecting : ConnectState → Bool
is_connecting dev_connecting = true
is_connecting _ = false

-- The bits that dev_pre_poll asks for, none if there is no file descriptor: the read bit, and the
-- write bit.
unfoldable pub poll_flags : Device → Option (Bool × Bool)
poll_flags dev = elim dev.fd [
  | none ↦ none
  | some fd ↦ some (
    true,
    is_connected dev.connect_state && not (is_empty dev.to) || is_connecting dev.connect_state,
  )
]

-- The device and the world after it was handled, and whether there was an error.
abbrev pub Handled : Type 0
Handled = Device × World × Bool

abbrev pub read_again : World → World
read_again w = record w { reads = w.reads + 1 }

-- _handle_read, and the preprocessing of the input.
unfoldable pub handle_read : Env → Io → Device → World → Handled
handle_read env io dev w = elim (io.read w.reads dev) [
  | none ↦ (dev, read_again w, true)
  | some from' ↦
      let dev' = record dev { from = from' } in
      (record dev' { from = env.preprocess dev' }, read_again w, false)
]

unfoldable pub handle_write : Io → Device → World → Handled
handle_write io dev w = elim (io.write w.reads dev) [
  | none ↦ (dev, read_again w, true)
  | some to' ↦ (record dev { to = to' }, read_again w, false)
]

-- dev->finish_connect(dev), and the login if the device is connected then.
unfoldable pub handle_connecting : Env → Device → World → Handled
unfolding set_link enqueue_login
handle_connecting env dev w =
    let (l, ok) = env.finish_connect w.reads dev in
    let dev' = set_link dev l in
    let (dev'', w') = enqueue_login dev' (read_again w) in
    if not ok
    then (dev', read_again w, true)
    else if is_connected dev'.connect_state
    then (dev'', w', false)
    else (dev', read_again w, false)

-- "ready for reading"
unfoldable pub handle_input : Env → Io → Bool → Device → World → Handled
unfolding handle_read
handle_input env io input' dev w = if input' then handle_read env io dev w else (dev, w, false)

-- The two assertions at the start.
unfoldable pub check_ready : Device → World → World
check_ready dev w =
    if is_not_connected dev.connect_state || not (is_some dev.fd) then abort w else w

unfoldable pub handle_output : Env → Io → Bool → Device → World → Handled
unfolding handle_write handle_input
handle_output env io input' dev w =
    let (dev', w', failed) = handle_write io dev w in
    if failed then (dev', w', true) else handle_input env io input' dev' w'

unfoldable pub handle_ready_device : Env → Io → Ready → Device → World → Handled
unfolding check_ready handle_connecting handle_output handle_input
handle_ready_device env io flags dev w =
    let w' = check_ready dev w in
    if flags.hup || flags.err || flags.nval
    then (dev, w', true)
    else if flags.out
    then (if is_connecting dev.connect_state
        then handle_connecting env dev w'
        else handle_output env io flags.input dev w')
    else handle_input env io flags.input dev w'

-- The device is handled if poll set bits for it.
unfoldable pub handle_device : Env → Io → Device → World → Handled
unfolding handle_ready_device
handle_device env io dev w = elim (if is_some dev.fd then io.revents w.reads dev else none) [
  | none ↦ (dev, w, false)
  | some flags ↦ handle_ready_device env io flags dev w
]

-- The ping, of a device that has a script and a period for it.
unfoldable pub enqueue_ping : Env → Device → World → ℕ → Device × World × ℕ
unfolding timeout_passed gettimeofday update_timeout enqueue_plain_action
enqueue_ping env dev w timeout =
    let r : Request = record {
      complete_fun = false;
      vpf_fun = false;
      client_id = 0;
      arglist = none;
    } in
    let (passed, timeleft, w') = timeout_passed env w dev.last_ping dev.ping_period in
    let (dev', n, w'') = enqueue_plain_action dev w' pm_ping r in
    let (now, w''') = gettimeofday env w'' in
    if is_some (dev.scripts pm_ping) && not (dev.ping_period == 0)
    then (if passed
        then (record dev' { last_ping = now }, w''', timeout)
        else (dev, w', update_timeout timeout timeleft))
    else (dev, w, timeout)

unfoldable pub reconnect_if : Bool → Env → Device → World → ℕ → Device × World × ℕ
unfolding reconnect
reconnect_if failed env dev w timeout =
    if failed || is_not_connected dev.connect_state
    then reconnect env dev w timeout
    else (dev, w, timeout)

unfoldable pub ping_if : Env → Device → World → ℕ → Device × World × ℕ
unfolding enqueue_ping
ping_if env dev w timeout =
    if is_connected dev.connect_state then enqueue_ping env dev w timeout else (dev, w, timeout)

-- One round of the loop of dev_post_poll; the fuel is that of process_action.
unfoldable pub post_poll_device : ℕ → Env → Io → Device → World → ℕ → Option (Device × World × ℕ)
unfolding handle_device reconnect_if ping_if process_action
post_poll_device fuel env io dev w timeout =
    let (dev', w', failed) = handle_device env io dev w in
    let (dev'', w'', timeout') = reconnect_if failed env dev' w' timeout in
    let (dev''', w''', timeout'') = ping_if env dev'' w'' timeout' in
    process_action fuel fuel env dev''' w''' timeout''

unfoldable pub dev_post_poll :
    ℕ → Env → Io → List Device → World → ℕ → Option (List Device × World × ℕ)
unfolding post_poll_device
dev_post_poll fuel env io [] w timeout = some ([], w, timeout)
dev_post_poll fuel env io (dev ∷ devs) w timeout =
    elim (post_poll_device fuel env io dev w timeout) [
      | none ↦ none
      | some (dev', w', timeout') ↦ elim (dev_post_poll fuel env io devs w' timeout') [
        | none ↦ none
        | some (devs', w'', timeout'') ↦ some (dev' ∷ devs', w'', timeout'')
      ]
    ]

-- The loop of dev_initial_connect, with its assertion.
unfoldable pub dev_initial_connect : Env → List Device → World → List Device × World
unfolding connect
dev_initial_connect env [] w = ([], w)
dev_initial_connect env (dev ∷ devs) w =
    let w' = if is_not_connected dev.connect_state then w else abort w in
    let (dev', w'') = connect env dev w' in
    let (devs', w''') = dev_initial_connect env devs w'' in (dev' ∷ devs', w''')
