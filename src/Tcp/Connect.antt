-- ===== src/Tcp/Connect.antt =====
-- device_tcp.c: connecting and disconnecting.
pub mod Addresses
use powerman.Base.{
  ℕ, ◌+◌, ◌&&◌, not, Bool, true, false, List, [], ◌∷◌, Option, none, some, if◌then◌else◌, drop,
  is_some, is_empty,
}
use powerman.Device.{Link, dev_not_connected, dev_connecting, dev_connected}
use powerman.Device.Connect.{is_not_connected}
use powerman.Device.Enqueue.{is_connected}
use powerman.Device.Poll.{is_connecting}
use powerman.Tcp.{TcpDev, telnet_init}

-- The result of connect(): 0, the error EINPROGRESS, or another error.
pub data Dialled : Type 0 where
  done in_progress refused : Dialled

-- The system calls: socket(), none for an error; setsockopt(), whether it succeeds; connect(); and
-- whether getsockopt() fails or finds an error pending.
pub record Sockets : Type 0 where
  pub socket : ℕ → Option ℕ
  pub setsockopt : ℕ → Bool
  pub dial : ℕ → ℕ → Dialled
  pub so_error : ℕ → Bool

-- The device's data and a result.
abbrev pub Tried : Type 0
Tried = Link × TcpDev × Bool

-- getsockopt() fails on NO_FD.
unfoldable pub tcp_finish_connect_one : Sockets → Link → TcpDev → Tried
unfolding telnet_init
tcp_finish_connect_one s l tcp =
    if elim l.fd [ none ↦ true | some fd ↦ s.so_error fd ] then (l, tcp, false) else (
      record l {
        connect_state = dev_connected;
        stat_successful_connects = l.stat_successful_connects + 1;
      },
      telnet_init tcp,
      true,
    )

-- What tcp_connect_one does with the socket.
unfoldable pub dial_one : Sockets → Link → TcpDev → ℕ → ℕ → Tried
unfolding tcp_finish_connect_one
dial_one s l tcp addr fd =
    if s.setsockopt fd
    then elim (s.dial fd addr) [
      | done ↦ tcp_finish_connect_one s l tcp
      | in_progress ↦ (l, tcp, true)
      | refused ↦ (l, tcp, false)
    ]
    else (l, tcp, false)

-- A socket that fails leaves -1 in dev->fd, which is NO_FD; a socket that is closed stays there.
unfoldable pub tcp_connect_one : Sockets → Link → TcpDev → ℕ → Tried
unfolding dial_one
tcp_connect_one s l tcp addr = elim (s.socket addr) [
  | none ↦ (record l { fd = none }, tcp, false)
  | some fd ↦ dial_one s (record l { fd = some fd }) tcp addr fd
]

-- The loop over the addresses from tcp->cur on, which are the last argument.
unfoldable pub try_addrs : Sockets → Link → TcpDev → List ℕ → Link × TcpDev
unfolding tcp_connect_one
try_addrs s l tcp [] = (l, record tcp { cur = [] })
try_addrs s l tcp (addr ∷ addrs) =
    let (l', tcp', ok) = tcp_connect_one s l (record tcp { cur = addr ∷ addrs }) addr in
    elim ok [ true ↦ (l', tcp') | false ↦ try_addrs s l' tcp' addrs ]

-- The loop, and the state of a device that has no address left.
unfoldable pub connect_rest : Sockets → Link → TcpDev → List ℕ → Link × TcpDev
unfolding try_addrs
connect_rest s l tcp addrs =
    let (l', tcp') = try_addrs s l tcp addrs in
    if is_empty tcp'.cur
    then (record l' { connect_state = dev_not_connected }, tcp')
    else (l', tcp')

-- none for an assertion that fails.
unfoldable pub tcp_connect : Sockets → Link → TcpDev → Option Tried
unfolding connect_rest
tcp_connect s l tcp =
    if is_not_connected l.connect_state && not (is_some l.fd)
    then (let (l', tcp') =
          connect_rest s (record l { connect_state = dev_connecting }) tcp tcp.cur in
        some (l', tcp', is_connected l'.connect_state))
    else none

-- tcp->cur is not NULL while the device is connecting.
unfoldable pub finish_or_rest : Sockets → Link → TcpDev → Link × TcpDev
unfolding tcp_finish_connect_one connect_rest
finish_or_rest s l tcp =
    let (l', tcp', ok) = tcp_finish_connect_one s l tcp in
    if ok then (l', tcp') else connect_rest s l' tcp' (drop 1 tcp'.cur)

unfoldable pub tcp_finish_connect : Sockets → Link → TcpDev → Option Tried
unfolding finish_or_rest
tcp_finish_connect s l tcp =
    if is_connecting l.connect_state
    then (let (l', tcp') = finish_or_rest s l tcp in
        some (l', tcp', not (is_not_connected l'.connect_state)))
    else none

-- The file descriptor is closed if it is open; _disconnect sets the state.
unfoldable pub tcp_disconnect : Link → Option Link
tcp_disconnect l = if is_not_connected l.connect_state then none else some (record l { fd = none })
