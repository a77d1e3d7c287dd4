-- ===== src/Tcp/Connect/Addresses.antt =====
-- Which address a device gets connected to, by a description of what each address answers.
use mathlib.Core.Path.{subst}
use powerman.Base.{
  List-cases, ℕ, ◌≡◌, refl, ap, ◌∙◌, sym, ◌⊎◌, inl, inr, Bool, true, false, List, [], ◌∷◌, Option,
  none, some, arith, if◌then◌else◌, is_some, is_empty, Bool-cases,
}
use powerman.Device.{Link, ConnectState, dev_not_connected, dev_connecting, dev_connected}
use powerman.Device.Connect.{is_not_connected}
use powerman.Device.Enqueue.{is_connected}
use powerman.Tcp.{TcpDev}
use powerman.Tcp.Connect.{
  Tried, done, in_progress, refused, Sockets, tcp_connect_one, try_addrs, connect_rest, tcp_connect,
}

-- What an address answers on a socket: a connection, one in progress, or nothing.
abbrev answer_on : Sockets → ℕ → ℕ → Option ConnectState
answer_on s addr fd =
    if s.setsockopt fd
    then elim (s.dial fd addr) [
      | done ↦ if s.so_error fd then none else some dev_connected
      | in_progress ↦ some dev_connecting
      | refused ↦ none
    ]
    else none

abbrev pub answer : Sockets → ℕ → Option ConnectState
answer s addr = elim (s.socket addr) [ none ↦ none | some fd ↦ answer_on s addr fd ]

-- The addresses from the first that answers on.
unfoldable pub first_answer : Sockets → List ℕ → List ℕ
first_answer s [] = []
first_answer s (addr ∷ addrs) =
    if is_some (answer s addr) then addr ∷ addrs else first_answer s addrs

-- The state and the file descriptor of a device that tries the first of the addresses.
unfoldable pub state_of : Sockets → List ℕ → ConnectState
state_of s [] = dev_not_connected
state_of s (addr ∷ addrs) = elim (answer s addr) [ none ↦ dev_not_connected | some st ↦ st ]

tcp_connect_one-answer :
    (s : Sockets) (l : Link) (tcp : TcpDev) (addr : ℕ)
    → (l.connect_state ≡ dev_connecting)
    → let (l', tcp', ok) = tcp_connect_one s l tcp addr in
      (l'.fd ≡ s.socket addr)
      × (tcp'.cur ≡ tcp.cur)
      × (tcp'.addrs ≡ tcp.addrs)
      × (ok ≡ is_some (answer s addr))
      × (l'.connect_state ≡ elim (answer s addr) [ none ↦ dev_connecting | some st ↦ st ])
unfolding tcp_connect_one
tcp_connect_one-answer s l tcp addr h = ground arith

-- The file descriptor after trying them, which is that of the address tried last.
unfoldable pub last_fd : Sockets → Option ℕ → List ℕ → Option ℕ
last_fd s fd [] = fd
last_fd s fd (addr ∷ addrs) =
    if is_some (answer s addr) then s.socket addr else last_fd s (s.socket addr) addrs

is_some-false {ℓ} : {A : Type ℓ} (o : Option A) → is_some o ≡ false → o ≡ none
is_some-false none h = refl
is_some-false (some a) h = cc

-- The loop ends at the first address that answers.
abbrev Reaches : Sockets → Option ℕ → List ℕ → Link × TcpDev → Type 0
Reaches s fd addrs (l, tcp) =
    (tcp.cur ≡ first_answer s addrs)
    × (l.fd ≡ last_fd s fd addrs)
    × ((is_empty tcp.cur ≡ true) ⊎ (l.connect_state ≡ state_of s (first_answer s addrs)))

Reaches-next :
    (s : Sockets) (fd : Option ℕ) (addr : ℕ) (addrs : List ℕ) (l' : Link) (tcp' : TcpDev)
    (ok : Bool)
    → tcp'.cur ≡ addr ∷ addrs
    → l'.fd ≡ s.socket addr
    → ok ≡ is_some (answer s addr)
    → l'.connect_state ≡ elim (answer s addr) [ none ↦ dev_connecting | some st ↦ st ]
    → (ok ≡ true) ⊎ Reaches s (s.socket addr) addrs (try_addrs s l' tcp' addrs)
    → Reaches s fd
        (addr ∷ addrs)
        (elim ok [ true ↦ (l', tcp') | false ↦ try_addrs s l' tcp' addrs ])
unfolding first_answer state_of last_fd
Reaches-next s fd addr addrs l' tcp' true hc hf ho hs rest = ground arith
Reaches-next s fd addr addrs l' tcp' false hc hf ho hs (inl e) = cc
Reaches-next s fd addr addrs l' tcp' false hc hf ho hs (inr rest) =
    rw (is_some-false (answer s addr) (sym ho)) rest

-- The loop goes on only while the device is connecting.
try_addrs-Reaches :
    (s : Sockets) (l : Link) (tcp : TcpDev) (addrs : List ℕ)
    → l.connect_state ≡ dev_connecting
    → Reaches s l.fd addrs (try_addrs s l tcp addrs)
unfolding try_addrs first_answer state_of last_fd
try_addrs-Reaches s l tcp [] h = (refl, refl, inl refl)
try_addrs-Reaches s l tcp (addr ∷ addrs) h =
    let (l', tcp', ok) = tcp_connect_one s l (record tcp { cur = addr ∷ addrs }) addr in
    let (hf, hc, ha, ho, hs) =
      tcp_connect_one-answer s l (record tcp { cur = addr ∷ addrs }) addr h in
    Reaches-next s l.fd addr addrs l' tcp' ok hc hf ho hs (elim (Bool-cases ok) [
      | inl e ↦ inl e
      | inr e ↦ inr (
          subst (λ fd. Reaches s fd addrs (try_addrs s l' tcp' addrs)) hf
            (try_addrs-Reaches s l' tcp' addrs (ground arith)))
    ])

abbrev Settles : Sockets → Option ℕ → List ℕ → Link × TcpDev → Type 0
Settles s fd addrs (l, tcp) =
    (tcp.cur ≡ first_answer s addrs)
    × (l.fd ≡ last_fd s fd addrs)
    × (l.connect_state ≡ state_of s (first_answer s addrs))

Settles-if :
    (s : Sockets) (fd : Option ℕ) (addrs : List ℕ) (l : Link) (tcp : TcpDev)
    → Reaches s fd addrs (l, tcp)
    → Settles s fd addrs (
        if is_empty tcp.cur
        then (record l { connect_state = dev_not_connected }, tcp)
        else (l, tcp))
unfolding state_of
Settles-if s fd addrs l tcp (hc, hf, hs) = elim (List-cases tcp.cur) [
  | inl e ↦ ground (arith, ap (state_of s) (sym e ∙ hc))
  | inr (x, xs, e) ↦ ground arith
]

connect_rest-Settles :
    (s : Sockets) (l : Link) (tcp : TcpDev) (addrs : List ℕ)
    → l.connect_state ≡ dev_connecting
    → Settles s l.fd addrs (connect_rest s l tcp addrs)
unfolding connect_rest
connect_rest-Settles s l tcp addrs h =
    let (l', tcp') = try_addrs s l tcp addrs in
    Settles-if s l.fd addrs l' tcp' (try_addrs-Reaches s l tcp addrs h)

abbrev result : Link → TcpDev → ConnectState → Option Tried
result l tcp st = some (l, tcp, is_connected st)

tcp_connect-idle :
    (s : Sockets) (l : Link) (tcp : TcpDev)
    → l.connect_state ≡ dev_not_connected
    → l.fd ≡ none
    → let (l', tcp') = connect_rest s (record l { connect_state = dev_connecting }) tcp tcp.cur in
      tcp_connect s l tcp ≡ some (l', tcp', is_connected l'.connect_state)
unfolding tcp_connect
tcp_connect-idle s l tcp idle closed = rw (idle, closed) refl

tcp_connect-open :
    (s : Sockets) (l : Link) (tcp : TcpDev) (fd : ℕ) → l.fd ≡ some fd → tcp_connect s l tcp ≡ none
unfolding tcp_connect
tcp_connect-open s l tcp fd h = elim (Bool-cases (is_not_connected l.connect_state)) [
  | inl e ↦ ground arith
  | inr e ↦ ground arith
]

-- tcp_connect of a device that is not connected and has no file descriptor fails no assertion. The
-- device ends at the first address, from tcp->cur on, that answers, in the state of that answer, or
-- not connected with no address left; the result is whether it is connected.
pub tcp_connect-first_answer :
    (s : Sockets) (l : Link) (tcp : TcpDev)
    → l.connect_state ≡ dev_not_connected
    → l.fd ≡ none
    → let found = first_answer s tcp.cur in
      (l' : Link) × (tcp' : TcpDev) × (tcp_connect s l tcp
        ≡ some (l', tcp', is_connected (state_of s found)))
      × (tcp'.cur ≡ found)
      × (l'.fd ≡ last_fd s none tcp.cur)
      × (l'.connect_state ≡ state_of s found)
tcp_connect-first_answer s l tcp idle closed =
    let l1 = record l { connect_state = dev_connecting } in
    let (l', tcp') = connect_rest s l1 tcp tcp.cur in
    let (hc, hf, hs) = connect_rest-Settles s l1 tcp tcp.cur refl in
    (
      l',
      tcp',
      tcp_connect-idle s l tcp idle closed ∙ ap (λ st. result l' tcp' st) hs,
      hc,
      hf ∙ ap (λ fd. last_fd s fd tcp.cur) closed,
      hs,
    )

-- When no address answers, and the last one tried had a socket, tcp_connect fails and the next
-- tcp_connect fails an assertion, as the closed file descriptor is left on the device; with it
-- cleared, every later tcp_connect fails, whatever the addresses would answer then.
pub tcp_connect_exhausted :
    (s s' : Sockets) (l : Link) (tcp : TcpDev) (fd : ℕ)
    → l.connect_state ≡ dev_not_connected
    → l.fd ≡ none
    → first_answer s tcp.cur ≡ []
    → last_fd s none tcp.cur ≡ some fd
    → (l' l'' : Link) × (tcp' tcp'' : TcpDev) × (tcp_connect s l tcp ≡ some (l', tcp', false))
      × (tcp_connect s' l' tcp' ≡ none)
      × (tcp_connect s' (record l' { fd = none }) tcp' ≡ some (l'', tcp'', false))
      × (tcp''.cur ≡ [])
unfolding state_of first_answer
tcp_connect_exhausted s s' l tcp fd idle closed nobody last =
    let (l', tcp', first, hc, hf, hs) = tcp_connect-first_answer s l tcp idle closed in
    let none_left : first_answer s' tcp'.cur ≡ [] = ap (first_answer s') (hc ∙ nobody) in
    let (l'', tcp'', second, hc', hf', hs') =
      tcp_connect-first_answer s' (record l' { fd = none }) tcp' (hs ∙ ap (state_of s) nobody)
        refl in
    (
      l',
      l'',
      tcp',
      tcp'',
      first ∙ ap (λ found. result l' tcp' (state_of s found)) nobody,
      tcp_connect-open s' l' tcp' fd (hf ∙ last),
      second ∙ ap (λ found. result l'' tcp'' (state_of s' found)) none_left,
      hc' ∙ none_left,
    )
