-- ===== src/Tcp/Tests.antt =====
-- Runs of device_tcp.c at concrete inputs.
use powerman.Base.{
  ℕ, ◌+◌, ◌≡◌, ◌≤◌, refl, true, false, List, [], ◌∷◌, ◌++◌, none, some, length, if◌then◌else◌, ◌==◌,
}
use powerman.CStr.{codes}
use powerman.Device.{Link, dev_connecting}
use powerman.Device.Enqueue.{is_connected}
use powerman.Samples.{link}
use powerman.Tcp.{TcpDev, telnet_none, max_dev_buf, parse_options}
use powerman.Tcp.Telnet.{is_option_command, CbufWrite, iac, do_opt, telnet_preprocess}
use powerman.Tcp.Telnet.Preprocess.{telnet_leftover_misread}
use powerman.Tcp.Connect.{Sockets, in_progress, refused, tcp_connect, tcp_finish_connect}
use powerman.Tcp.Connect.Addresses.{
  first_answer, state_of, last_fd, tcp_connect-first_answer, tcp_connect_exhausted,
}

-- A buffer that takes all that is written to it.
abbrev write : CbufWrite
write buf s = some (buf ++ s, 0)

keeps : (s : List ℕ) → length s ≤ max_dev_buf → write [] s ≡ some (s, 0)
keeps s h = refl

-- "a" DO SGA 255 255
abbrev input : List ℕ
input = b'a' ∷ iac ∷ do_opt ∷ 3 ∷ 255 ∷ 255 ∷ []

-- Two addresses of a server.
abbrev tcp : TcpDev
tcp = record { tstate = telnet_none; tcmd = 0; quiet = false; addrs = 1 ∷ 2 ∷ []; cur = 1 ∷ 2 ∷ [] }

-- The second address takes a while to connect, and the first refuses.
abbrev slow : Sockets
slow = record {
  socket = λ addr. some (addr + 4);
  setsockopt = λ fd. true;
  dial = λ fd addr. if addr == 2 then in_progress else refused;
  so_error = λ fd. true;
}

abbrev down : Sockets
down = record slow { dial = λ fd addr. refused }

takes_option :
    telnet_preprocess write tcp input []
    ≡ (record tcp { tcmd = do_opt }, b'a' ∷ 255 ∷ [], iac ∷ 251 ∷ 3 ∷ [])
unfolding telnet_preprocess
takes_option = refl

two_options : parse_options (codes "quiet" ∷ codes "loud" ∷ []) tcp ≡ none
unfolding parse_options
two_options = refl

-- A connection that fails in progress at the last address leaves none.
finish_fails :
    tcp_finish_connect slow
      (record link { connect_state = dev_connecting; fd = some 6 })
      (record tcp { cur = 2 ∷ [] })
    ≡ some (record link { fd = some 6 }, record tcp { cur = [] }, false)
unfolding tcp_finish_connect
finish_fails = refl

plain : is_option_command b'a' ≡ false
unfolding is_option_command
plain = refl

option : is_option_command do_opt ≡ true
unfolding is_option_command
option = refl

none_up : first_answer down (1 ∷ 2 ∷ []) ≡ []
unfolding first_answer
none_up = refl

last_try : last_fd down none (1 ∷ 2 ∷ []) ≡ some 6
unfolding last_fd
last_try = refl

telnet_leftover_misread_example :
    let one = telnet_preprocess write tcp (b'a' ∷ iac ∷ []) [] in
    let two = telnet_preprocess write one.0 (one.1 ++ do_opt ∷ 3 ∷ []) one.2 in
    (two.1 ≡ do_opt ∷ 3 ∷ [])
    × (two.2 ≡ [])
    × ((telnet_preprocess write tcp (b'a' ∷ iac ∷ do_opt ∷ 3 ∷ []) []).1 ≡ b'a' ∷ [])
telnet_leftover_misread_example =
    telnet_leftover_misread write tcp b'a' do_opt 3 [] refl refl plain option refl keeps

tcp_connect-first_answer_example :
    let found = first_answer slow (1 ∷ 2 ∷ []) in
    (l' : Link) × (tcp' : TcpDev) × (tcp_connect slow link tcp
      ≡ some (l', tcp', is_connected (state_of slow found)))
    × (tcp'.cur ≡ found)
    × (l'.fd ≡ last_fd slow none (1 ∷ 2 ∷ []))
    × (l'.connect_state ≡ state_of slow found)
tcp_connect-first_answer_example = tcp_connect-first_answer slow link tcp refl refl

tcp_connect_exhausted_example :
    (l' : Link) × (l'' : Link) × (tcp' : TcpDev) × (tcp'' : TcpDev) × (tcp_connect down link tcp
      ≡ some (l', tcp', false))
    × (tcp_connect slow l' tcp' ≡ none)
    × (tcp_connect slow (record l' { fd = none }) tcp' ≡ some (l'', tcp'', false))
    × (tcp''.cur ≡ [])
tcp_connect_exhausted_example =
    tcp_connect_exhausted down slow link tcp 6 refl refl none_up last_try
